-- ===== src/Loader/Whole.antt =====
-- The loading of a whole program in `Scheduler::submit_new_process`,
-- kernel/process/scheduler.cpp: its segments, the first page of its heap, and its stack.
use tetra_os.Base.{
  ℕ, zero, suc, ◌+◌, ◌*◌, ◌/◌, ◌^◌, ◌≤◌, ◌<◌, ◌≡◌, refl, sym, inl, inr, true, false, some, arith,
  ◌==◌, Bool-cases,
}
use tetra_os.Kernel.{Kernel, virtual_offset, ◌>>=◌, ◌>>◌}
use tetra_os.Frames.Count.{free_count}
use tetra_os.Paging.Tree.{IsTree}
use tetra_os.Loader.{
  p_type, p_vaddr, p_memsz, size_of_header, segment_end, load_segment, load_segments,
}
use tetra_os.Loader.Page.{IsKept}
use tetra_os.Loader.Segment.{IsKept-trans}
use tetra_os.Loader.Headers.{AllLoadable, header_ext, pages_of, pages_of_ext, AllLoadable-ext}
use tetra_os.Loader.Program.{IsLoaded, load_segment_lem}

-- After all segments: `end` is `data_end` or above.
pub record AreLoaded (k k' : Kernel) (limit pages data_end end : ℕ) : Type 0 where
  pub kept : IsKept k k' limit
  pub frames_left : free_count k limit ≤ free_count k' limit + 4 * pages
  pub above : data_end ≤ end
  pub low : data_end < 2 ^ 46 → end < 2 ^ 46

module _ (fuel limit : ℕ) (enough : limit ≤ fuel) (file : ℕ)
    (high : virtual_offset + 2 ^ 32 ≤ file) where
  loads_one :
      (rounds header data_end end : ℕ) (k k1 k' : Kernel)
      → p_type k.mem header ≡ 1
      → load_segment fuel file header k ≡ some (tt, k1)
      → load_segments fuel file rounds
          (header + size_of_header)
          (segment_end k1.mem header data_end)
          k1
        ≡ some (end, k')
      → load_segments fuel file (suc rounds) header data_end k ≡ some (end, k')
  unfolding load_segments
  loads_one rounds header data_end end k k1 k' kind one more =
      let test : (p_type k.mem header == 1) ≡ true = ground arith in
      rw test (rw (one, ◌>>◌, ◌>>=◌) more)

  skips_one :
      (rounds header data_end end : ℕ) (k k' : Kernel)
      → (p_type k.mem header == 1) ≡ false
      → load_segments fuel file rounds (header + size_of_header) data_end k ≡ some (end, k')
      → load_segments fuel file (suc rounds) header data_end k ≡ some (end, k')
  unfolding load_segments
  skips_one rounds header data_end end k k' test more = rw test more

  AreLoaded-sum :
      (k k' : Kernel) (data_end end : ℕ) {pages more : ℕ}
      → pages ≡ more
      → AreLoaded k k' limit more data_end end
      → AreLoaded k k' limit pages data_end end
  AreLoaded-sum k k' data_end end e r = record {
    kept = r.kept;
    frames_left = omega (arith, r.frames_left, e);
    above = r.above;
    low = r.low;
  }

  AreLoaded-more :
      (header data_end end pages more : ℕ) (k k1 k' : Kernel)
      → p_vaddr k1.mem header + p_memsz k1.mem header < 2 ^ 46
      → pages ≡ p_memsz k.mem header / 4096 + 1
      → IsLoaded k k1 limit file header
      → AreLoaded k1 k' limit more (segment_end k1.mem header data_end) end
      → AreLoaded k k' limit (pages + more) data_end end
  AreLoaded-more header data_end end pages more k k1 k' fits number one r = record {
    kept = IsKept-trans k k1 k' limit one.kept r.kept;
    frames_left = omega (arith, one.frames_left, r.frames_left);
    above = ground (arith, r.above);
    low = λ h. r.low (ground arith);
  }

  -- With four free frames for each page that the headers ask for, the loop over them ends, and its
  -- result is no lower than `data_end`.
  pub load_segments_lem :
      (count header data_end : ℕ) (k : Kernel)
      → IsTree k limit
      → virtual_offset + 2 ^ 32 ≤ header
      → AllLoadable file k.mem header count
      → 4 * pages_of k.mem header count ≤ free_count k limit
      → (end : ℕ) × (k' : Kernel) × (load_segments fuel file count header data_end k
          ≡ some (end, k'))
        × AreLoaded k k' limit (pages_of k.mem header count) data_end end
  unfolding load_segments pages_of
  load_segments_lem zero header data_end k v above all room = (
    data_end,
    k,
    refl,
    record {
      kept = record { tree = v; high = λ b h. refl };
      frames_left = omega arith;
      above = omega arith;
      low = λ h. h;
    },
  )
  load_segments_lem (suc count) header data_end k v above all room =
      let next : ℕ = header + size_of_header in
      elim (Bool-cases (p_type k.mem header == 1)) [
        | inl test ↦
            let size = p_memsz k.mem header in
            let pages : ℕ = size / 4096 + 1 in
            let more : ℕ = pages_of k.mem next count in
            let sum : pages_of k.mem header (suc count) ≡ pages + more = rw test refl in
            let kind : p_type k.mem header ≡ 1 = ground arith in
            let (low, fits, inside, one_page) = all.0 kind in
            let (k1, one, loaded) =
              load_segment_lem fuel limit enough file high header k v above low fits inside one_page
                (omega (arith, sum)) in
            let (_, _, addr_same, _, size_same) =
              header_ext k1.mem k.mem header (λ b h. loaded.kept.high b (omega arith)) in
            let same : (b : ℕ) → next ≤ b → k.mem b ≡ k1.mem b =
              λ b h. sym (loaded.kept.high b (omega arith)) in
            let pages_same = pages_of_ext k.mem k1.mem next count same in
            let (end, k', runs, rest) =
              load_segments_lem count next (segment_end k1.mem header data_end) k1 loaded.kept.tree
                (omega arith) (AllLoadable-ext k.mem k1.mem file next count same all.1)
                (omega (arith, sum, pages_same, loaded.frames_left)) in
            (
              end,
              k',
              loads_one count header data_end end k k1 k' kind one runs,
              AreLoaded-sum k k' data_end end sum (
                  AreLoaded-more header data_end end pages more k k1 k'
                    (omega (arith, low, addr_same, size_same)) refl loaded
                    (AreLoaded-sum k1 k' (segment_end k1.mem header data_end) end pages_same rest)),
            )
        | inr test ↦
            let sum : pages_of k.mem header (suc count) ≡ pages_of k.mem next count =
              rw test (omega arith) in
            let (end, k', runs, rest) =
              load_segments_lem count next data_end k v (omega arith) all.1 (omega (arith, sum)) in
            (
              end,
              k',
              skips_one count header data_end end k k' test runs,
              AreLoaded-sum k k' data_end end sum rest,
            )
      ]
