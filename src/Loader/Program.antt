-- ===== src/Loader/Program.antt =====
-- The loading of one segment in `Scheduler::submit_new_process`, kernel/process/scheduler.cpp.
use tetra_os.Base.{
  ℕ, ◌+◌, ◌-◌, ◌*◌, ◌/◌, ◌%◌, ◌^◌, ◌≤◌, ◌<◌, ◌≡◌, refl, sym, ap, ◌∙◌, inl, inr, some, ◌≢◌, ◌==◌,
  ltb, false, Bool-cases, arith,
}
use tetra_os.Memory.{Bytes, Apart, u64, load8, load8_ext}
use tetra_os.Copy.{memcpy, memcpy_lem}
use tetra_os.Kernel.{Kernel, virtual_offset, ◌>>=◌, ◌>>◌}
use tetra_os.Frames.Count.{free_count}
use tetra_os.Paging.Tree.{IsTree}
use tetra_os.Paging.Translate.{page_of}
use tetra_os.Loader.{p_offset, p_vaddr, p_filesz, p_memsz, map_segment, load_segment}
use tetra_os.Loader.Page.{IsKept, user-IsMappable, page-IsMappable}
use tetra_os.Loader.Segment.{IsBehind, map_segment_lem}
use tetra_os.Loader.Write.{user-IsTree, user-free_count, user-translate}
use tetra_os.Loader.Headers.{header_ext}

-- What loading one segment leaves behind.
pub record IsLoaded (k k' : Kernel) (limit file header : ℕ) : Type 0 where
  pub kept : IsKept k k' limit
  pub frames_left : free_count k limit ≤ free_count k' limit + 4 * (p_memsz k.mem header / 4096 + 1)
  pub copied :
      (i : ℕ)
      → i < p_filesz k.mem header
      → load8 k'.mem (p_vaddr k.mem header + i) ≡ load8 k.mem (file + p_offset k.mem header + i)
  pub others :
      (b : ℕ) → b < virtual_offset → page_of b ≢ page_of (p_vaddr k.mem header) → k'.mem b ≡ k.mem b
  pub first_page : (frame : ℕ) × IsBehind k' (p_vaddr k.mem header) frame

-- Bytes of one page are apart from those of others.
apart_of_page :
    (v to size b : ℕ) → to ≡ v → v % 4096 + size ≤ 4096 → page_of b ≢ page_of v → Apart to size b 1
apart_of_page v to size b at one_page ne = elim (Bool-cases (b / 4096 == v / 4096)) [
  | inl e ↦
      (let same : b / 4096 ≡ v / 4096 = ground arith in
        absurd (ne (ap (λ (x : ℕ). x % 2 ^ 36) same)))
  | inr e ↦ (let other : b / 4096 ≢ v / 4096 = ground arith in omega (arith, at, one_page, other))
]

module _ (fuel limit : ℕ) (enough : limit ≤ fuel) (file : ℕ)
    (high : virtual_offset + 2 ^ 32 ≤ file) where
  module _ (header : ℕ) (k : Kernel) (v : IsTree k limit) where
    abbrev vaddr : ℕ
    vaddr = p_vaddr k.mem header

    abbrev from : ℕ
    from = u64 (file + p_offset k.mem header)

    abbrev copied_to : Kernel → ℕ → Bytes
    copied_to k1 to =
        memcpy k1.mem to (u64 (file + p_offset k1.mem header)) (p_filesz k1.mem header)

    load_segment_runs :
        (k1 : Kernel)
        → map_segment fuel (p_memsz k.mem header / 4096 + 1) (vaddr - vaddr % 4096) k
          ≡ some (tt, k1)
        → ltb 4096 ((vaddr - vaddr % 4096 + vaddr % 4096) % 4096 + p_filesz k1.mem header) ≡ false
        → load_segment fuel file header k
          ≡ some (tt, record k1 { mem = copied_to k1 (vaddr - vaddr % 4096 + vaddr % 4096) })
    unfolding load_segment
    load_segment_runs k1 runs few = rw (runs, ◌>>◌, ◌>>=◌) (rw few refl)

    -- The header is the same after the pages were mapped.
    copied_to-kept :
        (k1 : Kernel) (to : ℕ)
        → virtual_offset + 2 ^ 32 ≤ header
        → IsKept k k1 limit
        → copied_to k1 to ≡ memcpy k1.mem to from (p_filesz k.mem header)
    copied_to-kept k1 to above kept =
        let (_, offset, _, size, _) =
          header_ext k1.mem k.mem header (λ b h. kept.high b (omega arith)) in
        rw (offset, size) refl

    -- A segment of the lower quarter of the addresses, no longer in the file than in memory, whose
    -- bytes in the file lie in its first page, with four free frames for each page that it asks for,
    -- is loaded: its bytes are those of the file, its first page translates into one frame, and the
    -- memory of the process outside that page, of the heap and above is as before.
    pub load_segment_lem :
        virtual_offset + 2 ^ 32 ≤ header
        → vaddr + p_memsz k.mem header < 2 ^ 46
        → p_filesz k.mem header ≤ p_memsz k.mem header
        → file + p_offset k.mem header + p_filesz k.mem header < 2 ^ 64
        → vaddr % 4096 + p_filesz k.mem header ≤ 4096
        → 4 * (p_memsz k.mem header / 4096 + 1) ≤ free_count k limit
        → (k' : Kernel) × (load_segment fuel file header k ≡ some (tt, k'))
          × IsLoaded k k' limit file header
    load_segment_lem above low fits inside one_page room =
        let start : ℕ = vaddr - vaddr % 4096 in
        let size = p_filesz k.mem header in
        let (k1, runs, s) =
          map_segment_lem limit start fuel enough (user-IsMappable start (omega arith))
            (p_memsz k.mem header / 4096 + 1) k v room in
        let to : ℕ = start + vaddr % 4096 in
        let at : to ≡ vaddr = omega arith in
        let whole : from ≡ file + p_offset k.mem header = omega arith in
        let (_, _, _, size_same, _) =
          header_ext k1.mem k.mem header (λ b h. s.kept.high b (omega arith)) in
        let few : ltb 4096 (to % 4096 + p_filesz k1.mem header) ≡ false =
          ground (arith, at, size_same) in
        let (copies, outside) = memcpy_lem k1.mem to from size (inl (omega (arith, at))) in
        let m = memcpy k1.mem to from size in
        let first : page_of start ≡ page_of vaddr = omega arith in
        let away : (b : ℕ) → page_of b ≢ page_of vaddr → Apart to size b 1 =
          λ b ne. apart_of_page vaddr to size b at one_page ne in
        let unmoved : (b : ℕ) → virtual_offset ≤ b → m b ≡ k1.mem b =
          λ b h. outside b (inl (omega arith)) in
        (
          record k1 { mem = m },
          load_segment_runs k1 runs few
              ∙ ap (λ (x : Bytes). some (tt, record k1 { mem = x }))
                  (copied_to-kept k1 to above s.kept),
          record {
            kept = record {
              tree = user-IsTree k1 limit s.kept.tree m unmoved;
              high = λ b h. unmoved b (omega arith) ∙ s.kept.high b h;
            };
            frames_left =
                omega (arith, s.frames_left, user-free_count k1 limit s.kept.tree m unmoved);
            copied = λ i h.
                ap (λ (a : ℕ). load8 m (a + i)) (sym at)
                ∙ copies i h
                ∙ load8_ext k1.mem k.mem (from + i) (s.kept.high (from + i) (omega arith))
                ∙ ap (λ (a : ℕ). load8 k.mem (a + i)) whole;
            others = λ b h ne. outside b (away b ne) ∙ s.user b h (λ e. ne (e ∙ first));
            first_page =
                let (frame, behind, shown) = s.first_page (omega arith) in
                (
                  frame,
                  (λ w e.
                      let same : page_of w ≡ page_of start = omega arith in
                      user-translate k1 limit s.kept.tree m unmoved w
                        (page-IsMappable start w (omega arith) same)
                      ∙ behind w same),
                );
          },
        )
