-- ===== src/Loader/Start.antt =====
-- Everything that `Scheduler::submit_new_process` of kernel/process/scheduler.cpp does with the file
-- once it is read.
use tetra_os.Base.{ℕ, ◌+◌, ◌-◌, ◌*◌, ◌%◌, ◌^◌, ◌≤◌, ◌<◌, ◌≡◌, refl, ◌≢◌, sym, ◌∙◌, some, arith}
use tetra_os.Memory.{u64}
use tetra_os.Kernel.{Kernel, virtual_offset, ◌>>=◌, ◌>>◌}
use tetra_os.Frames.Count.{free_count}
use tetra_os.Paging.Tree.{IsTree}
use tetra_os.Paging.Translate.{page_of}
use tetra_os.Loader.{e_phoff, e_phnum, map_new_frame, load_segments, stack_page, load_program}
use tetra_os.Loader.Page.{IsKept, map_new_frame_lem, user-IsMappable, page-IsMappable}
use tetra_os.Loader.Segment.{IsBehind, IsKept-trans}
use tetra_os.Loader.Headers.{AllLoadable, pages_of}
use tetra_os.Loader.Whole.{load_segments_lem}

abbrev pub headers_of : Kernel → ℕ → ℕ
headers_of k file = u64 (file + e_phoff k.mem file)

abbrev heap_after : ℕ → ℕ
heap_after end = u64 (end + 4096 - end % 4096)

-- The state and the start of the heap when a file is loaded.
pub record IsStarted (k k' : Kernel) (limit heap_start : ℕ) : Type 0 where
  pub kept : IsKept k k' limit
  pub aligned : heap_start % 4096 ≡ 0
  pub stack : (frame : ℕ) × IsBehind k' stack_page frame
  pub heap : page_of heap_start ≢ page_of stack_page → (frame : ℕ) × IsBehind k' heap_start frame

module _ (fuel limit file : ℕ) where
  load_program_runs :
      (k k1 k2 k3 : Kernel) (end : ℕ)
      → load_segments fuel file (e_phnum k.mem file) (headers_of k file) 0 k ≡ some (end, k1)
      → map_new_frame fuel (heap_after end) k1 ≡ some (tt, k2)
      → map_new_frame fuel stack_page k2 ≡ some (tt, k3)
      → load_program fuel file k ≡ some (heap_after end, k3)
  unfolding load_program
  load_program_runs k k1 k2 k3 end loads heap stack =
      rw (loads, ◌>>=◌) (rw (heap, ◌>>◌, ◌>>=◌) (rw (stack, ◌>>◌, ◌>>=◌) refl))

  -- A file above the direct mapping whose segments lie in the lower quarter of the addresses, are no
  -- longer in the file than in memory, and have their bytes of the file in their first page, with four
  -- free frames for each page that its headers ask for and eight more, is loaded. Its heap starts at a
  -- page, and the page of its stack translates into one frame, as does the first page of its heap if
  -- that is another page.
  pub load_program_lem :
      limit ≤ fuel
      → virtual_offset + 2 ^ 32 ≤ file
      → (k : Kernel) → IsTree k limit
      → virtual_offset + 2 ^ 32 ≤ headers_of k file
      → AllLoadable file k.mem (headers_of k file) (e_phnum k.mem file)
      → 4 * pages_of k.mem (headers_of k file) (e_phnum k.mem file) + 8 ≤ free_count k limit
      → (heap_start : ℕ) × (k' : Kernel) × (load_program fuel file k ≡ some (heap_start, k'))
        × IsStarted k k' limit heap_start
  load_program_lem enough high k v above all room =
      let (end, k1, loads, loaded) =
        load_segments_lem fuel limit enough file high (e_phnum k.mem file) (headers_of k file) 0 k v
          above all (omega (arith, room)) in
      let low : end < 2 ^ 46 = loaded.low (omega arith) in
      let heap_start : ℕ = heap_after end in
      let (k2, heap, first) =
        map_new_frame_lem fuel limit enough k1 loaded.kept.tree heap_start
          (user-IsMappable heap_start (omega arith)) (omega (arith, room, loaded.frames_left)) in
      let (k3, stack, last) =
        map_new_frame_lem fuel limit enough k2 first.kept.tree stack_page
          (user-IsMappable stack_page (omega arith))
          (omega (arith, room, loaded.frames_left, first.frames_left)) in
      (
        heap_start,
        k3,
        load_program_runs k k1 k2 k3 end loads heap stack,
        record {
          kept =
              IsKept-trans k k1 k3 limit loaded.kept
                (IsKept-trans k1 k2 k3 limit first.kept last.kept);
          aligned = omega arith;
          stack = (last.frame, last.remapped.inside);
          heap = λ ne. (
            first.frame,
            (λ w e.
                last.remapped.outside w (page-IsMappable heap_start w (omega arith) e)
                  (λ q. ne (sym e ∙ q))
                ∙ first.remapped.inside w e),
          );
        },
      )
