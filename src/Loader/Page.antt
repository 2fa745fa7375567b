-- ===== src/Loader/Page.antt =====
-- A new frame behind one page, as `Scheduler::submit_new_process` of kernel/process/scheduler.cpp maps
-- the pages of a process.
use tetra_os.Base.{
  ℕ, ◌+◌, ◌*◌, ◌^◌, ◌≤◌, ◌<◌, ◌≡◌, refl, sym, ap, ◌∙◌, ◌≢◌, ◌⊎◌, inl, inr, ◌/◌, ◌%◌, ◌==◌, ◌&&◌,
  ltb, true, false, Bool-cases, Option, some, arith,
}
use tetra_os.Kernel.{Kernel, virtual_offset, IsOther, ◌>>=◌, ◌>>◌}
use tetra_os.Address.{vpn_3-eq, vpn_2-eq, get_vpn_0, get_offset, address_parts}
use tetra_os.Frames.{kalloc_frame}
use tetra_os.Frames.Alloc.{after_alloc, kalloc_frame_lem}
use tetra_os.Frames.Count.{free_count, free_frame, free_count-after_alloc}
use tetra_os.Paging.{map_page, get_physical_address_of_virtual_address}
use tetra_os.Paging.Tree.{IsTree}
use tetra_os.Paging.Change.{after_alloc-outside}
use tetra_os.Paging.Map.{page_path, page_path-IsPath, IsMappable, IsMapped, map_page_lem}
use tetra_os.Paging.Stable.{alloc-IsTree, alloc-leaf}
use tetra_os.Paging.Translate.{
  address_in, translate-leaf, page_of, vpn_of_page, IsRemapped, mapped-IsRemapped,
}
use tetra_os.Loader.{map_new_frame, show_frame, user_flags}
use tetra_os.Loader.Write.{user-IsTree, user-free_count, user-translate}
use tetra_os.Memory.{Bytes}

-- Addresses of the lower half can be mapped.
pub user-IsMappable : (v : ℕ) → v < 2 ^ 47 → IsMappable v
user-IsMappable v h = ground (arith, vpn_3-eq v, vpn_2-eq v)

-- So can the other addresses of their pages.
pub page-IsMappable : (v w : ℕ) → v < 2 ^ 47 → page_of w ≡ page_of v → IsMappable w
page-IsMappable v w h e = ground (arith, vpn_3-eq w, vpn_2-eq w)

-- The state after pages were mapped: the tables are a tree, and the memory of the heap and above is as
-- before.
pub record IsKept (k k' : Kernel) (limit : ℕ) : Type 0 where
  pub tree : IsTree k' limit
  pub high : (b : ℕ) → virtual_offset + 2 ^ 32 ≤ b → k'.mem b ≡ k.mem b

-- At the page, the process sees the bytes of the frame.
abbrev pub IsShown : Kernel → ℕ → ℕ → Type 0
IsShown k page frame =
    (b : ℕ)
    → b / 4096 ≡ page / 4096
    → b < virtual_offset
    → k.mem b ≡ k.mem (virtual_offset + frame + b % 4096)

show_frame-inside :
    (page frame b : ℕ) (m : Bytes)
    → b / 4096 ≡ page / 4096
    → b < virtual_offset
    → show_frame page frame m b ≡ m (virtual_offset + frame + b % 4096)
show_frame-inside page frame b m e low =
    let t : ((b / 4096 == page / 4096) && ltb b virtual_offset) ≡ true = ground arith in rw t refl

show_frame-outside :
    (page frame b : ℕ) (m : Bytes)
    → (virtual_offset ≤ b) ⊎ (page_of b ≢ page_of page)
    → show_frame page frame m b ≡ m b
show_frame-outside page frame b m (inl high) =
    let t : ((b / 4096 == page / 4096) && ltb b virtual_offset) ≡ false = ground arith in rw t refl
show_frame-outside page frame b m (inr ne) = elim (Bool-cases (b / 4096 == page / 4096)) [
  | inl e ↦
      (let same : b / 4096 ≡ page / 4096 = ground arith in
        absurd (ne (ap (λ (x : ℕ). x % 2 ^ 36) same)))
  | inr e ↦ rw e refl
]

-- The other addresses of a page that can be mapped.
same-IsMappable : (v w : ℕ) → IsMappable v → page_of w ≡ page_of v → IsMappable w
same-IsMappable v w h e = let (a, b, _, _) = vpn_of_page w v e in rw (a, b) h

-- One page more.
pub record IsNewPage (k k' : Kernel) (limit page : ℕ) : Type 0 where
  pub kept : IsKept k k' limit
  pub frame : ℕ
  pub remapped : IsRemapped k k' page frame
  pub frames_left : free_count k limit ≤ free_count k' limit + 4
  pub shown : IsShown k' page frame
  pub user : (b : ℕ) → b < virtual_offset → page_of b ≢ page_of page → k'.mem b ≡ k.mem b

module _ (fuel limit : ℕ) (enough : limit ≤ fuel) (k : Kernel) (v : IsTree k limit) where
  -- Taking a frame changes no translation.
  alloc-translate :
      (j : ℕ)
      → j < limit
      → (w : ℕ) → IsMappable w
      → get_physical_address_of_virtual_address (after_alloc k j) w
        ≡ get_physical_address_of_virtual_address k w
  alloc-translate j below w mappable =
      translate-leaf (after_alloc k j) w
      ∙ ap (λ (o : Option ℕ). address_in o (get_offset w))
          (alloc-leaf k limit v j below (page_path w) (page_path-IsPath w mappable) (get_vpn_0 w)
            (omega (arith, address_parts w)))
      ∙ sym (translate-leaf k w)

  remapped :
      (page j : ℕ)
      → j < limit
      → (r : IsMapped fuel limit
          (after_alloc k j)
          page
          (k.first_frame_address + 4096 * j)
          user_flags)
      → IsRemapped k r.state page (k.first_frame_address + 4096 * j)
  remapped page j below r =
      let new =
        mapped-IsRemapped fuel limit (after_alloc k j) page (k.first_frame_address + 4096 * j)
          user_flags (omega (arith, v.laid.low)) (omega (arith, v.laid.aligned)) (omega arith) r in
      record {
        inside = new.inside;
        outside = λ w mappable ne. new.outside w mappable ne ∙ alloc-translate j below w mappable;
      }

  map_new_frame_runs :
      (page frame : ℕ) (k1 k2 : Kernel)
      → kalloc_frame fuel k ≡ some (frame, k1)
      → map_page fuel page frame user_flags k1 ≡ some (tt, k2)
      → map_new_frame fuel page k ≡ some (tt, record k2 { mem = show_frame page frame k2.mem })
  unfolding map_new_frame
  map_new_frame_runs page frame k1 k2 alloc maps = rw (alloc, ◌>>=◌) (rw (maps, ◌>>◌, ◌>>=◌) refl)

  -- With four free frames, a page of the process gets a new frame.
  pub map_new_frame_lem :
      (page : ℕ)
      → IsMappable page
      → 4 ≤ free_count k limit
      → (k' : Kernel) × (map_new_frame fuel page k ≡ some (tt, k')) × IsNewPage k k' limit page
  map_new_frame_lem page mappable room =
      let laid = v.laid in
      let (n, low, free) = free_frame k limit (omega arith) in
      let (j, le, first, alloc) =
        kalloc_frame_lem fuel n k (omega arith) (omega (arith, laid.low)) (omega (arith, laid.low))
          free in
      let below : j < limit = omega arith in
      let left = free_count-after_alloc k j limit below first.free in
      let r =
        map_page_lem fuel limit enough (after_alloc k j) (alloc-IsTree k limit v j below) page
          (k.first_frame_address + 4096 * j) user_flags mappable (omega arith)
          (omega (arith, laid.low)) (omega arith) in
      let unmoved : (b : ℕ) → IsOther b → r.state.mem b ≡ k.mem b =
        λ b h. r.outside b h ∙ after_alloc-outside k limit laid j below b h in
      let frame : ℕ = k.first_frame_address + 4096 * j in
      let m = show_frame page frame r.state.mem in
      let same : (b : ℕ) → virtual_offset ≤ b → m b ≡ r.state.mem b =
        λ b h. show_frame-outside page frame b r.state.mem (inl h) in
      let new = remapped page j below r in
      (
        record r.state { mem = m },
        map_new_frame_runs page (k.first_frame_address + 4096 * j) (after_alloc k j) r.state alloc
            r.runs,
        record {
          kept = record {
            tree = user-IsTree r.state limit r.tree m same;
            high = λ b h. same b (omega arith) ∙ unmoved b (inl h);
          };
          frame = frame;
          remapped = record {
            inside = λ w e.
                user-translate r.state limit r.tree m same w (same-IsMappable page w mappable e)
                ∙ new.inside w e;
            outside = λ w h ne. user-translate r.state limit r.tree m same w h ∙ new.outside w h ne;
          };
          frames_left =
              omega (arith, left, r.frames_left, user-free_count r.state limit r.tree m same);
          shown = λ b e h.
              show_frame-inside page frame b r.state.mem e h
              ∙ sym (same (virtual_offset + frame + b % 4096) (omega arith));
          user = λ b h ne. show_frame-outside page frame b r.state.mem (inr ne) ∙ unmoved b (inr h);
        },
      )
