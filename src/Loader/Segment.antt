-- ===== src/Loader/Segment.antt =====
-- The loop over a segment's pages in `Scheduler::submit_new_process`,
-- kernel/process/scheduler.cpp.
use tetra_os.Base.{
  ℕ, zero, suc, ◌+◌, ◌*◌, ◌%◌, ◌≤◌, ◌<◌, ◌≡◌, refl, ◌≢◌, ap, sym, subst, ◌∙◌, some, arith,
}
use tetra_os.Kernel.{Kernel, virtual_offset, ◌>>=◌}
use tetra_os.Frames.Count.{free_count}
use tetra_os.Paging.{get_physical_address_of_virtual_address}
use tetra_os.Paging.Tree.{IsTree}
use tetra_os.Paging.Map.{IsMappable}
use tetra_os.Paging.Translate.{page_of}
use tetra_os.Loader.{map_new_frame, map_segment}
use tetra_os.Loader.Page.{IsKept, IsShown, IsNewPage, map_new_frame_lem}

-- The addresses of the page translate into one frame.
abbrev pub IsBehind : Kernel → ℕ → ℕ → Type 0
IsBehind k page frame =
    (w : ℕ)
    → page_of w ≡ page_of page
    → get_physical_address_of_virtual_address k w ≡ frame + w % 4096

-- After so many rounds at one address.
pub record IsSegment (k k' : Kernel) (limit address rounds : ℕ) : Type 0 where
  pub kept : IsKept k k' limit
  pub frames_left : free_count k limit ≤ free_count k' limit + 4 * rounds
  pub user : (b : ℕ) → b < virtual_offset → page_of b ≢ page_of address → k'.mem b ≡ k.mem b
  pub none_mapped : rounds ≡ 0 → k' ≡ k
  pub first_page : 0 < rounds → (frame : ℕ) × IsBehind k' address frame × IsShown k' address frame
  pub others :
      (w : ℕ)
      → IsMappable w
      → page_of w ≢ page_of address
      → get_physical_address_of_virtual_address k' w ≡ get_physical_address_of_virtual_address k w

pub IsKept-trans :
    (k k1 k' : Kernel) (limit : ℕ) → IsKept k k1 limit → IsKept k1 k' limit → IsKept k k' limit
IsKept-trans k k1 k' limit a b = record { tree = b.tree; high = λ x h. b.high x h ∙ a.high x h }

module _ (limit address : ℕ) where
  first_after :
      (k k1 k' : Kernel) (rounds : ℕ)
      → IsNewPage k k1 limit address
      → IsSegment k1 k' limit address rounds
      → (frame : ℕ) × IsBehind k' address frame × IsShown k' address frame
  first_after k k1 k' zero new rest = (
    new.frame,
    λ w e.
        ap (λ (s : Kernel). get_physical_address_of_virtual_address s w) (rest.none_mapped refl)
        ∙ new.remapped.inside w e,
    subst (λ (s : Kernel). IsShown s address new.frame) (sym (rest.none_mapped refl)) new.shown,
  )
  first_after k k1 k' (suc rounds) new rest = rest.first_page (omega arith)

  IsSegment-more :
      (k k1 k' : Kernel) (rounds : ℕ)
      → IsNewPage k k1 limit address
      → IsSegment k1 k' limit address rounds
      → IsSegment k k' limit address (suc rounds)
  IsSegment-more k k1 k' rounds new rest = record {
    kept = IsKept-trans k k1 k' limit new.kept rest.kept;
    frames_left = omega (arith, new.frames_left, rest.frames_left);
    user = λ b h ne. rest.user b h ne ∙ new.user b h ne;
    none_mapped = λ e. absurd (omega arith);
    first_page = λ h. first_after k k1 k' rounds new rest;
    others = λ w mappable ne. rest.others w mappable ne ∙ new.remapped.outside w mappable ne;
  }

  module _ (fuel : ℕ) (enough : limit ≤ fuel) (mappable : IsMappable address) where
    map_segment_runs :
        (rounds : ℕ) (k k1 k' : Kernel)
        → map_new_frame fuel address k ≡ some (tt, k1)
        → map_segment fuel rounds address k1 ≡ some (tt, k')
        → map_segment fuel (suc rounds) address k ≡ some (tt, k')
    unfolding map_segment
    map_segment_runs rounds k k1 k' one more = rw (one, ◌>>=◌) more

    -- At an address outside the direct mapping, with four free frames for each round, the loop ends.
    -- If there is a round, the addresses of the first page then translate into one frame, whose bytes
    -- the process sees there. Other addresses outside the direct mapping translate as before, and
    -- other bytes of the process are as before: no further page of the segment is mapped, however
    -- many rounds there are.
    pub map_segment_lem :
        (rounds : ℕ) (k : Kernel)
        → IsTree k limit
        → 4 * rounds ≤ free_count k limit
        → (k' : Kernel) × (map_segment fuel rounds address k ≡ some (tt, k'))
          × IsSegment k k' limit address rounds
    unfolding map_segment
    map_segment_lem zero k v room = (
      k,
      refl,
      record {
        kept = record { tree = v; high = λ b h. refl };
        frames_left = omega arith;
        user = λ b h ne. refl;
        none_mapped = λ e. refl;
        first_page = λ h. absurd (omega arith);
        others = λ w h ne. refl;
      },
    )
    map_segment_lem (suc rounds) k v room =
        let (k1, one, new) =
          map_new_frame_lem fuel limit enough k v address mappable (omega arith) in
        let (k', more, rest) =
          map_segment_lem rounds k1 new.kept.tree (omega (arith, new.frames_left)) in
        (k', map_segment_runs rounds k k1 k' one more, IsSegment-more k k1 k' rounds new rest)
