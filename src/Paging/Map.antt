-- ===== src/Paging/Map.antt =====
-- `map_page` of kernel/memory/paging.cpp as an update of a finite map.
mod Level
mod Leaf
pub use Level.{IsExtended, Descent, next_table_lem}
pub use Leaf.{
  with_leaf, leaf-table_at, leaf-free_count, leaf-IsTree, leaf-outside, leaf_at_self, leaf_at-other,
}
use tetra_os.Base.{
  ℕ, ◌+◌, ◌/◌, ◌%◌, ◌^◌, ◌≤◌, ◌<◌, bit_or, ◌≡◌, refl, ◌≢◌, sym, ap, ◌∙◌, false, some, List, [], ◌∷◌,
  arith, length,
}
use tetra_os.Kernel.{IsOther, Kernel, virtual_offset, ◌>>=◌}
use tetra_os.Address.{get_ppn, get_vpn_3, get_vpn_2, get_vpn_1, get_vpn_0, address_parts}
use tetra_os.Frames.Count.{free_count}
use tetra_os.Paging.{create_valid_page_table_entry, map_page}
use tetra_os.Paging.Entry.{flagged_entry}
use tetra_os.Paging.Tree.{table_at, leaf_at, is_direct, IsPath, IsTree}

-- The path of tables for a page.
abbrev pub page_path : ℕ → List ℕ
page_path page = get_vpn_1 page ∷ get_vpn_2 page ∷ get_vpn_3 page ∷ []

-- A page outside the four gigabytes at `virtual_offset`.
abbrev pub IsMappable : ℕ → Type 0
IsMappable page = is_direct (get_vpn_2 page) (get_vpn_3 page ∷ []) ≡ false

abbrev pub leaf_entry : ℕ → ℕ → ℕ
leaf_entry frame flag = bit_or (create_valid_page_table_entry (get_ppn frame)) flag

pub page_path-IsPath : (page : ℕ) → IsMappable page → IsPath (page_path page)
page_path-IsPath page h =
    let parts = address_parts page in
    (parts.3, omega arith, refl, (parts.2, omega arith, h, (parts.1, omega arith, refl, tt)))

-- The outcome of mapping `page` to `frame`: the call ends, the tree stays a tree, the page has the
-- new leaf and all other pages have the leaf they had.
pub record IsMapped (fuel limit : ℕ) (k : Kernel) (page frame flag : ℕ) : Type 0 where
  pub state : Kernel
  pub runs : map_page fuel page frame flag k ≡ some (tt, state)
  pub tree : IsTree state limit
  pub same_root : state.first_level_table ≡ k.first_level_table
  pub same_frames : state.first_frame_address ≡ k.first_frame_address
  pub same_end : state.virtual_alloc_end ≡ k.virtual_alloc_end
  pub same_list : state.free_list ≡ k.free_list
  pub mapped : leaf_at state (page_path page) (get_vpn_0 page) ≡ some (leaf_entry frame flag)
  pub others :
      (q : List ℕ)
      → IsPath q
      → length q ≡ 3
      → (x : ℕ) → x < 512
      → (q ≡ page_path page → get_vpn_0 page ≢ x)
      → leaf_at state q x ≡ leaf_at k q x
  pub frames_left : free_count k limit ≤ free_count state limit + 3
  pub outside : (b : ℕ) → IsOther b → state.mem b ≡ k.mem b

module _ (fuel limit : ℕ) (enough : limit ≤ fuel) (k : Kernel) (v : IsTree k limit)
    (page frame flag : ℕ) (mappable : IsMappable page) (room : 3 ≤ free_count k limit)
    (low : frame < 2 ^ 52) (flags : flag < 1024) where
  path : IsPath (page_path page)
  path = page_path-IsPath page mappable

  second : Descent fuel limit k [] k.first_level_table (get_vpn_3 page)
  second =
      next_table_lem fuel limit enough k v [] k.first_level_table (get_vpn_3 page) path.3.3 refl
        (omega arith)

  third : Descent fuel limit second.state (get_vpn_3 page ∷ []) second.table (get_vpn_2 page)
  third =
      next_table_lem fuel limit enough second.state second.extended.tree (get_vpn_3 page ∷ [])
        second.table (get_vpn_2 page) path.3 second.leads
        (omega (arith, second.extended.frames_left))

  fourth :
      Descent fuel limit third.state
        (get_vpn_2 page ∷ get_vpn_3 page ∷ [])
        third.table
        (get_vpn_1 page)
  fourth =
      next_table_lem fuel limit enough third.state third.extended.tree
        (get_vpn_2 page ∷ get_vpn_3 page ∷ []) third.table (get_vpn_1 page) path third.leads
        (omega (arith, second.extended.frames_left, third.extended.frames_left))

  -- With three free frames `map_page` ends, maps the page to the frame with the flags, and changes
  -- no other mapping.
  pub map_page_lem : IsMapped fuel limit k page frame flag
  unfolding map_page
  map_page_lem = record {
    state = with_leaf fourth.state fourth.table (get_vpn_0 page) (leaf_entry frame flag);
    runs = rw (second.runs, ◌>>=◌) (rw (third.runs, ◌>>=◌) (rw (fourth.runs, ◌>>=◌) refl));
    tree =
        leaf-IsTree fourth.state limit fourth.extended.tree (page_path page) fourth.table
          (get_vpn_0 page) (leaf_entry frame flag) path refl inside fourth.leads;
    same_root = fourth.extended.same_root ∙ third.extended.same_root ∙ second.extended.same_root;
    same_frames =
        fourth.extended.same_frames ∙ third.extended.same_frames ∙ second.extended.same_frames;
    same_end = fourth.extended.same_end ∙ third.extended.same_end ∙ second.extended.same_end;
    same_list = fourth.extended.same_list ∙ third.extended.same_list ∙ second.extended.same_list;
    mapped =
        leaf_at_self fourth.state limit fourth.extended.tree (page_path page) fourth.table
          (get_vpn_0 page) (leaf_entry frame flag) path refl inside fourth.leads entry.2 entry.1;
    others = λ q good full x h ne.
        leaf_at-other fourth.state limit fourth.extended.tree (page_path page) fourth.table
          (get_vpn_0 page) (leaf_entry frame flag) path refl inside fourth.leads q good x h ne
        ∙ fourth.extended.leaves q good full x h
        ∙ third.extended.leaves q good full x h
        ∙ second.extended.leaves q good full x h;
    frames_left = omega (
      arith,
      second.extended.frames_left,
      third.extended.frames_left,
      fourth.extended.frames_left,
      leaf-free_count fourth.state limit fourth.extended.tree (page_path page) fourth.table
          (get_vpn_0 page) (leaf_entry frame flag) path refl inside fourth.leads,
    );
    outside = λ b h.
        leaf-outside fourth.state limit fourth.extended.tree (page_path page) fourth.table
          (get_vpn_0 page) (leaf_entry frame flag) path refl inside fourth.leads b h
        ∙ fourth.extended.outside b h
        ∙ third.extended.outside b h
        ∙ second.extended.outside b h;
  }
    where
      inside : get_vpn_0 page < 512
      inside = omega (arith, address_parts page)

      entry :
          (leaf_entry frame flag / 1024 ≡ frame / 4096)
          × (leaf_entry frame flag % 2 ≡ 1)
          × (leaf_entry frame flag < 2 ^ 64)
      entry = flagged_entry frame flag low flags
