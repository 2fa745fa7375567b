-- ===== src/Paging/Translate.antt =====
-- `get_physical_address_of_virtual_address` of kernel/memory/paging.cpp, and what `map_page` does to
-- it: the two functions implement a partial map from pages to frames.
use tetra_os.Base.{
  ℕ, ◌+◌, ◌*◌, ◌/◌, ◌%◌, ◌^◌, ◌≤◌, ◌<◌, bit_or, ◌≡◌, refl, ◌≢◌, sym, ap, ◌∙◌, Option, none, some,
  List, [], ◌∷◌, arith,
}
use tetra_os.Bits.{bit_or-field}
use tetra_os.Memory.{u64}
use tetra_os.Kernel.{Kernel}
use tetra_os.Address.{
  get_vpn_3, get_vpn_2, get_vpn_1, get_vpn_0, get_offset, vpn_3-eq, vpn_2-eq, vpn_1-eq, vpn_0-eq,
  offset-eq, address_parts,
}
use tetra_os.Frames.Count.{free_count}
use tetra_os.Paging.{map_page, get_physical_address_of_virtual_address}
use tetra_os.Paging.Entry.{flagged_entry}
use tetra_os.Paging.Tree.{leaf_at, IsTree}
use tetra_os.Paging.Map.{
  page_path, IsMappable, leaf_entry, page_path-IsPath, IsMapped, map_page_lem,
}

-- What a leaf says of an offset; 0 is the null pointer.
abbrev pub address_in : Option ℕ → ℕ → ℕ
address_in none offset = 0
address_in (some entry) offset = bit_or (u64 (entry / 2 ^ 10 * 2 ^ 12)) offset

-- The walk through the four tables reads the leaf at the page's path.
pub translate-leaf :
    (k : Kernel) (v : ℕ)
    → get_physical_address_of_virtual_address k v
      ≡ address_in (leaf_at k (page_path v) (get_vpn_0 v)) (get_offset v)
unfolding get_physical_address_of_virtual_address
translate-leaf k v = ground arith

-- The page of an address: the bits of its four indices.
abbrev pub page_of : ℕ → ℕ
page_of v = v / 4096 % 2 ^ 36

pub vpn_of_page :
    (v w : ℕ)
    → page_of v ≡ page_of w
    → (get_vpn_3 v ≡ get_vpn_3 w)
      × (get_vpn_2 v ≡ get_vpn_2 w)
      × (get_vpn_1 v ≡ get_vpn_1 w)
      × (get_vpn_0 v ≡ get_vpn_0 w)
vpn_of_page v w e = (
  omega (arith, vpn_3-eq v, vpn_3-eq w),
  omega (arith, vpn_2-eq v, vpn_2-eq w),
  omega (arith, vpn_1-eq v, vpn_1-eq w),
  omega (arith, vpn_0-eq v, vpn_0-eq w),
)

page_of_vpn :
    (v w : ℕ)
    → get_vpn_3 v ≡ get_vpn_3 w
    → get_vpn_2 v ≡ get_vpn_2 w
    → get_vpn_1 v ≡ get_vpn_1 w
    → get_vpn_0 v ≡ get_vpn_0 w
    → page_of v ≡ page_of w
page_of_vpn v w a b c d = omega (
  arith,
  vpn_3-eq v,
  vpn_3-eq w,
  vpn_2-eq v,
  vpn_2-eq w,
  vpn_1-eq v,
  vpn_1-eq w,
  vpn_0-eq v,
  vpn_0-eq w,
)

-- Two addresses of one page have the same path and index.
pub path_of_page :
    (v w : ℕ) → page_of v ≡ page_of w → (page_path v ≡ page_path w) × (get_vpn_0 v ≡ get_vpn_0 w)
path_of_page v w e = let (a, b, c, d) = vpn_of_page v w e in (rw (a, b, c) refl, d)

heads : {a b c x y z : ℕ} → a ∷ b ∷ c ∷ [] ≡ x ∷ y ∷ z ∷ [] → (a ≡ x) × (b ≡ y) × (c ≡ z)
heads e = (cc, cc, cc)

pub page_of_path :
    (v w : ℕ) → page_path v ≡ page_path w → get_vpn_0 v ≡ get_vpn_0 w → page_of v ≡ page_of w
page_of_path v w e d = let (c, b, a) = heads e in page_of_vpn v w a b c d

-- An aligned frame and an offset add up.
leaf_address :
    (frame flag v : ℕ)
    → frame < 2 ^ 52
    → frame % 4096 ≡ 0
    → flag < 1024
    → address_in (some (leaf_entry frame flag)) (get_offset v) ≡ frame + v % 4096
leaf_address frame flag v low aligned flags =
    let parts = flagged_entry frame flag low flags in
    let e : u64 (leaf_entry frame flag / 2 ^ 10 * 2 ^ 12) ≡ frame / 4096 * 2 ^ 12 =
      omega (arith, parts.0) in
    rw (e, offset-eq v) (bit_or-field 12 (frame / 4096) (v % 4096) (omega arith) ∙ omega arith)

-- The translation after mapping `page` to `frame`.
pub record IsRemapped (k k' : Kernel) (page frame : ℕ) : Type 0 where
  pub inside :
      (v : ℕ)
      → page_of v ≡ page_of page
      → get_physical_address_of_virtual_address k' v ≡ frame + v % 4096
  pub outside :
      (v : ℕ)
      → IsMappable v
      → page_of v ≢ page_of page
      → get_physical_address_of_virtual_address k' v ≡ get_physical_address_of_virtual_address k v

pub mapped-IsRemapped :
    (fuel limit : ℕ) (k : Kernel) (page frame flag : ℕ)
    → frame < 2 ^ 52
    → frame % 4096 ≡ 0
    → flag < 1024
    → (r : IsMapped fuel limit k page frame flag) → IsRemapped k r.state page frame
mapped-IsRemapped fuel limit k page frame flag low aligned flags r = record {
  inside = λ v e.
      let (path, index) = path_of_page v page e in
      translate-leaf r.state v
      ∙ ap (λ (o : Option ℕ). address_in o (get_offset v))
          (ap (λ (q : List ℕ). leaf_at r.state q (get_vpn_0 v)) path
            ∙ ap (leaf_at r.state (page_path page)) index
            ∙ r.mapped)
      ∙ leaf_address frame flag v low aligned flags;
  outside = λ v mappable ne.
      translate-leaf r.state v
      ∙ ap (λ (o : Option ℕ). address_in o (get_offset v))
          (r.others (page_path v) (page_path-IsPath v mappable) refl (get_vpn_0 v)
            (omega (arith, address_parts v)) (λ e d. ne (page_of_path v page e (sym d))))
      ∙ sym (translate-leaf k v);
}

-- With three free frames, `map_page` ends; then the page's addresses translate into the frame, all
-- other addresses outside the direct mapping as before, and the tables are a tree again.
pub map_page-translate :
    (fuel limit : ℕ) (k : Kernel) (page frame flag : ℕ)
    → limit ≤ fuel
    → IsTree k limit
    → IsMappable page
    → 3 ≤ free_count k limit
    → frame < 2 ^ 52
    → frame % 4096 ≡ 0
    → flag < 1024
    → (k' : Kernel) × (map_page fuel page frame flag k ≡ some (tt, k'))
      × IsTree k' limit
      × IsRemapped k k' page frame
map_page-translate fuel limit k page frame flag enough v mappable room low aligned flags =
    let r = map_page_lem fuel limit enough k v page frame flag mappable room low flags in
    (r.state, r.runs, r.tree, mapped-IsRemapped fuel limit k page frame flag low aligned flags r)
