-- ===== src/Paging/Entry.antt =====
-- Page table entries of kernel/memory/paging.cpp: which frame an entry points to, and what a write
-- of one entry does to the others.
use tetra_os.Base.{
  ℕ, ◌+◌, ◌*◌, ◌/◌, ◌%◌, ◌^◌, ◌<◌, bit_and, bit_or, ◌≡◌, refl, ◌↔◌, ◌∙◌, true, false, arith,
}
use tetra_os.Bits.{bit_and-mask, bit_or-field, bit_or-shr, bit_or-zero, bit_or-parity}
use tetra_os.Memory.{
  Bytes, u64, load64, Apart, load64-lt, load64-store64_self, load64-store64-Apart, load64_zero,
}
use tetra_os.Kernel.{virtual_offset}
use tetra_os.Address.{get_ppn}
use tetra_os.Paging.{
  create_valid_page_table_entry, get_entry, set_entry, get_physical_frame, is_entry_valid,
  pointed_table,
}

-- An entry for a frame below 2^52 is the frame's number above a set valid bit.
pub create_valid_page_table_entry_lem :
    (frame : ℕ)
    → frame < 2 ^ 52
    → create_valid_page_table_entry (get_ppn frame) ≡ frame / 4096 * 1024 + 1
unfolding create_valid_page_table_entry get_ppn
create_valid_page_table_entry_lem frame h =
    let e : u64 (bit_and (frame / 2 ^ 12) 0xff_ffff_ffff * 2 ^ 10) ≡ frame / 4096 * 2 ^ 10 =
      omega (arith, bit_and-mask 40 (frame / 2 ^ 12)) in
    rw e (bit_or-field 10 (frame / 4096) 1 (omega arith))

-- Flags below bit 10 change neither the frame nor validity.
pub flagged_entry :
    (frame flag : ℕ)
    → frame < 2 ^ 52
    → flag < 1024
    → let e = bit_or (create_valid_page_table_entry (get_ppn frame)) flag in
      (e / 1024 ≡ frame / 4096) × (e % 2 ≡ 1) × (e < 2 ^ 64)
flagged_entry frame flag h low =
    let plain = create_valid_page_table_entry_lem frame h in
    let base : ℕ = frame / 4096 * 1024 + 1 in
    let high : bit_or base flag / 2 ^ 10 ≡ bit_or (base / 2 ^ 10) (flag / 2 ^ 10) =
      bit_or-shr 10 base flag in
    let none_left : flag / 2 ^ 10 ≡ 0 = omega arith in
    let number : bit_or base flag / 2 ^ 10 ≡ base / 2 ^ 10 =
      rw none_left at high ∙ bit_or-zero (base / 2 ^ 10) in
    rw plain (omega (arith, number), bit_or-parity base flag (omega arith), omega (arith, number))

module _ (m : Bytes) (table index : ℕ) where
  pub is_entry_valid_iff : (is_entry_valid m table index ≡ true) ↔ (get_entry m table index % 2 ≡ 1)
  unfolding is_entry_valid
  is_entry_valid_iff = ground (arith, bit_and-mask 1 (get_entry m table index))

  get_entry-lt : get_entry m table index < 2 ^ 64
  unfolding get_entry
  get_entry-lt = load64-lt m (table + 8 * index)

  get_physical_frame_lem :
      (frame : ℕ)
      → get_entry m table index / 1024 ≡ frame / 4096
      → frame < 2 ^ 52
      → frame % 4096 ≡ 0
      → get_physical_frame m table index ≡ frame
  unfolding get_physical_frame
  get_physical_frame_lem frame e h a = omega arith

-- Reads of an entry see its value alone.
module _ (m n : Bytes) (table index : ℕ)
    (same : get_entry m table index ≡ get_entry n table index) where
  pub is_entry_valid_ext : is_entry_valid m table index ≡ is_entry_valid n table index
  unfolding is_entry_valid
  is_entry_valid_ext = rw same refl

  get_physical_frame_ext : get_physical_frame m table index ≡ get_physical_frame n table index
  unfolding get_physical_frame
  get_physical_frame_ext = rw same refl

  pub pointed_table_ext : pointed_table m table index ≡ pointed_table n table index
  unfolding pointed_table
  pointed_table_ext = rw get_physical_frame_ext refl

module _ (m : Bytes) (table index entry : ℕ) where
  pub get_entry-set_entry_self :
      entry < 2 ^ 64 → get_entry (set_entry m table index entry) table index ≡ entry
  unfolding get_entry set_entry
  get_entry-set_entry_self h = load64-store64_self m (table + 8 * index) entry h

  pub get_entry-set_entry-Apart :
      (t i : ℕ)
      → Apart (table + 8 * index) 8 (t + 8 * i) 8
      → get_entry (set_entry m table index entry) t i ≡ get_entry m t i
  unfolding get_entry set_entry
  get_entry-set_entry-Apart t i h = load64-store64-Apart m (table + 8 * index) entry (t + 8 * i) h

pub pointed_table_lem :
    (m : Bytes) (table index frame : ℕ)
    → get_entry m table index / 1024 ≡ frame / 4096
    → frame < 2 ^ 32
    → frame % 4096 ≡ 0
    → pointed_table m table index ≡ virtual_offset + frame
unfolding pointed_table
pointed_table_lem m table index frame e low aligned =
    omega (arith, get_physical_frame_lem m table index frame e (omega arith) aligned)

-- Empty memory holds no valid entry.
pub is_entry_valid_zero :
    (m : Bytes) (table index : ℕ)
    → ((i : ℕ) → i < 8 → m (table + 8 * index + i) ≡ 0)
    → is_entry_valid m table index ≡ false
unfolding is_entry_valid
is_entry_valid_zero m table index h =
    let none : load64 m (table + 8 * index) ≡ 0 = load64_zero m (table + 8 * index) h in
    rw none refl
