-- ===== src/Paging/Setup/Rounds.antt =====
-- The loop of `paging_init`: what its four rounds write into the first two tables.
use tetra_os.Base.{
  ℕ, zero, suc, ◌+◌, ◌-◌, ◌*◌, ◌/◌, ◌^◌, ◌≤◌, ◌<◌, ◌≡◌, refl, ◌≢◌, sym, ap, ◌∙◌, arith,
}
use tetra_os.Bits.{bit_and-mask}
use tetra_os.Memory.{Bytes, u64, load8}
use tetra_os.Kernel.{Kernel, virtual_offset}
use tetra_os.Address.{get_ppn, get_vpn_3, get_vpn_2}
use tetra_os.Paging.{
  create_valid_page_table_entry, get_entry, set_entry, table_ppn, map_page_for_setup, setup_from,
}
use tetra_os.Paging.Entry.{create_valid_page_table_entry_lem, get_entry-set_entry_self}
use tetra_os.Paging.Tree.{table_of, IsLaid}
use tetra_os.Paging.Link.{new_entry}
use tetra_os.Paging.Change.{set_entry-elsewhere, set_entry-flag}

-- The entry for the second table, and the leaf for gigabyte `r`: its number is r * 2^18, and all
-- of read, write, execute and valid are set.
abbrev pub second_entry : ℕ → ℕ
second_entry second_table = create_valid_page_table_entry (table_ppn second_table)

abbrev pub giga_leaf : ℕ → ℕ
giga_leaf r = r * 2 ^ 28 + 15

abbrev round : ℕ → ℕ → ℕ → Bytes → Bytes
round first second r m =
    set_entry (set_entry m first 256 (second_entry second)) second r (giga_leaf r)

-- The loop makes exactly these four rounds.
pub setup_from-rounds :
    (first second : ℕ) (m : Bytes)
    → setup_from 5 first second virtual_offset m
      ≡ round first second 3 (round first second 2 (round first second 1 (round first second 0 m)))
unfolding setup_from map_page_for_setup get_vpn_3 get_vpn_2 get_ppn create_valid_page_table_entry
setup_from-rounds first second m = refl

-- The entry for the second table is that of a new table.
second_entry-new :
    (k : Kernel) (limit j : ℕ)
    → IsLaid k limit
    → j < limit
    → second_entry (table_of k j) ≡ new_entry k j
unfolding table_ppn get_ppn
second_entry-new k limit j laid h =
    let frame = k.first_frame_address + 4096 * j in
    let e : table_ppn (table_of k j) ≡ get_ppn frame =
      omega (
        arith,
        laid.low,
        bit_and-mask 44 (u64 (table_of k j + 2 ^ 64 - virtual_offset) / 2 ^ 12),
      ) in
    ap create_valid_page_table_entry e

module _ (k : Kernel) (limit : ℕ) (laid : IsLaid k limit) (a b : ℕ) (first_below : a < limit)
    (below : b < limit) (ne : a ≢ b) where
  apart : table_of k a ≢ table_of k b
  apart e = ne (omega (arith, e))

  new_entry-lt : new_entry k b < 2 ^ 64
  new_entry-lt = omega (
    arith,
    create_valid_page_table_entry_lem (k.first_frame_address + 4096 * b) (omega (arith, laid.low)),
    laid.low,
  )

  abbrev turn : ℕ → Bytes → Bytes
  turn = round (table_of k a) (table_of k b)

  turn-elsewhere :
      (r : ℕ) (m : Bytes) (l x : ℕ)
      → r < 512
      → x < 512
      → (table_of k a ≡ table_of k l → 256 ≢ x)
      → (table_of k b ≡ table_of k l → r ≢ x)
      → get_entry (turn r m) (table_of k l) x ≡ get_entry m (table_of k l) x
  turn-elsewhere r m l x hr hx one two =
      set_entry-elsewhere k b r hr (set_entry m (table_of k a) 256 (second_entry (table_of k b)))
        (giga_leaf r) l x hx two
      ∙ set_entry-elsewhere k a 256 (omega arith) m (second_entry (table_of k b)) l x hx one

  turn-first :
      (r : ℕ) (m : Bytes) → r < 512 → get_entry (turn r m) (table_of k a) 256 ≡ new_entry k b
  turn-first r m hr =
      let e = second_entry-new k limit b laid below in
      set_entry-elsewhere k b r hr (set_entry m (table_of k a) 256 (second_entry (table_of k b)))
        (giga_leaf r) a 256 (omega arith) (λ z. absurd (apart (sym z)))
      ∙ get_entry-set_entry_self m (table_of k a) 256 (second_entry (table_of k b))
          (rw e new_entry-lt)
      ∙ e

  turn-second : (r : ℕ) (m : Bytes) → r < 512 → get_entry (turn r m) (table_of k b) r ≡ giga_leaf r
  turn-second r m hr =
      get_entry-set_entry_self (set_entry m (table_of k a) 256 (second_entry (table_of k b)))
        (table_of k b) r (giga_leaf r) (omega arith)

  abbrev pub four : Bytes → Bytes
  four m = turn 3 (turn 2 (turn 1 (turn 0 m)))

  -- After the loop the first table points to the second, which has a leaf for each gigabyte; all
  -- other entries are as before.
  pub four-first : (m : Bytes) → get_entry (four m) (table_of k a) 256 ≡ new_entry k b
  four-first m = turn-first 3 (turn 2 (turn 1 (turn 0 m))) (omega arith)

  later :
      (r s : ℕ) (m : Bytes)
      → r < 4
      → s < 4
      → r ≢ s
      → get_entry (turn s m) (table_of k b) r ≡ get_entry m (table_of k b) r
  later r s m hr hs other =
      turn-elsewhere s m b r (omega arith) (omega arith) (λ e. absurd (apart e))
        (λ e z. other (sym z))

  pub four-second : (m : Bytes) (r : ℕ) → r < 4 → get_entry (four m) (table_of k b) r ≡ giga_leaf r
  four-second m zero h =
      later 0 3 (turn 2 (turn 1 (turn 0 m))) h (omega arith) (omega arith)
      ∙ later 0 2 (turn 1 (turn 0 m)) h (omega arith) (omega arith)
      ∙ later 0 1 (turn 0 m) h (omega arith) (omega arith)
      ∙ turn-second 0 m (omega arith)
  four-second m (suc zero) h =
      later 1 3 (turn 2 (turn 1 (turn 0 m))) h (omega arith) (omega arith)
      ∙ later 1 2 (turn 1 (turn 0 m)) h (omega arith) (omega arith)
      ∙ turn-second 1 (turn 0 m) (omega arith)
  four-second m (suc (suc zero)) h =
      later 2 3 (turn 2 (turn 1 (turn 0 m))) h (omega arith) (omega arith)
      ∙ turn-second 2 (turn 1 (turn 0 m)) (omega arith)
  four-second m (suc (suc (suc zero))) h = turn-second 3 (turn 2 (turn 1 (turn 0 m))) (omega arith)
  four-second m (suc (suc (suc (suc r)))) h = absurd (omega arith)

  pub four-elsewhere :
      (m : Bytes) (l x : ℕ)
      → x < 512
      → (table_of k a ≡ table_of k l → 256 ≢ x)
      → (table_of k b ≡ table_of k l → 4 ≤ x)
      → get_entry (four m) (table_of k l) x ≡ get_entry m (table_of k l) x
  four-elsewhere m l x hx one two =
      turn-elsewhere 3 (turn 2 (turn 1 (turn 0 m))) l x (omega arith) hx one (far 3 (omega arith))
      ∙ turn-elsewhere 2 (turn 1 (turn 0 m)) l x (omega arith) hx one (far 2 (omega arith))
      ∙ turn-elsewhere 1 (turn 0 m) l x (omega arith) hx one (far 1 (omega arith))
      ∙ turn-elsewhere 0 m l x (omega arith) hx one (far 0 (omega arith))
    where
      far : (r : ℕ) → r < 4 → table_of k b ≡ table_of k l → r ≢ x
      far r h e z = absurd (omega (arith, two e))

  turn-flag :
      (r : ℕ) (m : Bytes) (l : ℕ)
      → r < 512
      → l < limit
      → load8 (turn r m) (k.managed_frames_address_start + l)
        ≡ load8 m (k.managed_frames_address_start + l)
  turn-flag r m l hr h =
      set_entry-flag k b r hr (set_entry m (table_of k a) 256 (second_entry (table_of k b)))
        (giga_leaf r) limit laid l h
      ∙ set_entry-flag k a 256 (omega arith) m (second_entry (table_of k b)) limit laid l h

  pub four-flag :
      (m : Bytes) (l : ℕ)
      → l < limit
      → load8 (four m) (k.managed_frames_address_start + l)
        ≡ load8 m (k.managed_frames_address_start + l)
  four-flag m l h =
      turn-flag 3 (turn 2 (turn 1 (turn 0 m))) l (omega arith) h
      ∙ turn-flag 2 (turn 1 (turn 0 m)) l (omega arith) h
      ∙ turn-flag 1 (turn 0 m) l (omega arith) h
      ∙ turn-flag 0 m l (omega arith) h
