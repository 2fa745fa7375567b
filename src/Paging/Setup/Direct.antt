-- ===== src/Paging/Setup/Direct.antt =====
-- The direct mapping of physical memory that `paging_init` sets up, as the processor sees it.
use tetra_os.Base.{ℕ, ◌+◌, ◌*◌, ◌/◌, ◌%◌, ◌^◌, ◌<◌, ◌≡◌, ◌≢◌, ◌∙◌, Option, some, arith, true}
use tetra_os.Kernel.{Kernel, virtual_offset}
use tetra_os.Address.{get_ppn}
use tetra_os.Frames.Alloc.{flag}
use tetra_os.Paging.Entry.{create_valid_page_table_entry_lem}
use tetra_os.Paging.Tree.{table_of}
use tetra_os.Paging.Link.{new_entry}
use tetra_os.Paging.Walk.{entry_ppn, entry_for, resolve, is_canonical, walk, sv48}
use tetra_os.Paging.Setup.Rounds.{giga_leaf}
use tetra_os.Paging.Setup.Ready.{IsClean, ready, ready-first, ready-second}

module _ (k : Kernel) (limit : ℕ) (v : IsClean k limit) (a b : ℕ) (first_below : a < limit)
    (below : b < limit) (ne : a ≢ b) (first_free : flag k a ≡ 0) (free : flag k b ≡ 0) (p : ℕ)
    (low : p < 2 ^ 32) where
  abbrev after : Kernel
  after = ready k limit v a b first_below below ne first_free free

  root_is : virtual_offset + after.active_table * 4096 ≡ table_of k a
  unfolding get_ppn
  root_is = omega (arith, v.laid.aligned)

  first_entry :
      entry_for after.mem (4096 * 512 ^ 3) after.active_table (virtual_offset + p) ≡ new_entry k b
  first_entry =
      let e : (virtual_offset + p) / (4096 * 512 ^ 3) % 512 ≡ 256 = omega arith in
      rw (root_is, e) (ready-first k limit v a b first_below below ne first_free free)

  value : new_entry k b ≡ (k.first_frame_address + 4096 * b) / 4096 * 1024 + 1
  value =
      create_valid_page_table_entry_lem (k.first_frame_address + 4096 * b)
        (omega (arith, v.laid.low))

  second_is : virtual_offset + entry_ppn (new_entry k b) * 4096 ≡ table_of k b
  second_is = omega (arith, value, v.laid.low, v.laid.aligned)

  second_entry :
      entry_for after.mem (4096 * 512 ^ 2) (entry_ppn (new_entry k b)) (virtual_offset + p)
      ≡ giga_leaf (p / 2 ^ 30)
  second_entry =
      let e : (virtual_offset + p) / (4096 * 512 ^ 2) % 512 ≡ p / 2 ^ 30 = omega arith in
      rw (second_is, e)
        (ready-second k limit v a b first_below below ne first_free free (p / 2 ^ 30) (omega arith))

  -- The first entry points on.
  pointer :
      (deeper : Option ℕ)
      → resolve (4096 * 512 ^ 3) (new_entry k b) (virtual_offset + p) deeper ≡ deeper
  pointer deeper = ground (arith, value)

  -- The second is the leaf of the gigabyte.
  gigabyte :
      (deeper : Option ℕ)
      → resolve (4096 * 512 ^ 2) (giga_leaf (p / 2 ^ 30)) (virtual_offset + p) deeper ≡ some p
  gigabyte deeper = ground arith

  second_walk : walk 2 after.mem (entry_ppn (new_entry k b)) (virtual_offset + p) ≡ some p
  unfolding walk
  second_walk = rw second_entry (gigabyte _)

  first_walk : walk 3 after.mem after.active_table (virtual_offset + p) ≡ some p
  unfolding walk
  first_walk = rw first_entry (pointer _ ∙ second_walk)

  canonical : is_canonical (virtual_offset + p) ≡ true
  canonical = ground arith

  -- The processor finds the physical address.
  pub ready-direct : sv48 after (virtual_offset + p) ≡ some p
  unfolding sv48
  ready-direct = rw canonical first_walk
