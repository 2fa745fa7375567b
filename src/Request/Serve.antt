-- ===== src/Request/Serve.antt =====
-- The waiting of `VirtIOBlockDevice::basic_op` of kernel/drivers/virtio/blk.cpp, and its outcome.
use tetra_os.Base.{
  ℕ, ◌+◌, ◌/◌, ◌%◌, ◌^◌, ◌<◌, ◌≡◌, refl, ◌≢◌, ◌∙◌, ◌⊎◌, inl, inr, false, ◌||◌, some, ◌==◌, arith,
  Bool-cases,
}
use tetra_os.Memory.{Bytes, Apart, store8, store8-outside, store64-outside, u32, store64}
use tetra_os.Kernel.{Kernel}
use tetra_os.Request.{
  VirtQueue, sector_offset, status_offset, size_of_request, store32, write_request, publish,
  basic_op,
}

store32-outside : (m : Bytes) (a x b : ℕ) → Apart a 4 b 1 → store32 m a x b ≡ m b
store32-outside m a x b h =
    let m1 = store8 m a x in
    let m2 = store8 m1 (a + 1) (x / 2 ^ 8) in
    let m3 = store8 m2 (a + 2) (x / 2 ^ 16) in
    store8-outside m3 (a + 3) (x / 2 ^ 24) b (omega arith)
    ∙ store8-outside m2 (a + 2) (x / 2 ^ 16) b (omega arith)
    ∙ store8-outside m1 (a + 1) (x / 2 ^ 8) b (omega arith)
    ∙ store8-outside m a x b (omega arith)

module _ (serve : VirtQueue → Bytes → Bytes) (delay fuel sector length buffer type : ℕ)
    (q : VirtQueue) (k : Kernel) where
  -- A length that is no multiple of 512, or another type, is refused before anything is changed.
  basic_op_refused :
      (length % 512 ≢ 0) ⊎ (1 < type)
      → basic_op serve delay fuel sector length buffer type q k ≡ some (false, q, k)
  unfolding basic_op
  basic_op_refused (inl odd) = let e : (length % 512 == 0) ≡ false = ground arith in rw e refl
  basic_op_refused (inr other) =
      let e : ((type == 0) || (type == 1)) ≡ false = ground arith in
      elim (Bool-cases (length % 512 == 0)) [
        | inl whole ↦ rw (whole, e) refl
        | inr odd ↦ rw odd refl
      ]

  -- The state in which the device is notified, and the queue then.
  abbrev pub written : ℕ → Kernel → Kernel
  written request k' = record k' { mem = write_request k'.mem request type sector }

  abbrev pub published : ℕ → Kernel → VirtQueue
  published request k' = publish (written request k') q request buffer length type

pub write_request-outside :
    (m : Bytes) (request type sector b : ℕ)
    → Apart request size_of_request b 1
    → write_request m request type sector b ≡ m b
unfolding write_request
write_request-outside m request type sector b h =
    store8-outside (store64 (store32 m request type) (request + sector_offset) (u32 sector))
      (request + status_offset) 0x12 b (omega arith)
    ∙ store64-outside (store32 m request type) (request + sector_offset) (u32 sector) b
        (omega arith)
    ∙ store32-outside m request type b (omega arith)
