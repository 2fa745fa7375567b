-- ===== src/Start/Outcomes.antt =====
-- How the start of the kernel goes on, `os_start` of kernel/os.cpp.
use tetra_os.Base.{
  ℕ, ◌+◌, ◌*◌, ◌^◌, ◌≤◌, ◌<◌, ◌≡◌, refl, ◌∙◌, false, none, some, List, ◌++◌, append_assoc, arith,
  [],
}
use tetra_os.Kernel.{Kernel}
use tetra_os.Frames.{Linker, num_frames, allign_address, physical_allocator_init}
use tetra_os.Frames.Init.{IsLinked, physical_allocator_init-IsReady}
use tetra_os.Boot.{memory_start-IsHeap}
use tetra_os.Heap.Invariant.{IsHeap}
use tetra_os.Heap.Init.{IsBase}
use tetra_os.Block.{
  Registers, is_block_device, virtio_start, virtio_size, virtio_amount, get_block_device-none,
}
use tetra_os.Print.Text.{has_no_percent-HasNoPercent}
use tetra_os.Log.{system, error, log_lem}
use tetra_os.Syscall.{Machine, put_chars}
use tetra_os.Start.{
  Sections, log_levels, put_message, put_layout, start_memory, search_device, os_start_to_device,
  booted_text, no_device_text,
}
use tetra_os.Start.Lines.{log_line, IsPlaced, IsLayout, put_layout_lem}

booted_put :
    (s : Machine)
    → s.log_level ≡ log_levels
    → put_message system booted_text [] s ≡ some (put_chars (log_line system booted_text) s)
booted_put s level =
    rw (level)
      (rw (log_lem 4016 system booted_text [] (has_no_percent-HasNoPercent booted_text refl)) refl)

no_device_put :
    (s : Machine)
    → s.log_level ≡ log_levels
    → put_message error no_device_text [] s ≡ some (put_chars (log_line error no_device_text) s)
no_device_put s level = rw (level) (
    rw (log_lem 4016 error no_device_text [] (has_no_percent-HasNoPercent no_device_text refl))
      refl)

module _ (l : Linker) (k : Kernel) (linked : IsLinked l) where
  few_frames : num_frames l < 2 ^ 31
  few_frames =
      omega (arith, (physical_allocator_init-IsReady l k linked).frames_in_memory, linked.low)

  place_low : allign_address l.bss_end 4096 < 2 ^ 64
  unfolding physical_allocator_init
  place_low =
      let r = physical_allocator_init-IsReady l k linked in
      omega (arith, r.frames_behind_flags, r.frames_in_memory, linked.low)

module _ (c : Sections) (l : Linker) (base fuel : ℕ) (registers : Registers) (s : Machine) where
  start_runs :
      (s1 s2 s3 : Machine)
      → put_message system booted_text [] (record s { log_level = log_levels }) ≡ some s1
      → put_layout c l s1 ≡ some s2
      → start_memory l base fuel s2 ≡ some s3
      → os_start_to_device c l base registers fuel s ≡ search_device registers s3
  unfolding os_start_to_device
  start_runs s1 s2 s3 e1 e2 e3 = rw e1 (rw e2 (rw e3 refl))

  no_device_runs :
      (t : Machine)
      → ((k : ℕ)
          → k < virtio_amount
          → is_block_device registers (virtio_start + virtio_size * k) ≡ false)
      → t.log_level ≡ log_levels
      → search_device registers t ≡ some (none, put_chars (log_line error no_device_text) t)
  no_device_runs t absent level =
      rw (get_block_device-none registers absent, search_device) (rw (no_device_put t level) refl)

  -- From memory that is empty behind the kernel's image, with six frames among those whose flags
  -- have room: if no place of a device holds a block device, the start ends with -1. The memory
  -- managers have started, with a heap of one free page. What was put is that the system booted, the
  -- seven lines on where the parts of memory lie, and that there is no device.
  pub os_start_to_device-none :
      (limit : ℕ)
      → IsLinked l
      → IsPlaced c
      → ((b : ℕ) → l.bss_end ≤ b → s.kernel.mem b ≡ 0)
      → limit ≤ 32768
      → limit ≤ num_frames l
      → limit ≤ fuel
      → 6 ≤ limit
      → IsBase base
      → ((k : ℕ)
          → k < virtio_amount
          → is_block_device registers (virtio_start + virtio_size * k) ≡ false)
      → (s' : Machine) × (os_start_to_device c l base registers fuel s ≡ some (none, s'))
        × IsHeap s'.kernel limit base
        × (s'.kernel.free_list ≡ base)
        × (lines : List ℕ) × IsLayout c l lines
        × (s'.output
            ≡ s.output ++ (log_line system booted_text ++ (lines ++ log_line error no_device_text)))
  os_start_to_device-none limit linked placed empty flags frames enough six b absent =
      let s1 = put_chars (log_line system booted_text) (record s { log_level = log_levels }) in
      let (lines, is, puts) =
        put_layout_lem c l s1 placed (omega (arith, linked.image, linked.low))
          (omega (arith, linked.low)) (few_frames l s.kernel linked) (place_low l s.kernel linked)
          refl in
      let s2 = put_chars lines s1 in
      let (k', starts, heap, list, left) =
        memory_start-IsHeap l s.kernel linked empty limit flags frames fuel base enough six b in
      let s3 : Machine = record s2 { kernel = k' } in
      (
        put_chars (log_line error no_device_text) s3,
        start_runs s1 s2 s3 (booted_put (record s { log_level = log_levels }) refl) puts
              (rw (starts, start_memory) refl)
            ∙ no_device_runs s3 absent refl,
        heap,
        list,
        lines,
        is,
        append_assoc (s.output ++ log_line system booted_text) lines (log_line error no_device_text)
            ∙ append_assoc s.output (log_line system booted_text)
                (lines ++ log_line error no_device_text),
      )
