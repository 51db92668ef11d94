-- ===== src/Driver/Frames.antt =====
-- Taking a completed frame: pfpga_read, which copies it to userspace, and the handler of
-- PHANTOMFPGA_IOCTL_CONSUME_FRAME, which only gives the descriptor back. Both take the spin lock
-- twice; `snapshot` and `advance` are what they do up to the end of the first region and from the
-- start of the second. `crc32_le` is the kernel's function.
pub mod Take
pub mod GiveBack
pub mod Consume
use phantom_fpga_final_embed.Base.{
  ℕ, ◌+◌, ◌-◌, bit_and, bit_xor, Bool, true, false, not, ◌&&◌, ◌||◌, List, ◌==◌, ltb, if◌then◌else◌,
  is_none, add32, add64, sub32, u32_mod, tabulate,
}
use phantom_fpga_final_embed.Regs.{
  reg_desc_tail, desc_ctrl_completed, compl_size, frame_size, frame_crc_offset,
}
use phantom_fpga_final_embed.Driver.State.{
  Dev, Env, Result, ok, err, einval, eagain, efault, pfpga_read32, le32, desc_control, buffer_at,
  set_control,
}
use phantom_fpga_final_embed.Driver.Setup.{pfpga_submit_descriptors}

-- What the first locked region hands on: the consumer index and the descriptors pending.
pub record Snapshot : Type 0 where
  pub head : ℕ
  pub pending : ℕ
  pub dev : Dev

unfoldable pub snapshot : Env → Dev → Snapshot
snapshot env d =
    let head = d.consumer in
    let tail = bit_and (pfpga_read32 env reg_desc_tail) (sub32 d.desc_count 1) in
    let pending = bit_and (sub32 tail head) (sub32 d.desc_count 1) in
    record { head = head; pending = pending; dev = record d { shadow_tail = tail } }

-- `desc->control & PHANTOMFPGA_DESC_CTRL_COMPLETED`
abbrev pub is_completed : Dev → ℕ → Bool
is_completed d i = not (bit_and (desc_control d i) desc_ctrl_completed == 0)

-- Both callers return -EAGAIN if this fails.
unfoldable pub has_frame : Snapshot → Bool
has_frame s = not (s.pending == 0 && not (is_completed s.dev s.head))

-- phantomfpga_completion_ptr
abbrev pub completion_ptr : ℕ → ℕ → ℕ
completion_ptr buffer buffer_size = buffer + buffer_size - compl_size

-- phantomfpga_frame_crc_ptr
abbrev pub frame_crc_ptr : ℕ → ℕ
frame_crc_ptr frame = frame + frame_crc_offset

-- The length of the frame in buffer `head`, as the completion structure has it, or a whole frame
-- if that is 0 or too long.
unfoldable pub frame_length : Env → Dev → ℕ → ℕ
frame_length env d head =
    let compl = completion_ptr (buffer_at d head).vaddr d.buffer_size in
    let actual_length = le32 env.mem (compl + 4) in
    if actual_length == 0 || ltb frame_size actual_length then frame_size else actual_length

-- From `desc->control = 0` on.
unfoldable pub advance : ℕ → ℕ → Dev → Dev
advance head len d =
    let d = set_control d head 0 in
    let d = record d {
      consumer = bit_and (add32 head 1) (sub32 d.desc_count 1);
      frames_consumed = add64 d.frames_consumed 1;
      bytes_consumed = add64 d.bytes_consumed len;
    } in
    pfpga_submit_descriptors 1 d

-- The bytes of DMA memory from an address on.
unfoldable pub load : (ℕ → ℕ) → ℕ → ℕ → List ℕ
load mem p n = tabulate n p mem

abbrev pub no_resources : Dev → Bool
no_resources d = is_none d.desc_ring || is_none d.buffers || d.desc_count == 0

module _ (crc32_le : ℕ → List ℕ → ℕ) where
  unfoldable pub pfpga_compute_crc32 : List ℕ → ℕ
  pfpga_compute_crc32 bytes = bit_xor (crc32_le (u32_mod - 1) bytes) (u32_mod - 1)

  unfoldable pub pfpga_validate_frame_crc : (ℕ → ℕ) → ℕ → Bool
  pfpga_validate_frame_crc mem frame =
      pfpga_compute_crc32 (load mem frame frame_crc_offset) == le32 mem (frame_crc_ptr frame)

  -- pfpga_read from the copy on. The result is the count returned and the bytes copied.
  unfoldable pub copy_frame : Env → Snapshot → Result (ℕ × List ℕ) × Dev
  copy_frame env s =
      let buffer = (buffer_at s.dev s.head).vaddr in
      let to_copy = frame_length env s.dev s.head in
      if not env.user_writable
      then (err efault, s.dev)
      else let bad = if pfpga_validate_frame_crc env.mem buffer then 0 else 1 in
        let d = record (s.dev) { crc_errors = add32 s.dev.crc_errors bad } in
        (ok (to_copy, load env.mem buffer to_copy), advance s.head to_copy d)

  -- Where descriptors are pending, the second look at the COMPLETED bit only prints a debug message, and
  -- so does a completion status other than OK.
  unfoldable pub pfpga_read : Env → ℕ → Dev → Result (ℕ × List ℕ) × Dev
  unfolding copy_frame
  pfpga_read env count d =
      if not d.streaming
      then (err einval, d)
      else if no_resources d
      then (err einval, d)
      else if ltb count frame_size
      then (err einval, d)
      else let s = snapshot env d in if has_frame s then copy_frame env s else (err eagain, s.dev)

-- The handler of PHANTOMFPGA_IOCTL_CONSUME_FRAME.
unfoldable pub consume_frame : Env → Dev → Result (Unit {0}) × Dev
consume_frame env d =
    if not d.streaming
    then (err einval, d)
    else if no_resources d
    then (err einval, d)
    else let s = snapshot env d in
      if has_frame s
      then (ok tt, advance s.head (frame_length env s.dev s.head) s.dev)
      else (err eagain, s.dev)
