-- ===== src/Driver/Frames/Take.antt =====
-- What a caller gets from read, CONSUME_FRAME and poll.
use native.Mathlib.Nat.{mod-lt}
use phantom_fpga_final_embed.Base.{
  ℕ, ◌+◌, ◌-◌, ◌%◌, ◌≤◌, ◌≡◌, ◌⊎◌, inl, inr, true, false, none, some, List, length, bit_or, ◌==◌,
  bit_and, sub32, if◌then◌else◌, add32, length-tabulate, Bool-cases, arith,
}
use phantom_fpga_final_embed.Regs.{frame_size, reg_desc_tail}
use phantom_fpga_final_embed.Regs.Ring.{mask_lem, sub_mask, mod_once}
use phantom_fpga_final_embed.Driver.State.{Dev, Env, ok, einval, eagain, failure, buffer_at}
use phantom_fpga_final_embed.Driver.Frames.{
  snapshot, has_frame, frame_length, load, advance, pfpga_read, consume_frame, no_resources,
  pfpga_validate_frame_crc,
}
use phantom_fpga_final_embed.Driver.Setup.{pfpga_submit_descriptors}
use phantom_fpga_final_embed.Driver.Poll.{pfpga_poll, epollin, epollrdnorm, epollhup}
use phantom_fpga_final_embed.Driver.Inv.{Inv, IsAllocated, configured-IsAllocated}

pub frame_length_bounds :
    (env : Env) (d : Dev) (i : ℕ) → (1 ≤ frame_length env d i) × (frame_length env d i ≤ frame_size)
unfolding frame_length
frame_length_bounds env d i = ground arith

length-load : (mem : ℕ → ℕ) (p n : ℕ) → length (load mem p n) ≡ n
unfolding load
length-load mem p n = length-tabulate n p mem

-- The CRC error count plays no part in giving a descriptor back.
advance-crc_errors :
    (head len x : ℕ) (d : Dev)
    → (advance head len (record d { crc_errors = x })
        ≡ record (advance head len d) { crc_errors = x })
      × ((advance head len d).crc_errors ≡ d.crc_errors)
unfolding advance pfpga_submit_descriptors
advance-crc_errors head len x d = ground arith

module _ (crc32_le : ℕ → List ℕ → ℕ) where
  -- A read that succeeds returns between one byte and a frame, never more than the caller has room
  -- for, and the bytes are as many, from the buffer of the consumer's descriptor.
  pub read_bounds :
      (env : Env) (count : ℕ) (d : Dev) {n : ℕ} {bytes : List ℕ}
      → (pfpga_read crc32_le env count d).0 ≡ ok (n, bytes)
      → (1 ≤ n)
        × (n ≤ frame_size)
        × (n ≤ count)
        × (length bytes ≡ n)
        × (bytes ≡ load env.mem (buffer_at d d.consumer).vaddr n)
  unfolding pfpga_read snapshot
  read_bounds env count d {n} {bytes} e = ground (
    arith,
    frame_length_bounds env (snapshot env d).dev d.consumer,
    length-load env.mem (buffer_at d d.consumer).vaddr n,
  )

  -- CONSUME_FRAME is a read without the copy: where a read has room for a frame and a buffer that
  -- can be written, both fail with the same error or both succeed, and they leave the same state but
  -- for the CRC error count, which CONSUME_FRAME keeps.
  pub consume_as_read :
      (env : Env) (count : ℕ) (d : Dev)
      → frame_size ≤ count
      → env.user_writable ≡ true
      → (failure (consume_frame env d).0 ≡ failure (pfpga_read crc32_le env count d).0)
        × ((consume_frame env d).1
            ≡ record ((pfpga_read crc32_le env count d).1) { crc_errors = d.crc_errors })
  unfolding pfpga_read consume_frame snapshot
  consume_as_read env count d h w = ground (
    arith,
    advance-crc_errors d.consumer (frame_length env (snapshot env d).dev d.consumer)
        (add32 d.crc_errors (
          if pfpga_validate_frame_crc crc32_le env.mem (buffer_at d d.consumer).vaddr
          then 0
          else 1))
        (snapshot env d).dev,
  )

-- The two ring tests agree: nothing is pending where the tail is at the consumer.
pub pending_zero :
    (env : Env) (d : Dev)
    → IsAllocated d
    → let tail = bit_and (env.regs reg_desc_tail) (sub32 d.desc_count 1) in
      ((snapshot env d).pending == 0) ≡ (d.consumer == tail)
unfolding snapshot
pending_zero env d a = ground (
  arith,
  mask_lem a.size (env.regs reg_desc_tail),
  mod-lt (env.regs reg_desc_tail) {m = d.desc_count} (omega (arith, a.count_ge)),
  sub_mask a.size (bit_and (env.regs reg_desc_tail) (sub32 d.desc_count 1)) d.consumer
      a.consumer_in,
  mod_once (env.regs reg_desc_tail % d.desc_count + (d.desc_count - d.consumer)) d.desc_count (
      omega (
        arith,
        a.consumer_in,
        mod-lt (env.regs reg_desc_tail) {m = d.desc_count} (omega (arith, a.count_ge)),
      )),
)

streaming-IsAllocated : {d : Dev} → Inv d → d.streaming ≡ true → IsAllocated d
streaming-IsAllocated v on = configured-IsAllocated v (v.running on)

-- While the device streams no resource is missing.
pub resources_there : (d : Dev) → IsAllocated d → no_resources d ≡ false
resources_there d a = ground (arith, a.count_ge, a.ring_length, a.buffers_length)

poll_consume :
    (env : Env) (d : Dev)
    → Inv d
    → d.streaming ≡ true
    → (((pfpga_poll env d).0 ≡ bit_or epollin epollrdnorm)
        × (failure (consume_frame env d).0 ≡ none))
      ⊎ (((pfpga_poll env d).0 ≡ 0) × (failure (consume_frame env d).0 ≡ some eagain))
unfolding pfpga_poll consume_frame has_frame snapshot
poll_consume env d v on =
    let a = streaming-IsAllocated v on in ground (arith, resources_there d a, pending_zero env d a)

module _ (crc32_le : ℕ → List ℕ → ℕ) where
  -- In any state that the invariant allows, poll says what a read of a whole frame would do at the
  -- same moment, if userspace can be written: hang-up where the read is refused with EINVAL, readable
  -- where it succeeds, and no event where it would return EAGAIN.
  pub poll_predicts_read :
      (env : Env) (count : ℕ) (d : Dev)
      → Inv d
      → frame_size ≤ count
      → env.user_writable ≡ true
      → let mask = (pfpga_poll env d).0 in
        let error = failure (pfpga_read crc32_le env count d).0 in
        ((mask ≡ epollhup) × (error ≡ some einval))
        ⊎ ((mask ≡ bit_or epollin epollrdnorm) × (error ≡ none))
        ⊎ ((mask ≡ 0) × (error ≡ some eagain))
  poll_predicts_read env count d v h w = elim (Bool-cases d.streaming) [
    | inl on ↦ ground (arith, poll_consume env d v on, consume_as_read crc32_le env count d h w)
    | inr off ↦ inl (unfold pfpga_poll pfpga_read in ground arith)
  ]
