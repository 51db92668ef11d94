-- ===== src/Driver/Restart.antt =====
-- The first read after START.
use phantom_fpga_final_embed.Base.{
  ap, sym, subst, ◌∙◌, ◌≤◌, List, ℕ, ◌%◌, ◌≡◌, ◌≢◌, ◌<◌, true, false, arith,
}
use phantom_fpga_final_embed.Regs.{reg_desc_tail, frame_size}
use phantom_fpga_final_embed.Regs.Ring.{mask_lem}
use phantom_fpga_final_embed.Driver.State.{Dev, Env, ok, buffer_at, elems}
use phantom_fpga_final_embed.Driver.Setup.Fresh.{get_or-fill_descriptors}
use phantom_fpga_final_embed.Driver.Control.{begin_streaming}
use phantom_fpga_final_embed.Driver.Frames.{
  snapshot, has_frame, is_completed, load, frame_length, copy_frame, pfpga_read,
}
use phantom_fpga_final_embed.Driver.Inv.{Inv, IsAllocated, Same-IsAllocated, configured-IsAllocated}
use phantom_fpga_final_embed.Driver.Inv.Control.{begin_lem, length-fresh_ring}
use phantom_fpga_final_embed.Driver.Frames.Take.{pending_zero, resources_there}

pub none_completed :
    (d : Dev)
    → IsAllocated d
    → (i : ℕ) → i < d.desc_count
    → is_completed (begin_streaming d) i ≡ false
none_completed d a i h = ground (
  arith,
  begin_lem d a,
  get_or-fill_descriptors d.buffer_size (elems d.buffers) d.desc_count 0 i (elems d.desc_ring)
      (omega arith) (omega arith) (omega (arith, a.ring_length)),
)

-- Whether descriptor 0 is completed plays no part where the tail is elsewhere.
seems_ready :
    (env : Env) (d : Dev)
    → IsAllocated d
    → d.consumer ≡ 0
    → env.regs reg_desc_tail % d.desc_count ≢ 0
    → has_frame (snapshot env d) ≡ true
unfolding snapshot has_frame
seems_ready env d a z t =
    ground (arith, mask_lem a.size (env.regs reg_desc_tail), pending_zero env d a)

-- A read that finds a frame there delivers what the consumer's buffer holds.
read_delivers :
    (crc32_le : ℕ → List ℕ → ℕ) (env : Env) (count : ℕ) (d : Dev)
    → IsAllocated d
    → d.streaming ≡ true
    → has_frame (snapshot env d) ≡ true
    → frame_size ≤ count
    → env.user_writable ≡ true
    → let n = frame_length env d d.consumer in
      (pfpga_read crc32_le env count d).0 ≡ ok (n, load env.mem (buffer_at d d.consumer).vaddr n)
unfolding pfpga_read copy_frame snapshot frame_length
read_delivers crc32_le env count d a on there large w = ground (arith, resources_there d a)

-- Right after START no descriptor is completed. START resets the driver's indices but not the
-- device's tail; if that register still reads as an index other than 0, a read of a whole frame succeeds
-- all the same, if userspace can be written, and delivers what the buffer of descriptor 0 holds.
pub stale_tail :
    (crc32_le : ℕ → List ℕ → ℕ) (env : Env) (count : ℕ) (d : Dev)
    → Inv d
    → d.configured ≡ true
    → env.regs reg_desc_tail % d.desc_count ≢ 0
    → frame_size ≤ count
    → env.user_writable ≡ true
    → let e = begin_streaming d in
      let n = frame_length env e 0 in
      ((i : ℕ) → i < d.desc_count → is_completed e i ≡ false)
      × ((pfpga_read crc32_le env count e).0 ≡ ok (n, load env.mem (buffer_at e 0).vaddr n))
stale_tail crc32_le env count d v conf t large w =
    let a = configured-IsAllocated v conf in
    let b = begin_lem d a in
    let again : IsAllocated (begin_streaming d) =
      Same-IsAllocated {d = d} (ground (arith, b, length-fresh_ring d)) a
        (ground (arith, b, a.count_ge)) in
    (
      none_completed d a,
      subst
          (λ (i : ℕ).
            let n = frame_length env e i in
            (pfpga_read crc32_le env count e).0 ≡ ok (n, load env.mem (buffer_at e i).vaddr n))
          at_start
          (read_delivers crc32_le env count e again (ap (λ x. x.streaming) b)
            (seems_ready env e again at_start stale) large w),
    )
  where
    e : Dev
    e = begin_streaming d

    at_start : e.consumer ≡ 0
    at_start = ap (λ x. x.consumer) (begin_lem d (configured-IsAllocated v conf))

    stale : env.regs reg_desc_tail % e.desc_count ≢ 0
    stale h = t (
        ap (λ n. env.regs reg_desc_tail % n)
          (sym (ap (λ x. x.desc_count) (begin_lem d (configured-IsAllocated v conf))))
        ∙ h)
