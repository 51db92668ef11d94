-- ===== src/Examples/Device.antt =====
-- The theorems on a device, at the example of four descriptors.
use phantom_fpga_final_embed.Base.{
  false, ℕ, ◌+◌, ◌%◌, ◌-◌, ◌==◌, if◌then◌else◌, ◌≡◌, ◌≤◌, ◌<◌, ◌↔◌, ◌⊎◌, refl, ap, true, none, some,
  List, [], ◌∷◌, length, bit_or, u64_mod, arith,
}
use phantom_fpga_final_embed.Regs.{frame_size}
use phantom_fpga_final_embed.Regs.Ring.{
  desc_pending, desc_free, desc_ring_empty, desc_ring_full, desc_counts,
}
use phantom_fpga_final_embed.Driver.State.{Dev, ok, Env, failure, einval, eagain, enotty, buffer_at}
use phantom_fpga_final_embed.Driver.Frames.{
  is_completed, snapshot, has_frame, copy_frame, frame_length, pfpga_read, consume_frame, load,
}
use phantom_fpga_final_embed.Driver.Frames.GiveBack.{GivenBack, read_gives_back}
use phantom_fpga_final_embed.Driver.Interrupted.{resumed, interrupted_read}
use phantom_fpga_final_embed.Driver.Restart.{stale_tail}
use phantom_fpga_final_embed.Driver.Control.{begin_streaming}
use phantom_fpga_final_embed.Driver.Frames.Take.{read_bounds, consume_as_read, poll_predicts_read}
use phantom_fpga_final_embed.Driver.Poll.{pfpga_poll, epollin, epollrdnorm, epollhup}
use phantom_fpga_final_embed.Driver.Alloc.{pfpga_alloc_descriptors}
use phantom_fpga_final_embed.Driver.Alloc.Resources.{Outcome, alloc-Outcome}
use phantom_fpga_final_embed.Driver.Ioctl.{
  pfpga_ioctl, ioctl_set_cfg, consume, decode, ioctl_code, phantomfpga_buffer_size,
}
use phantom_fpga_final_embed.Driver.Ioctl.Codes.{decode_iff, decode-ioctl_code}
use phantom_fpga_final_embed.Driver.Ioctl.SetCfg.{Answer, set_cfg-Answer}
use phantom_fpga_final_embed.Driver.System.{Call, read, ioctl, poll, irq_complete, complete, run}
use phantom_fpga_final_embed.Driver.Inv.{Inv, Alike-Inv}
use phantom_fpga_final_embed.Driver.Inv.Step.{run-Inv}
use phantom_fpga_final_embed.Driver.Inv.Buffers.{buffers_disjoint}
use phantom_fpga_final_embed.Driver.Order.{
  Continues, restarts, round, deliveries, deliveries_in_order,
}
use phantom_fpga_final_embed.Driver.Counts.{keeps_count, frames_consumed_counts}
use phantom_fpga_final_embed.Driver.Ledger.{Balanced}
use phantom_fpga_final_embed.Driver.Balance.{run-Balanced}
use phantom_fpga_final_embed.Driver.Running.{InStep, run-InStep}
use phantom_fpga_final_embed.Driver.Overlap.{overlap, overlap_breaks}
use phantom_fpga_final_embed.Driver.Failures.{Unchanged, ioctl_failure}
use phantom_fpga_final_embed.Driver.Mmap.Pages.{Mappable, Mappable-iff}
use phantom_fpga_final_embed.Examples.{
  sum_crc, four_descs, granted, streaming_four, four-IsRingSize, streaming_four-Inv,
}

-- A frame read, the next one completed and consumed, with a poll and an interrupt between.
abbrev some_calls : List Call
some_calls =
    read granted 5120
    ∷ irq_complete granted
    ∷ complete 1 1
    ∷ poll granted
    ∷ ioctl granted (ioctl_code consume)
    ∷ []

goes_on : Continues some_calls
goes_on = (ap restarts (decode-ioctl_code consume), tt)

run-Inv_example : Inv (run sum_crc streaming_four some_calls)
run-Inv_example = run-Inv sum_crc streaming_four some_calls streaming_four-Inv

deliveries_in_order_example :
    deliveries sum_crc streaming_four some_calls
    ≡ round 4 0 (length (deliveries sum_crc streaming_four some_calls))
deliveries_in_order_example =
    deliveries_in_order sum_crc streaming_four some_calls streaming_four-Inv goes_on

-- The same device after STOP.
abbrev stopped : Dev
stopped = record streaming_four { streaming = false }

stopped-Inv : Inv stopped
stopped-Inv = Alike-Inv (ground arith) streaming_four-Inv (λ _. refl)

set_cfg-Answer_example : Answer granted four_descs stopped (ioctl_set_cfg granted stopped)
set_cfg-Answer_example = set_cfg-Answer granted four_descs stopped refl

poll_predicts_read_example :
    let mask = (pfpga_poll granted streaming_four).0 in
    let error = failure (pfpga_read sum_crc granted 5120 streaming_four).0 in
    ((mask ≡ epollhup) × (error ≡ some einval))
    ⊎ ((mask ≡ bit_or epollin epollrdnorm) × (error ≡ none))
    ⊎ ((mask ≡ 0) × (error ≡ some eagain))
poll_predicts_read_example =
    poll_predicts_read sum_crc granted 5120 streaming_four streaming_four-Inv (omega arith) refl

run-Balanced_example : Balanced [] (run sum_crc streaming_four some_calls)
run-Balanced_example =
    run-Balanced [] sum_crc streaming_four some_calls streaming_four-Inv (refl, refl)

run-InStep_example : InStep (run sum_crc streaming_four some_calls)
run-InStep_example = run-InStep sum_crc streaming_four some_calls streaming_four-Inv refl

buffers_disjoint_example :
    (0x20000 ≤ (buffer_at streaming_four 1).dma_addr)
    × ((buffer_at streaming_four 1).dma_addr + (buffer_at streaming_four 1).size
        ≤ (buffer_at streaming_four 3).dma_addr)
    × ((buffer_at streaming_four 3).dma_addr + (buffer_at streaming_four 3).size ≤ 0x20000 + 20544)
buffers_disjoint_example =
    buffers_disjoint streaming_four 1 3 streaming_four-Inv refl (omega arith) (omega arith)
      (omega arith)

-- A device whose frame has a known length: 8 bytes.
abbrev short_frame : Env
short_frame = record granted { mem = λ p. if p == 0x10000 + 5136 - 16 + 4 then 8 else 0 }

read_bounds_example :
    (1 ≤ 8)
    × (8 ≤ frame_size)
    × (8 ≤ 5120)
    × (length (load short_frame.mem 0x10000 8) ≡ 8)
    × (load short_frame.mem 0x10000 8 ≡ load short_frame.mem (buffer_at streaming_four 0).vaddr 8)
unfolding pfpga_read copy_frame snapshot frame_length has_frame
read_bounds_example =
    read_bounds sum_crc short_frame 5120 streaming_four {n = 8}
      {bytes = load short_frame.mem 0x10000 8} refl

consume_as_read_example :
    (failure (consume_frame granted streaming_four).0
      ≡ failure (pfpga_read sum_crc granted 5120 streaming_four).0)
    × ((consume_frame granted streaming_four).1
        ≡ record ((pfpga_read sum_crc granted 5120 streaming_four).1) { crc_errors = 0 })
consume_as_read_example = consume_as_read sum_crc granted 5120 streaming_four (omega arith) refl

alloc-Outcome_example :
    Outcome 4 true (pfpga_alloc_descriptors granted 4 phantomfpga_buffer_size streaming_four)
alloc-Outcome_example = alloc-Outcome granted 4 streaming_four refl

frames_consumed_counts_example :
    (run sum_crc streaming_four some_calls).frames_consumed % u64_mod
    ≡ (0 + length (deliveries sum_crc streaming_four some_calls)) % u64_mod
frames_consumed_counts_example =
    frames_consumed_counts sum_crc streaming_four some_calls
      (ap keeps_count (decode-ioctl_code consume), tt)

ioctl_failure_example : Unchanged streaming_four (pfpga_ioctl granted 0 streaming_four).1
unfolding pfpga_ioctl
ioctl_failure_example = ioctl_failure granted 0 streaming_four enotty refl (λ e. cc)

overlap_breaks_example :
    let (i, j, e) = overlap granted granted streaming_four in
    (i ≡ j) × (e.consumer ≡ 1) × (e.desc_head ≡ e.consumer) × (¬ Inv e)
overlap_breaks_example = overlap_breaks granted granted streaming_four streaming_four-Inv refl

Mappable-iff_example : Mappable streaming_four ↔ (4 % 256 ≡ 0)
Mappable-iff_example = Mappable-iff streaming_four-Inv refl

decode_iff_example : (decode 0x5008 ≡ some consume) ↔ (0x5008 ≡ ioctl_code consume)
decode_iff_example = decode_iff 0x5008 consume

desc_counts_example :
    (desc_pending 1 3 4 < 4)
    × ((3 + desc_pending 1 3 4) % 4 ≡ 1)
    × (desc_pending 1 3 4 + desc_free 1 3 4 ≡ 4 - 1)
    × ((desc_ring_empty 1 3 ≡ true) ↔ (desc_pending 1 3 4 ≡ 0))
    × ((desc_ring_full 1 3 4 ≡ true) ↔ (desc_free 1 3 4 ≡ 0))
desc_counts_example = desc_counts four-IsRingSize (omega arith) (omega arith)

read_gives_back_example :
    GivenBack 8 streaming_four (pfpga_read sum_crc short_frame 5120 streaming_four).1
unfolding pfpga_read copy_frame snapshot frame_length has_frame
read_gives_back_example =
    read_gives_back sum_crc short_frame 5120 streaming_four {n = 8}
      {bytes = load short_frame.mem 0x10000 8} streaming_four-Inv refl

interrupted_read_example :
    let r =
      resumed sum_crc granted granted streaming_four (irq_complete granted ∷ complete 1 1 ∷ []) in
    let n =
      frame_length granted
        (run sum_crc
          (snapshot granted streaming_four).dev
          (irq_complete granted ∷ complete 1 1 ∷ []))
        0 in
    (r.0 ≡ ok (n, load granted.mem 0x10000 n)) × (r.1.consumer ≡ 1) × Inv r.1
interrupted_read_example =
    interrupted_read sum_crc granted granted streaming_four
      (irq_complete granted ∷ complete 1 1 ∷ []) streaming_four-Inv refl refl refl

stale_tail_example :
    let e = begin_streaming stopped in
    let n = frame_length granted e 0 in
    ((i : ℕ) → i < 4 → is_completed e i ≡ false)
    × ((pfpga_read sum_crc granted 5120 e).0 ≡ ok (n, load granted.mem (buffer_at e 0).vaddr n))
stale_tail_example =
    stale_tail sum_crc granted 5120 stopped stopped-Inv refl (λ e. omega (arith, e)) (omega arith)
      refl
