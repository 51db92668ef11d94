-- ===== src/Examples/Queue.antt =====
-- The theorems on the queue of frames, at the device of four descriptors.
use phantom_fpga_final_embed.Base.{ℕ, zero, suc, ◌%◌, ◌≡◌, ◌<◌, ◌⊎◌, refl, ltb, arith}
use phantom_fpga_final_embed.Driver.State.{Dev, ok, err, eagain, set_control, buffer_at}
use phantom_fpga_final_embed.Driver.Control.{begin_streaming}
use phantom_fpga_final_embed.Driver.Frames.{is_completed, load, pfpga_read}
use phantom_fpga_final_embed.Driver.Fifo.{Represents}
use phantom_fpga_final_embed.Driver.Fifo.Read.{read_takes_first}
use phantom_fpga_final_embed.Driver.Fifo.Reach.{Reach, started, produced, IsFair, reads_in_order}
use phantom_fpga_final_embed.Driver.Setup.{pfpga_init_descriptors, pfpga_submit_descriptors}
use phantom_fpga_final_embed.Driver.Fifo.Start.{start-Represents}
use phantom_fpga_final_embed.Examples.{
  sum_crc, granted, streaming_four, streaming_four-Inv, streaming_four-IsAllocated,
}

one_completed : (i : ℕ) → i < 4 → is_completed streaming_four (i % 4) ≡ ltb i 1
one_completed zero h = refl
one_completed (suc zero) h = refl
one_completed (suc (suc zero)) h = refl
one_completed (suc (suc (suc zero))) h = refl
one_completed (suc (suc (suc (suc i)))) h = absurd (omega arith)

one_frame : Represents 1 0 streaming_four
one_frame = record {
  allocated = streaming_four-IsAllocated;
  consumer = refl;
  head = refl;
  order = omega arith;
  window = omega arith;
  completed = λ i lo hi. one_completed i (omega arith);
}

read_takes_first_example :
    let r = pfpga_read sum_crc granted 5120 streaming_four in
    ((◌≡◌ {A = ℕ} 1 0) × (r.0 ≡ err eagain) × Represents 1 0 r.1)
    ⊎ ((0 < 1)
        × ((n : ℕ) × (r.0 ≡ ok (n, load granted.mem (buffer_at streaming_four 0).vaddr n)))
        × Represents 1 1 r.1)
read_takes_first_example =
    read_takes_first sum_crc granted 5120 streaming_four 1 0 streaming_four-Inv one_frame refl refl
      (omega arith) refl

start-Represents_example : Represents 0 0 (begin_streaming streaming_four)
start-Represents_example = start-Represents streaming_four streaming_four-Inv refl

-- After START, with the first frame completed.
abbrev first_done : Dev
first_done =
    set_control (begin_streaming streaming_four) (0 % (begin_streaming streaming_four).desc_count) 1

first_done-Reach : Reach sum_crc streaming_four 1 0 first_done
unfolding begin_streaming pfpga_init_descriptors pfpga_submit_descriptors
first_done-Reach = produced 1 started (λ e. omega (arith, e)) refl

fair : IsFair granted 5120 1 first_done
unfolding begin_streaming pfpga_init_descriptors pfpga_submit_descriptors
fair = record { tail = refl; large = omega arith; writable = refl }

reads_in_order_example :
    ((◌≡◌ {A = ℕ} 1 0) × ((pfpga_read sum_crc granted 5120 first_done).0 ≡ err eagain))
    ⊎ ((0 < 1)
        × ((n : ℕ) × ((pfpga_read sum_crc granted 5120 first_done).0
              ≡ ok (
                n,
                load granted.mem (buffer_at first_done (0 % first_done.desc_count)).vaddr n,
              ))))
reads_in_order_example =
    reads_in_order sum_crc streaming_four 1 0 first_done granted 5120 streaming_four-Inv refl
      first_done-Reach fair
