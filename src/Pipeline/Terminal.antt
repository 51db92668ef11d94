-- ===== src/Pipeline/Terminal.antt =====
-- From the device to the terminal: any number of iterations, and the viewer behind them.
use phantom_fpga_final_embed.Base.{
  ℕ, ◌+◌, ◌%◌, ◌≡◌, refl, ap, subst, ◌∙◌, true, none, some, List, [], ◌∷◌, if◌then◌else◌, ltb,
  length,
}
use phantom_fpga_final_embed.Regs.{frame_size}
use phantom_fpga_final_embed.Driver.State.{Dev, set_control}
use phantom_fpga_final_embed.Driver.Control.{begin_streaming}
use phantom_fpga_final_embed.Driver.Frames.{pfpga_read}
use phantom_fpga_final_embed.Driver.System.{step}
use phantom_fpga_final_embed.Driver.Inv.{Inv}
use phantom_fpga_final_embed.Driver.Inv.Step.{step-Inv, complete-Inv}
use phantom_fpga_final_embed.Driver.Fifo.{produce-Represents}
use phantom_fpga_final_embed.Driver.Fifo.Reach.{
  started, IsQueue, watched_lem, Alike-Represents, Reach-IsQueue,
}
use phantom_fpga_final_embed.App.{App}
use phantom_fpga_final_embed.App.Loop.{main_loop}
use phantom_fpga_final_embed.App.Forward.{forwarded}
use phantom_fpga_final_embed.App.Stream.{OnAir}
use phantom_fpga_final_embed.App.Reach.{ArePeaceful, frames_of}
use phantom_fpga_final_embed.Viewer.{Viewer}
use phantom_fpga_final_embed.Viewer.Client.Exact.{incoming}
use phantom_fpga_final_embed.Viewer.Loop.{run_viewer, prepare, finish}
use phantom_fpga_final_embed.Viewer.Receive.{Ready}
use phantom_fpga_final_embed.EndToEnd.{Drawn, sent, frames_reach_viewer}
use phantom_fpga_final_embed.Pipeline.{
  Event, completes, reads, waits, other, taken_after, Fair, frame_in, by_number, turns_of,
}
use phantom_fpga_final_embed.Pipeline.Reads.{Fixed, not_head, read-Fixed, read-ReadsOne}

module _ (crc32_le : ℕ → List ℕ → ℕ) where
  -- The turns are peaceful, and their frames are those by number.
  abbrev Gives : Dev → List Event → ℕ → ℕ → Dev → Type 0
  Gives s es p c d =
      ArePeaceful (turns_of crc32_le es p d)
      × (frames_of (turns_of crc32_le es p d) ≡ by_number s es p c)

  turns-Gives :
      (s : Dev) (es : List Event) (p c : ℕ) (d : Dev)
      → IsQueue p c d
      → Fixed s d
      → Fair s.desc_count es p c
      → Gives s es p c d
  unfolding turns_of by_number Fair
  turns-Gives s [] p c d q f fair = (tt, refl)
  turns-Gives s (completes control ∷ es) p c d (r, v, on) f (room, bit, fair) =
      turns-Gives s es (p + 1) c (set_control d (p % d.desc_count) control)
        (
          produce-Represents p c control d r (not_head s p c d r f room) bit,
          complete-Inv (p % d.desc_count) control v,
          on,
        )
        (record { buffers = f.buffers; each = f.each; count = f.count }) fair
  turns-Gives s (reads env t ∷ es) p c d q f ((tail, w, calm), fair) =
      let (next, peaceful, got) = read-ReadsOne crc32_le s d p c env t q f tail w calm in
      let d' = (pfpga_read crc32_le env frame_size d).1 in
      let (all, same) =
        turns-Gives s es p (taken_after p c) d' next (read-Fixed crc32_le env p c s d q w f) fair in
      (
        (peaceful, all),
        got (turns_of crc32_le es p d')
            ∙ ap
                (λ (fs : List (List ℕ)).
                  if ltb c p then frame_in env s (c % s.desc_count) ∷ fs else fs)
                same,
      )
  turns-Gives s (waits t ∷ es) p c d q f (calm, fair) =
      let (all, same) = turns-Gives s es p c d q f fair in
      ((record { poll = tt; read = refl; signal = calm.2 }, all), same)
  turns-Gives s (other call ∷ es) p c d (r, v, on) f (w, fair) =
      let (alike, same) = watched_lem crc32_le d call w in
      turns-Gives s es p c (step crc32_le d call)
        (Alike-Represents p c d _ alike r, step-Inv crc32_le d call v, same ∙ on)
        (record {
          buffers = alike.buffers ∙ f.buffers;
          each = alike.each ∙ f.each;
          count = alike.count ∙ f.count;
        })
        fair

  -- Frames on their whole way, from START on. If the device completes descriptors one after the other, with
  -- the COMPLETED bit, no further than the driver's head, and shows in its tail register how far it has
  -- come; if the loop reads at any times, too early ones included, with time-outs, interrupts, polls and
  -- mappings anywhere between, sends to a client that takes all, and gets no signal; and if the connection
  -- brings what is sent, in whatever pieces, until it ends: then run_viewer draws, in their order and
  -- without errors, the images of the valid ones among the frames that have been read, and these are
  -- the frames as the device has numbered them, each from the buffer at its number round the ring.
  pub device_to_terminal :
      (d : Dev) (es : List Event) (a : App) (v : Viewer)
      → Inv d
      → d.configured ≡ true
      → Fair (begin_streaming d).desc_count es 0 0
      → OnAir true none [] a
      → Ready (length (forwarded true none (by_number (begin_streaming d) es 0 0))) v
      → incoming v.socket ≡ sent (main_loop (turns_of crc32_le es 0 (begin_streaming d)) a)
      → (w : Viewer) × (run_viewer v ≡ some (finish w))
        × Drawn (forwarded true none (by_number (begin_streaming d) es 0 0)) (prepare v) w
  device_to_terminal d es a v inv conf fair air is_ready brought =
      let s = begin_streaming d in
      let ts = turns_of crc32_le es 0 s in
      let fixed : Fixed s s = record { buffers = refl; each = refl; count = refl } in
      let (peaceful, same) =
        turns-Gives s es 0 0 s (Reach-IsQueue crc32_le d inv conf started) fixed fair in
      subst
        (λ (fs : List (List ℕ)).
          Ready (length (forwarded true none fs)) v
          → (w : Viewer) × (run_viewer v ≡ some (finish w))
            × Drawn (forwarded true none fs) (prepare v) w)
        same (λ r. frames_reach_viewer ts none a v peaceful air r brought) is_ready
