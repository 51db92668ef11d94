-- ===== src/Examples/Pipeline.antt =====
-- A frame on its whole way: a read that comes too early, a completion, an interrupt, a read.
use phantom_fpga_final_embed.Base.{
  ◌≡◌, refl, true, false, none, some, List, [], ◌∷◌, ◌-◌, get_or, length, arith,
}
use phantom_fpga_final_embed.Driver.State.{Dev, Env}
use phantom_fpga_final_embed.Driver.Setup.{pfpga_init_descriptors, pfpga_submit_descriptors}
use phantom_fpga_final_embed.Driver.Control.{begin_streaming}
use phantom_fpga_final_embed.Driver.System.{irq_complete}
use phantom_fpga_final_embed.Driver.Inv.{Inv, Alike-Inv}
use phantom_fpga_final_embed.App.Loop.{main_loop, Turn}
use phantom_fpga_final_embed.App.Forward.{forwarded}
use phantom_fpga_final_embed.Viewer.{Viewer}
use phantom_fpga_final_embed.Viewer.Loop.{run_viewer, prepare, finish}
use phantom_fpga_final_embed.EndToEnd.{Drawn, sent}
use phantom_fpga_final_embed.Pipeline.{
  Event, completes, reads, waits, other, Calm, Fair, by_number, turns_of,
}
use phantom_fpga_final_embed.Pipeline.Terminal.{device_to_terminal}
use phantom_fpga_final_embed.Examples.{sum_crc, granted, streaming_four, streaming_four-Inv}
use phantom_fpga_final_embed.Examples.Stream.{
  reads_frame, on_air, on_air-OnAir, watching, watching-Ready, watching-incoming, frame,
}

-- Before the first completion and after it.
abbrev early : Env
early = record granted { regs = λ offset. 0 }

abbrev late : Env
late = record granted { mem = λ p. get_or frame (p - 0x10000) 0 }

abbrev way : List Event
way =
    reads early reads_frame
    ∷ completes 1
    ∷ waits reads_frame
    ∷ other (irq_complete granted)
    ∷ reads late reads_frame
    ∷ []

abbrev idle_four : Dev
idle_four = record streaming_four { streaming = false }

idle_four-Inv : Inv idle_four
idle_four-Inv = Alike-Inv (ground arith) streaming_four-Inv (λ _. refl)

calm : Calm reads_frame
calm = ((4, refl, omega arith), (5120, refl, omega arith), refl)

way-Fair : Fair (begin_streaming idle_four).desc_count way 0 0
unfolding begin_streaming Fair pfpga_init_descriptors pfpga_submit_descriptors
way-Fair = ((refl, refl, calm), (omega arith, refl, (calm, (refl, ((refl, refl, calm), tt)))))

abbrev turns : List Turn
turns = turns_of sum_crc way 0 (begin_streaming idle_four)

device_to_terminal_example :
    let fs = forwarded true none (by_number (begin_streaming idle_four) way 0 0) in
    let v = watching (sent (main_loop turns on_air)) in
    (w : Viewer) × (run_viewer v ≡ some (finish w)) × Drawn fs (prepare v) w
device_to_terminal_example =
    device_to_terminal sum_crc idle_four way on_air (watching (sent (main_loop turns on_air)))
      idle_four-Inv refl way-Fair on_air-OnAir
      (watching-Ready (length (forwarded true none (by_number (begin_streaming idle_four) way 0 0)))
        (sent (main_loop turns on_air)))
      (watching-incoming (sent (main_loop turns on_air)))
