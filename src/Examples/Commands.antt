-- ===== src/Examples/Commands.antt =====
-- The theorems on the application and the viewer as processes.
use phantom_fpga_final_embed.Base.{ℕ, ◌*◌, ap, ◌≡◌, refl, true, false, some, List, [], ◌∷◌, arith}
use phantom_fpga_final_embed.Driver.State.{Dev, Env, ok}
use phantom_fpga_final_embed.App.{App, AppConfig, descriptor}
use phantom_fpga_final_embed.App.Options.{
  Opt, desc_count, frame_rate, verbose, proceed, parse_arguments, apply_option, default_config,
}
use phantom_fpga_final_embed.App.Run.{World, run, configure_device, setup_mmap, new_app}
use phantom_fpga_final_embed.App.Leaks.{Quits, run-Quits}
use phantom_fpga_final_embed.App.Settings.{Configures, options_fit_driver}
use phantom_fpga_final_embed.Viewer.Client.{Address}
use phantom_fpga_final_embed.Viewer.Options
use phantom_fpga_final_embed.Viewer.Exits.{Exits, run-Exits}
use phantom_fpga_final_embed.Driver.Alloc.{pfpga_alloc_descriptors, pfpga_free_descriptors}
use phantom_fpga_final_embed.Driver.Setup.{
  pfpga_apply_config, pfpga_configure_desc_ring, pfpga_init_descriptors, pfpga_submit_descriptors,
}
use phantom_fpga_final_embed.Driver.Control.{pfpga_soft_reset, pfpga_start_streaming}
use phantom_fpga_final_embed.Driver.Ioctl.{ioctl_set_cfg, apply, finish, program, nothing}
use phantom_fpga_final_embed.Driver.System.{complete}
use phantom_fpga_final_embed.Driver.Inv.{pool_of}
use phantom_fpga_final_embed.App.ZeroCopy.Session.{
  Event, round, other, play, fed, with_driver, entered, zero_copy_session,
}
use phantom_fpga_final_embed.Examples.{sum_crc, granted, streaming_four}
use phantom_fpga_final_embed.Examples.Stream.{watching, reads_frame}

-- -n 64 -r 30
abbrev some_options : List Opt
some_options = desc_count (54 ∷ 52 ∷ []) ∷ frame_rate (51 ∷ 48 ∷ []) ∷ verbose ∷ []

abbrev settings : AppConfig
settings = record default_config { desc_count = 64; frame_rate = 30; verbose = true }

settings_read : parse_arguments some_options default_config ≡ (proceed, settings)
unfolding parse_arguments apply_option
settings_read = refl

abbrev idle : Dev
idle = record streaming_four { streaming = false }

abbrev asked : Env
asked = record granted { user_config = some (configure_device settings) }

options_fit_driver_example : Configures settings asked idle
options_fit_driver_example =
    options_fit_driver some_options settings asked idle settings_read refl refl

-- Everything is granted, and the viewer connects with descriptor 5.
abbrev world : World
world = record {
  server = record { socket = some 3; binds = true; listens = true };
  device = some 4;
  set_cfg = true;
  buffer_info =
      some (record {
        buffer_size = 5136;
        buffer_count = 256;
        total_size = 1314816;
        frame_size = 5120;
      });
  mmap = true;
  start = true;
  turns = record reads_frame { accepted = some 5; signal = true } ∷ [];
}

run-Quits_example : Quits (descriptor 5) (run some_options world)
run-Quits_example = run-Quits some_options world (descriptor 5)

-- The first address cannot be connected.
abbrev addresses : List ℕ → ℕ → List Address
addresses host port =
    record { socket = some 3; connects = false } ∷ record { socket = some 3; connects = true } ∷ []

-- host 8080
abbrev arguments : List (List ℕ)
arguments = (104 ∷ 111 ∷ 115 ∷ 116 ∷ []) ∷ (56 ∷ 48 ∷ 56 ∷ 48 ∷ []) ∷ []

run-Exits_example :
    Exits addresses
      (Options.parse_arguments arguments)
      (Options.run addresses (λ path. watching []) arguments)
run-Exits_example = run-Exits addresses (λ path. watching []) arguments

-- -n 256 -z, which can be mapped.
abbrev mapping : App
mapping = record new_app { config = record settings { desc_count = 256; zero_copy = true } }

abbrev asked_all : Env
asked_all = record granted { user_config = some (configure_device mapping.config) }

set_cfg_there :
    let (r, e) = ioctl_set_cfg asked_all idle in
    (r ≡ ok nothing) × (e.buffer_pool ≡ some 0x10000) × (e.buffer_pool_size ≡ 256 * 5136)
unfolding ioctl_set_cfg apply finish program pfpga_alloc_descriptors pfpga_free_descriptors
    pfpga_soft_reset pfpga_apply_config pfpga_configure_desc_ring pfpga_init_descriptors
    pfpga_submit_descriptors
set_cfg_there = (refl, refl, refl)

-- A frame, the next one completed, and a second frame.
abbrev rounds : List Event
rounds = round granted reads_frame ∷ other (complete 1 1) ∷ round granted reads_frame ∷ []

zero_copy_session_example :
    let e = (ioctl_set_cfg asked_all idle).1 in
    let s = (pfpga_start_streaming e).1 in
    let b = (setup_mmap (with_driver asked_all e world) mapping).1 in
    let (l, f) = play sum_crc rounds (entered b) s in
    ((pfpga_start_streaming e).0 ≡ ok tt)
    × (l.app ≡ fed sum_crc rounds b s)
    × (l.mmap_index ≡ f.consumer)
zero_copy_session_example =
    zero_copy_session sum_crc asked_all world mapping idle rounds refl refl set_cfg_there.0
      (omega (arith, ap pool_of set_cfg_there.1, set_cfg_there.2)) refl
