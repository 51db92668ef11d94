-- ===== src/Examples/Settings.antt =====
-- The theorems on configurations and on the module.
use phantom_fpga_final_embed.Base.{
  ◌≡◌, ◌≤◌, ◌⊎◌, refl, inr, true, ◌+◌, ◌*◌, ◌%◌, add64, tabulate, false, Option, none, some, [],
  length, arith,
}
use phantom_fpga_final_embed.Regs.{frame_size}
use phantom_fpga_final_embed.Driver.State.{Dev, Errno, ok, err, code, elems, failure, null_desc}
use phantom_fpga_final_embed.Driver.Inv.{Inv, IsAllocated, pool_slices}
use phantom_fpga_final_embed.Driver.Control.{pfpga_stop_streaming}
use phantom_fpga_final_embed.Driver.Alloc.{slice, pfpga_free_descriptors, pfpga_alloc_descriptors}
use phantom_fpga_final_embed.Driver.Frames.{snapshot, has_frame, copy_frame, pfpga_read}
use phantom_fpga_final_embed.Driver.Ioctl.{
  nothing, config, buffer_info, phantomfpga_buffer_size, finish, apply, ioctl_set_cfg,
  ioctl_get_cfg, ioctl_get_buffer_info,
}
use phantom_fpga_final_embed.Driver.Ioctl.GetCfg.{get-set_cfg}
use phantom_fpga_final_embed.Driver.Reconfigure.{reconfigured, overtaken, reconfigured_under_read}
use phantom_fpga_final_embed.Driver.Registration.{
  phantomfpga_init, in_force, phantomfpga_exit, load_unload,
}
use phantom_fpga_final_embed.Examples.{sum_crc, four_descs, granted, streaming_four}

abbrev idle_four : Dev
idle_four = record streaming_four { streaming = false }

set_cfg_succeeds : (ioctl_set_cfg granted idle_four).0 ≡ ok nothing
unfolding ioctl_set_cfg apply finish pfpga_alloc_descriptors pfpga_free_descriptors
set_cfg_succeeds = refl

get-set_cfg_example :
    let e = (ioctl_set_cfg granted idle_four).1 in
    ((ioctl_get_cfg granted e).0 ≡ ok (config four_descs))
    × ((ioctl_get_buffer_info granted e).0
        ≡ ok (
            buffer_info (record {
              buffer_size = phantomfpga_buffer_size;
              buffer_count = 4;
              total_size = e.buffer_pool_size;
              frame_size = frame_size;
            })))
get-set_cfg_example = get-set_cfg granted four_descs idle_four refl refl set_cfg_succeeds

-- A device with eight descriptors whose consumer has gone past the fourth.
abbrev at_six : Dev
at_six = record streaming_four {
  desc_ring = some (tabulate 8 0 (λ _. null_desc));
  desc_count = 8;
  buffers = some (tabulate 8 0 (slice 0x10000 0x20000 5136));
  buffer_pool_size = 8 * 5136;
  desc_head = 5;
  consumer = 6;
}

at_six-IsAllocated : IsAllocated at_six
unfolding pool_slices
at_six-IsAllocated = record {
  size = record { log = 3; log_le = omega arith; pow = refl; two = omega arith };
  count_ge = omega arith;
  count_le = omega arith;
  ring_length = refl;
  buffers_length = refl;
  slices = refl;
  has_pool = refl;
  buffer_fits = refl;
  pool_fits = refl;
  consumer_in = omega arith;
}

at_six-Inv : Inv at_six
at_six-Inv = record {
  resources = inr at_six-IsAllocated;
  one_free = λ _. refl;
  running = λ _. refl;
}

frame_there : has_frame (snapshot granted at_six) ≡ true
unfolding has_frame snapshot
frame_there = refl

reconfigures : (reconfigured granted (snapshot granted at_six).dev).0 ≡ ok nothing
unfolding snapshot pfpga_stop_streaming ioctl_set_cfg apply finish pfpga_alloc_descriptors
    pfpga_free_descriptors
reconfigures = refl

reconfigured_under_read_example :
    let e = (reconfigured granted (snapshot granted at_six).dev).1 in
    let (r, f) = overtaken sum_crc granted granted granted at_six in
    (pfpga_read sum_crc granted 5120 at_six ≡ copy_frame sum_crc granted (snapshot granted at_six))
    × (length (elems e.desc_ring) ≤ (snapshot granted at_six).head)
    × (length (elems e.buffers) ≤ (snapshot granted at_six).head)
    × (failure r ≡ none)
    × (f.streaming ≡ false)
    × (f.frames_consumed ≡ add64 e.frames_consumed 1)
    × (f.consumer ≡ (6 + 1) % 4)
    × (f.desc_head ≡ 0)
reconfigured_under_read_example =
    reconfigured_under_read sum_crc granted granted granted 5120 four_descs at_six at_six-Inv refl
      frame_there (omega arith) refl (omega arith) reconfigures refl

abbrev fine : Option Errno
fine = none

abbrev refused : Option Errno
refused = some (code 12)

load_unload_example :
    let (r, es) = phantomfpga_init fine refused fine in
    ((r ≡ ok tt)
      × (fine ≡ none)
      × (refused ≡ none)
      × (fine ≡ none)
      × (in_force (phantomfpga_exit es) ≡ some []))
    ⊎ ((e : Errno) × (r ≡ err e)
        × ((fine ≡ some e)
            ⊎ ((fine ≡ none) × ((refused ≡ some e) ⊎ ((refused ≡ none) × (fine ≡ some e)))))
        × (in_force es ≡ some []))
load_unload_example = load_unload fine refused fine
