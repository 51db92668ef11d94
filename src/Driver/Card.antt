-- ===== src/Driver/Card.antt =====
-- A device from probe to remove: phantomfpga_probe, phantomfpga_remove, and the interrupt vectors and
-- the character device that they set up. Each label of a `goto` is a function, which goes on to the
-- next label as the code falls through; a stage of the set-up is a function of what the kernel
-- answers (`Bus`).
pub mod Msix
pub mod Ledger
pub mod Life
use phantom_fpga_final_embed.Base.{
  ℕ, Bool, true, false, not, Option, none, some, List, [], ◌∷◌, ◌==◌, if◌then◌else◌,
}
use phantom_fpga_final_embed.Regs.{
  dev_id_val, reg_dev_id, default_desc_count, default_frame_rate, default_irq_count,
  default_irq_timeout,
}
use phantom_fpga_final_embed.Driver.State.{
  Dev, Env, Io, Errno, Result, ok, err, enomem, enodev, Resource, acquire, release, private_data,
  pci_device, bar0_region, bar0_map, minor_number, char_dev, dev_node, emit, pfpga_read32,
}
use phantom_fpga_final_embed.Driver.Control.{pfpga_soft_reset, pfpga_stop_streaming}
use phantom_fpga_final_embed.Driver.Alloc.{pfpga_alloc_descriptors, pfpga_free_descriptors}
use phantom_fpga_final_embed.Driver.Ioctl.{phantomfpga_buffer_size}
use phantom_fpga_final_embed.Driver.Card.Msix.{
  Card, Bus, on_dev, put, pfpga_setup_msix, pfpga_teardown_msix,
}

-- pfpga_create_cdev, once it has its minor number: the labels err_ida and err_cdev, then the stages.
err_ida : Errno → Card → Result (Unit {0}) × Card
err_ida e c = (err e, put (release (minor_number c.minor)) c)

err_cdev : Errno → Card → Result (Unit {0}) × Card
unfolding err_ida
err_cdev e c = err_ida e (put (release (char_dev c.minor)) c)

add_node : Option Errno → Card → Result (Unit {0}) × Card
unfolding err_cdev
add_node (some e) c = err_cdev e c
add_node none c = (ok tt, put (acquire (dev_node c.minor)) c)

add_cdev : Bus → Option Errno → Card → Result (Unit {0}) × Card
unfolding err_ida add_node
add_cdev bus (some e) c = err_ida e c
add_cdev bus none c = add_node bus.device_create (put (acquire (char_dev c.minor)) c)

unfoldable pub pfpga_create_cdev : Bus → Card → Result (Unit {0}) × Card
unfolding add_cdev
pfpga_create_cdev bus c = elim bus.ida_alloc [
  | err e ↦ (err e, c)
  | ok minor ↦
      add_cdev bus bus.cdev_add (put (acquire (minor_number minor)) (record c { minor = minor }))
]

unfoldable pub pfpga_destroy_cdev : Card → Card
pfpga_destroy_cdev c =
    let c = put (release (dev_node c.minor)) c in
    let c = put (release (char_dev c.minor)) c in put (release (minor_number c.minor)) c

-- The labels of phantomfpga_probe, the last one first. The private data are gone at the end.
err_free : Errno → Card → Result Card × List Io
err_free e c = (err e, (put (release private_data) c).dev.io)

err_disable : Errno → Card → Result Card × List Io
unfolding err_free
err_disable e c = err_free e (put (release pci_device) c)

err_release : Errno → Card → Result Card × List Io
unfolding err_disable
err_release e c = err_disable e (put (release bar0_region) c)

err_unmap : Errno → Card → Result Card × List Io
unfolding err_release
err_unmap e c = err_release e (put (release bar0_map) c)

err_msix : Errno → Card → Result Card × List Io
unfolding err_unmap
err_msix e c = err_unmap e (pfpga_teardown_msix c)

err_desc : Errno → Card → Result Card × List Io
unfolding err_msix
err_desc e c = err_msix e (on_dev pfpga_free_descriptors c)

-- The end of phantomfpga_probe: the default configuration, not yet applied.
default_config : Card → Card
default_config c =
    on_dev
      (λ d. record d {
        desc_count = default_desc_count;
        frame_rate = default_frame_rate;
        irq_coalesce_count = default_irq_count;
        irq_coalesce_timeout = default_irq_timeout;
        buffer_size = phantomfpga_buffer_size;
        configured = false;
        streaming = false;
      })
      c

probe_cdev : Result (Unit {0}) × Card → Result Card × List Io
unfolding err_desc default_config
probe_cdev (err e, c) = err_desc e c
probe_cdev (ok _, c) = (ok (default_config c), (default_config c).dev.io)

probe_desc : Bus → Card → Result (Unit {0}) × Dev → Result Card × List Io
unfolding err_msix probe_cdev
probe_desc bus c (err e, d) = err_msix e (record c { dev = d })
probe_desc bus c (ok _, d) =
    probe_cdev (pfpga_create_cdev bus (record c { dev = pfpga_soft_reset d }))

probe_alloc : Env → Bus → Result (Unit {0}) × Card → Result Card × List Io
unfolding err_unmap probe_desc
probe_alloc env bus (err e, c) = err_unmap e c
probe_alloc env bus (ok _, c) =
    probe_desc bus c (pfpga_alloc_descriptors env default_desc_count phantomfpga_buffer_size c.dev)

-- From the DMA mask on: 64 bits, or else 32.
probe_mask : Env → Bus → Option Errno → Option Errno → Card → Result Card × List Io
unfolding err_unmap probe_alloc
probe_mask env bus (some e64) (some e32) c = err_unmap e32 c
probe_mask env bus _ _ c = probe_alloc env bus (pfpga_setup_msix bus c)

probe_map : Env → Bus → Bool → Card → Result Card × List Io
unfolding err_release err_unmap probe_mask
probe_map env bus false c = err_release enomem c
probe_map env bus true c =
    let c = put (acquire bar0_map) (record c { regs_mapped = true }) in
    if not (pfpga_read32 env reg_dev_id == dev_id_val)
    then err_unmap enodev c
    else probe_mask env bus bus.mask_64 bus.mask_32 c

probe_region : Env → Bus → Option Errno → Card → Result Card × List Io
unfolding err_disable probe_map
probe_region env bus (some e) c = err_disable e c
probe_region env bus none c = probe_map env bus bus.iomap (put (acquire bar0_region) c)

probe_enable : Env → Bus → Option Errno → Card → Result Card × List Io
unfolding err_free probe_region
probe_enable env bus (some e) c = err_free e c
probe_enable env bus none c = probe_region env bus bus.request_region (put (acquire pci_device) c)

-- The device state after kzalloc.
abbrev pub zero_dev : Dev
zero_dev = record {
  desc_ring = none;
  desc_ring_dma = 0;
  desc_ring_vaddr = 0;
  desc_count = 0;
  buffers = none;
  buffer_size = 0;
  buffer_pool = none;
  buffer_pool_dma = 0;
  buffer_pool_size = 0;
  frame_rate = 0;
  irq_coalesce_count = 0;
  irq_coalesce_timeout = 0;
  configured = false;
  streaming = false;
  desc_head = 0;
  desc_tail = 0;
  shadow_tail = 0;
  consumer = 0;
  frames_consumed = 0;
  bytes_consumed = 0;
  irq_count = 0;
  crc_errors = 0;
  io = [];
}

abbrev pub new_card : Card
new_card = record {
  dev = zero_dev;
  num_vectors = 0;
  irq_complete = some 0;
  irq_error = some 0;
  irq_no_desc = some 0;
  minor = 0;
  regs_mapped = false;
}

-- phantomfpga_probe: the new card, or the error of a probe that has failed; and the effects.
unfoldable pub phantomfpga_probe : Env → Bus → Result Card × List Io
unfolding probe_enable
phantomfpga_probe env bus =
    if not bus.private_block
    then (err enomem, [])
    else probe_enable env bus bus.enable_device (put (acquire private_data) new_card)

-- phantomfpga_remove: the effects up to the end of the device.
unfoldable pub phantomfpga_remove : Env → Card → List Io
phantomfpga_remove env c =
    let c = on_dev (λ d. if d.streaming then (pfpga_stop_streaming env d).1 else d) c in
    let c = pfpga_destroy_cdev c in
    let c = on_dev pfpga_free_descriptors c in
    let c = pfpga_teardown_msix c in
    let c =
      if c.regs_mapped then put (release bar0_map) (record c { regs_mapped = false }) else c in
    let c = put (release bar0_region) c in
    let c = put (release pci_device) c in (put (release private_data) c).dev.io
