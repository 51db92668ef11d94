-- ===== src/Driver/Setup.antt =====
-- Programming the device: the descriptor ring, the configuration registers, and handing
-- descriptors to the device.
pub mod Fresh
use phantom_fpga_final_embed.Base.{
  ℕ, zero, suc, ◌+◌, ◌%◌, bit_and, Bool, ◌||◌, Option, none, some, List, ◌==◌, if◌then◌else◌,
  is_none, get_or, set, add32, sub32, u32_mod, lower_32_bits, upper_32_bits,
}
use phantom_fpga_final_embed.Regs.{
  SgDesc, reg_desc_ring_lo, reg_desc_ring_hi, reg_desc_ring_size, reg_desc_head, reg_frame_rate,
  reg_irq_coalesce, reg_irq_mask, irq_all,
}
use phantom_fpga_final_embed.Regs.Coalesce.{irq_coalesce_pack}
use phantom_fpga_final_embed.Driver.State.{Dev, Buffer, null_buffer, wmb, emit, pfpga_write32}

-- The four ring indices are reset together, in five places of the driver.
abbrev pub reset_indices : Dev → Dev
reset_indices d = record d { desc_head = 0; desc_tail = 0; shadow_tail = 0; consumer = 0 }

unfoldable pub pfpga_configure_desc_ring : Dev → Dev
pfpga_configure_desc_ring d =
    let d = pfpga_write32 reg_desc_ring_lo (lower_32_bits d.desc_ring_dma) d in
    let d = pfpga_write32 reg_desc_ring_hi (upper_32_bits d.desc_ring_dma) d in
    let d = pfpga_write32 reg_desc_ring_size d.desc_count d in
    let d = reset_indices d in pfpga_write32 reg_desc_head 0 d

unfoldable pub pfpga_apply_config : Dev → Dev
pfpga_apply_config d =
    let d = pfpga_write32 reg_frame_rate d.frame_rate d in
    let irq_coalesce = irq_coalesce_pack d.irq_coalesce_count d.irq_coalesce_timeout in
    let d = pfpga_write32 reg_irq_coalesce irq_coalesce d in pfpga_write32 reg_irq_mask irq_all d

unfoldable pub pfpga_submit_descriptors : ℕ → Dev → Dev
pfpga_submit_descriptors count d =
    if d.desc_count == 0 || count == 0
    then d
    else let d = emit wmb d in
      let head = bit_and (add32 d.desc_head count) (sub32 d.desc_count 1) in
      pfpga_write32 reg_desc_head head (record d { desc_head = head })

-- The descriptor that the loop of pfpga_init_descriptors writes at index `i`.
abbrev pub fresh_desc : ℕ → List Buffer → ℕ → SgDesc
fresh_desc buffer_size buffers i = record {
  control = 0;
  length = buffer_size % u32_mod;
  dst_addr = (get_or buffers i null_buffer).dma_addr;
  next_desc = 0;
  reserved = 0;
}

-- The loop of pfpga_init_descriptors: `n` rounds from index `i` on.
unfoldable pub fill_descriptors : ℕ → ℕ → ℕ → List Buffer → List SgDesc → List SgDesc
fill_descriptors zero i buffer_size buffers ring = ring
fill_descriptors (suc n) i buffer_size buffers ring =
    fill_descriptors n (i + 1) buffer_size buffers (set ring i (fresh_desc buffer_size buffers i))

-- Behind the guard of pfpga_init_descriptors: both pointers are set.
init_with : Option (List SgDesc) → Option (List Buffer) → Dev → Dev
init_with (some ring) (some buffers) d =
    let ring = fill_descriptors d.desc_count 0 d.buffer_size buffers ring in
    pfpga_submit_descriptors (sub32 d.desc_count 1) (record d { desc_ring = some ring })
init_with _ _ d = d

unfoldable pub pfpga_init_descriptors : Dev → Dev
unfolding init_with
pfpga_init_descriptors d = if d.desc_count == 0 then d else init_with d.desc_ring d.buffers d
