-- ===== src/Driver/Control.antt =====
-- Starting, stopping and resetting the device.
use phantom_fpga_final_embed.Base.{
  ◌-◌, bit_and, bit_or, Bool, true, false, not, if◌then◌else◌, u32_mod, ◌==◌, List, [], ◌∷◌,
}
use phantom_fpga_final_embed.Regs.{
  reg_desc_head, reg_irq_status, reg_ctrl, irq_all, ctrl_run, ctrl_irq_en, ctrl_reset,
}
use phantom_fpga_final_embed.Driver.State.{
  Dev, Io, iowrite32, Env, Result, ok, err, ebusy, einval, wake_up, udelay, emit, pfpga_read32,
  pfpga_write32,
}
use phantom_fpga_final_embed.Driver.Setup.{reset_indices, pfpga_init_descriptors}

-- What pfpga_start_streaming does once its two guards are passed.
unfoldable pub begin_streaming : Dev → Dev
begin_streaming d =
    let d = reset_indices d in
    let d = pfpga_write32 reg_desc_head 0 d in
    let d = pfpga_init_descriptors d in
    let d = pfpga_write32 reg_irq_status irq_all d in
    let d = pfpga_write32 reg_ctrl (bit_or ctrl_run ctrl_irq_en) d in record d { streaming = true }

unfoldable pub pfpga_start_streaming : Dev → Result (Unit {0}) × Dev
pfpga_start_streaming d =
    if not d.configured
    then (err einval, d)
    else if d.streaming
    then (err ebusy, d)
    else (ok tt, begin_streaming d)

unfoldable pub pfpga_stop_streaming : Env → Dev → Result (Unit {0}) × Dev
pfpga_stop_streaming env d =
    let ctrl = bit_and (pfpga_read32 env reg_ctrl) (u32_mod - 1 - ctrl_run) in
    let d = pfpga_write32 reg_ctrl ctrl d in (ok tt, emit wake_up (record d { streaming = false }))

unfoldable pub pfpga_soft_reset : Dev → Dev
pfpga_soft_reset d =
    let d = emit (udelay 10) (pfpga_write32 reg_ctrl ctrl_reset d) in
    reset_indices (record d { streaming = false })

-- The RUN bit as the driver wrote it last; the bit is clear before.
abbrev write_run : Io → Bool → Bool
write_run (iowrite32 offset val) before =
    if offset == reg_ctrl then not (bit_and val ctrl_run == 0) else before
write_run _ before = before

abbrev pub runs : List Io → Bool
runs [] = false
runs (e ∷ io) = write_run e (runs io)
