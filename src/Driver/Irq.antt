-- ===== src/Driver/Irq.antt =====
-- The three interrupt handlers. `true` is IRQ_HANDLED, `false` is IRQ_NONE.
use phantom_fpga_final_embed.Base.{bit_and, Bool, true, false, ◌==◌, if◌then◌else◌, add32, sub32}
use phantom_fpga_final_embed.Regs.{
  reg_irq_status, reg_desc_tail, irq_complete, irq_error, irq_no_desc,
}
use phantom_fpga_final_embed.Driver.State.{Dev, Env, wake_up, emit, pfpga_read32, pfpga_write32}

unfoldable pub pfpga_irq_complete : Env → Dev → Bool × Dev
pfpga_irq_complete env d =
    if bit_and (pfpga_read32 env reg_irq_status) irq_complete == 0
    then (false, d)
    else let d = pfpga_write32 reg_irq_status irq_complete d in
      let tail = bit_and (pfpga_read32 env reg_desc_tail) (sub32 d.desc_count 1) in
      let d = record d { shadow_tail = tail; desc_tail = tail; irq_count = add32 d.irq_count 1 } in
      (true, emit wake_up d)

unfoldable pub pfpga_irq_error : Env → Dev → Bool × Dev
pfpga_irq_error env d =
    if bit_and (pfpga_read32 env reg_irq_status) irq_error == 0
    then (false, d)
    else (true, emit wake_up (pfpga_write32 reg_irq_status irq_error d))

unfoldable pub pfpga_irq_no_desc : Env → Dev → Bool × Dev
pfpga_irq_no_desc env d =
    if bit_and (pfpga_read32 env reg_irq_status) irq_no_desc == 0
    then (false, d)
    else (true, emit wake_up (pfpga_write32 reg_irq_status irq_no_desc d))
