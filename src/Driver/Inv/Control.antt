-- ===== src/Driver/Inv/Control.antt =====
-- Starting, stopping and resetting keep the invariant of the device.
use native.Mathlib.Nat.{mod-eq_of_lt, mod_self}
use phantom_fpga_final_embed.Base.{
  ℕ, ◌+◌, ◌-◌, ◌%◌, ◌≡◌, refl, ap, ◌∙◌, inr, true, false, some, List, ◌∷◌, arith, sym, not,
  if_cases, length, upper_32_bits, lower_32_bits,
}
use phantom_fpga_final_embed.Regs.{
  SgDesc, Config, reg_desc_head, reg_irq_status, reg_ctrl, irq_all, ctrl_reset, reg_desc_ring_size,
  reg_desc_ring_hi, reg_desc_ring_lo, reg_irq_mask, reg_irq_coalesce, reg_frame_rate,
}
use phantom_fpga_final_embed.Regs.Coalesce.{irq_coalesce_pack}
use phantom_fpga_final_embed.Driver.State.{Dev, Env, iowrite32, wmb, udelay, elems, pfpga_write32}
use phantom_fpga_final_embed.Driver.Setup.{
  reset_indices, fill_descriptors, pfpga_init_descriptors, pfpga_apply_config,
  pfpga_configure_desc_ring,
}
use phantom_fpga_final_embed.Driver.Control.{
  begin_streaming, pfpga_start_streaming, pfpga_stop_streaming, pfpga_soft_reset,
}
use phantom_fpga_final_embed.Driver.Ioctl.{program}
use phantom_fpga_final_embed.Driver.Inv.{
  Alike-Inv, IsAllocated, Inv, Leaves, Same, Same-IsAllocated, init_lem, length-fill_descriptors,
  configured-IsAllocated,
}

-- The ring after a reset of the indices and pfpga_init_descriptors.
abbrev pub fresh_ring : Dev → List SgDesc
fresh_ring d = fill_descriptors d.desc_count 0 d.buffer_size (elems d.buffers) (elems d.desc_ring)

-- From head 0, all descriptors but one are submitted.
pub init_fresh :
    (d : Dev)
    → IsAllocated d
    → d.desc_head ≡ 0
    → pfpga_init_descriptors d ≡ record d {
      desc_ring = some (fresh_ring d);
      desc_head = d.desc_count - 1;
      io = iowrite32 reg_desc_head (d.desc_count - 1) ∷ wmb ∷ d.io;
    }
init_fresh d a z =
    ground
      (arith, init_lem d a, mod-eq_of_lt {n = d.desc_count - 1} {m = d.desc_count} (omega arith))

pub length-fresh_ring : (d : Dev) → length (fresh_ring d) ≡ length (elems d.desc_ring)
length-fresh_ring d =
    length-fill_descriptors d.desc_count 0 d.buffer_size (elems d.buffers) (elems d.desc_ring)

-- What a state with a fresh ring needs, to be configured.
pub fresh-Inv :
    (d e : Dev)
    → IsAllocated d
    → Same d e
    → e.consumer ≡ 0
    → e.desc_head ≡ d.desc_count - 1
    → e.configured ≡ true
    → Inv e
fresh-Inv d e a s c h conf = record {
  resources = inr (Same-IsAllocated s a (omega (arith, a.count_ge)));
  one_free = λ _. wraps;
  running = λ _. conf;
}
  where
    last : e.desc_head + 1 ≡ e.desc_count
    last = omega (arith, s.count, a.count_ge)

    wraps : (e.desc_head + 1) % e.desc_count ≡ e.consumer
    wraps = ap (λ (t : ℕ). t % e.desc_count) last ∙ mod_self e.desc_count ∙ sym c

pub begin_lem :
    (d : Dev)
    → IsAllocated d
    → begin_streaming d ≡ record d {
      desc_ring = some (fresh_ring d);
      desc_head = d.desc_count - 1;
      desc_tail = 0;
      shadow_tail = 0;
      consumer = 0;
      streaming = true;
      io =
          iowrite32 reg_ctrl 5
          ∷ iowrite32 reg_irq_status irq_all
          ∷ iowrite32 reg_desc_head (d.desc_count - 1)
          ∷ wmb
          ∷ iowrite32 reg_desc_head 0
          ∷ d.io;
    }
unfolding begin_streaming
begin_lem d a = cc (init_fresh ready (Same-IsAllocated same a (omega (arith, a.count_ge))) refl)
  where
    ready : Dev
    ready = pfpga_write32 reg_desc_head 0 (reset_indices d)

    same : Same d ready
    same = ground arith

pub begin-Inv : {d : Dev} → Inv d → d.configured ≡ true → Inv (begin_streaming d)
begin-Inv {d} v conf =
    let a = configured-IsAllocated v conf in
    rw (begin_lem d a) (fresh-Inv d _ a (ground (arith, length-fresh_ring d)) refl refl conf)

-- Starting a configured device keeps the invariant; so does a start that is refused.
pub start-Inv : {d : Dev} → Inv d → Inv (pfpga_start_streaming d).1
unfolding pfpga_start_streaming
start-Inv {d} v =
    if_cases Leaves (not d.configured) (λ _. v)
      λ conf. if_cases Leaves d.streaming (λ _. v) λ _. begin-Inv v (ground arith)

pub stop-Inv : {d : Dev} (env : Env) → Inv d → Inv (pfpga_stop_streaming env d).1
unfolding pfpga_stop_streaming
stop-Inv env v = Alike-Inv (ground arith) v (λ h. cc)

-- Programming a device that has its resources: the registers in this order, the last on top.
pub program_lem :
    (cfg : Config) (d : Dev)
    → IsAllocated d
    → program cfg d ≡ record d {
      desc_ring = some (fresh_ring d);
      frame_rate = cfg.frame_rate;
      irq_coalesce_count = cfg.irq_coalesce_count;
      irq_coalesce_timeout = cfg.irq_coalesce_timeout;
      configured = true;
      streaming = false;
      desc_head = d.desc_count - 1;
      desc_tail = 0;
      shadow_tail = 0;
      consumer = 0;
      io =
          iowrite32 reg_desc_head (d.desc_count - 1)
          ∷ wmb
          ∷ iowrite32 reg_desc_head 0
          ∷ iowrite32 reg_desc_ring_size d.desc_count
          ∷ iowrite32 reg_desc_ring_hi (upper_32_bits d.desc_ring_dma)
          ∷ iowrite32 reg_desc_ring_lo (lower_32_bits d.desc_ring_dma)
          ∷ iowrite32 reg_irq_mask irq_all
          ∷ iowrite32 reg_irq_coalesce
              (irq_coalesce_pack cfg.irq_coalesce_count cfg.irq_coalesce_timeout)
          ∷ iowrite32 reg_frame_rate cfg.frame_rate
          ∷ udelay 10
          ∷ iowrite32 reg_ctrl ctrl_reset
          ∷ d.io;
    }
unfolding program pfpga_soft_reset pfpga_apply_config pfpga_configure_desc_ring
program_lem cfg d a =
    cc (init_fresh ready (Same-IsAllocated same a (omega (arith, a.count_ge))) refl)
  where
    ready : Dev
    ready = pfpga_configure_desc_ring (
        pfpga_apply_config (
          pfpga_soft_reset (record d {
            frame_rate = cfg.frame_rate;
            irq_coalesce_count = cfg.irq_coalesce_count;
            irq_coalesce_timeout = cfg.irq_coalesce_timeout;
          })))

    same : Same d ready
    same = ground arith
