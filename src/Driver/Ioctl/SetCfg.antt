-- ===== src/Driver/Ioctl/SetCfg.antt =====
-- What SET_CFG answers, and the configuration it leaves.
use native.Mathlib.Nat.{mod_self}
use phantom_fpga_final_embed.Base.{
  ℕ, ◌-◌, ◌≡◌, ◌≤◌, ◌<◌, refl, sym, ◌∙◌, is_none, ◌⊎◌, inl, inr, true, false, some, get_or, bit_and,
  sub32, if_cases, arith,
}
use phantom_fpga_final_embed.Regs.{
  Config, min_desc_count, max_desc_count, min_frame_rate, max_frame_rate,
}
use phantom_fpga_final_embed.Regs.Ring.{IsRingSize, mask_lem}
use phantom_fpga_final_embed.Driver.State.{
  Dev, Env, Result, ok, err, ebusy, einval, enomem, elems, null_desc, failure,
}
use phantom_fpga_final_embed.Driver.Setup.{fresh_desc}
use phantom_fpga_final_embed.Driver.Setup.Fresh.{get_or-fill_descriptors}
use phantom_fpga_final_embed.Driver.Alloc.Resources.{
  Outcome, alloc-Outcome, accepted-IsRingSize, memory_granted, alloc_succeeds,
}
use phantom_fpga_final_embed.Driver.Ioctl.{
  Reply, nothing, bad_desc_count, bad_frame_rate, program, finish, apply, ioctl_set_cfg,
  phantomfpga_buffer_size,
}
use phantom_fpga_final_embed.Driver.Inv.{IsEmpty, IsAllocated, configured-IsAllocated}
use phantom_fpga_final_embed.Driver.Inv.Ioctl.{program-Inv}
use phantom_fpga_final_embed.Driver.Inv.Control.{program_lem}

-- The configurations of the documentation: a power of two of descriptors and a frame rate, both
-- within their bounds.
abbrev pub IsAccepted : Config → Type 0
IsAccepted cfg =
    IsRingSize cfg.desc_count
    × (min_desc_count ≤ cfg.desc_count)
    × (cfg.desc_count ≤ max_desc_count)
    × (min_frame_rate ≤ cfg.frame_rate)
    × (cfg.frame_rate ≤ max_frame_rate)

pub passes :
    (cfg : Config)
    → bad_desc_count cfg.desc_count ≡ false
    → bad_frame_rate cfg.frame_rate ≡ false
    → IsAccepted cfg
passes cfg g h =
    let range : (4 ≤ cfg.desc_count)
        × (cfg.desc_count ≤ 4096)
        × (1 ≤ cfg.frame_rate)
        × (cfg.frame_rate ≤ 60) =
      ground arith in
    (accepted-IsRingSize cfg.desc_count g, range.0, range.1, range.2, range.3)

count_refused : (cfg : Config) → bad_desc_count cfg.desc_count ≡ true → ¬ IsAccepted cfg
count_refused cfg g (r, lo, hi, _, _) =
    let mask : bit_and cfg.desc_count (sub32 cfg.desc_count 1) ≡ 0 =
      mask_lem r cfg.desc_count ∙ mod_self cfg.desc_count in
    ground arith

rate_refused : (cfg : Config) → bad_frame_rate cfg.frame_rate ≡ true → ¬ IsAccepted cfg
rate_refused cfg g (_, _, _, lo, hi) = ground arith

-- The device as SET_CFG leaves it: the settings, an idle device, and a ring whose descriptors point
-- at the buffers, are not completed, and all but one submitted.
pub record IsConfigured (cfg : Config) (d : Dev) : Type 0 where
  pub allocated : IsAllocated d
  pub count : d.desc_count ≡ cfg.desc_count
  pub rate : d.frame_rate ≡ cfg.frame_rate
  pub coalesce_count : d.irq_coalesce_count ≡ cfg.irq_coalesce_count
  pub coalesce_timeout : d.irq_coalesce_timeout ≡ cfg.irq_coalesce_timeout
  pub configured : d.configured ≡ true
  pub idle : d.streaming ≡ false
  pub at_start : d.consumer ≡ 0
  pub head : d.desc_head ≡ cfg.desc_count - 1
  pub descs :
      (i : ℕ)
      → i < cfg.desc_count
      → get_or (elems d.desc_ring) i null_desc ≡ fresh_desc d.buffer_size (elems d.buffers) i

program-IsConfigured :
    (cfg : Config) (d : Dev)
    → IsAllocated d
    → d.desc_count ≡ cfg.desc_count
    → IsConfigured cfg (program cfg d)
program-IsConfigured cfg d a n =
    let p = program_lem cfg d a in
    record {
      allocated = configured-IsAllocated (program-Inv cfg a) (ground (arith, p));
      count = ground (arith, p);
      rate = ground (arith, p);
      coalesce_count = ground (arith, p);
      coalesce_timeout = ground (arith, p);
      configured = ground (arith, p);
      idle = ground (arith, p);
      at_start = ground (arith, p);
      head = ground (arith, p);
      descs = λ i h. ground (
        arith,
        p,
        get_or-fill_descriptors d.buffer_size (elems d.buffers) d.desc_count 0 i (elems d.desc_ring)
            (omega arith) (omega arith) (omega (arith, a.ring_length)),
      );
    }

-- The four outcomes, each under its condition: streaming, a bad configuration, no memory, success.
abbrev pub Answer : Env → Config → Dev → Result Reply × Dev → Type 0
Answer env cfg d (r, e) =
    ((d.streaming ≡ true) × (r ≡ err ebusy) × (e ≡ d))
    ⊎ ((d.streaming ≡ false) × (¬ IsAccepted cfg) × (r ≡ err einval) × (e ≡ d))
    ⊎ ((d.streaming ≡ false)
        × IsAccepted cfg
        × (memory_granted env ≡ false)
        × (r ≡ err enomem)
        × IsEmpty e)
    ⊎ ((d.streaming ≡ false)
        × IsAccepted cfg
        × (memory_granted env ≡ true)
        × (r ≡ ok nothing)
        × IsConfigured cfg e)

finish-Answer :
    (env : Env) (cfg : Config) (d : Dev) (r : Result (Unit {0}) × Dev)
    → d.streaming ≡ false
    → IsAccepted cfg
    → Outcome cfg.desc_count d.streaming r
    → is_none (failure r.0) ≡ memory_granted env
    → Answer env cfg d (finish cfg r)
unfolding finish
finish-Answer env cfg d (ok _, e) idle acc (s, c, inl (_, a, n)) g =
    inr (inr (inr (idle, acc, sym g, refl, program-IsConfigured cfg e a n)))
finish-Answer env cfg d (ok _, e) idle acc (s, c, inr (x, _)) g = cc
finish-Answer env cfg d (err y, e) idle acc (s, c, inl (x, _, _)) g = cc
finish-Answer env cfg d (err y, e) idle acc (s, c, inr (x, m)) g =
    inr (inr (inl (idle, acc, sym g, ground arith, m)))

apply-Answer :
    (env : Env) (cfg : Config) (d : Dev) → d.streaming ≡ false → Answer env cfg d (apply env cfg d)
unfolding apply
apply-Answer env cfg d idle =
    if_cases (Answer env cfg d) (bad_desc_count cfg.desc_count)
      (λ bad. inr (inl (idle, count_refused cfg bad, refl, refl)))
      λ good.
        if_cases (Answer env cfg d) (bad_frame_rate cfg.frame_rate)
          (λ bad. inr (inl (idle, rate_refused cfg bad, refl, refl)))
          λ fine.
            finish-Answer env cfg d _ idle (passes cfg good fine)
              (alloc-Outcome env cfg.desc_count d good)
              (alloc_succeeds env cfg.desc_count phantomfpga_buffer_size d)

-- SET_CFG with a configuration that could be copied: EBUSY while the device streams; EINVAL, and no
-- change, if and only if the descriptor count is no power of two from 4 to 4096 or the frame rate
-- is not from 1 to 60; ENOMEM, and no resource left, if and only if one of the three allocations
-- fails then; success if and only if none of this is the case, and then the device has the settings,
-- is idle, and its fresh ring points at its buffers.
pub set_cfg-Answer :
    (env : Env) (cfg : Config) (d : Dev)
    → env.user_config ≡ some cfg
    → Answer env cfg d (ioctl_set_cfg env d)
unfolding ioctl_set_cfg
set_cfg-Answer env cfg d e =
    if_cases (Answer env cfg d) d.streaming (λ busy. inl (busy, refl, refl))
      λ idle. rw e (apply-Answer env cfg d idle)
