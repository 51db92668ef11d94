-- ===== src/App/Settings.antt =====
-- The settings that the command line can make, and what the driver says to them.
use phantom_fpga_final_embed.Base.{
  ◌%◌, ◌≡◌, ◌↔◌, refl, ap, ◌⊎◌, inl, inr, Bool, true, false, List, [], ◌∷◌, Option, none, some,
  if◌then◌else◌, u32_mod, subst,
}
use phantom_fpga_final_embed.Driver.State.{Dev, Env, Result, ok, err, enomem}
use phantom_fpga_final_embed.Driver.Inv.{IsEmpty}
use phantom_fpga_final_embed.Driver.Ioctl.{Reply, nothing, ioctl_set_cfg}
use phantom_fpga_final_embed.Driver.Ioctl.SetCfg.{
  IsAccepted, IsConfigured, Answer, passes, set_cfg-Answer,
}
use phantom_fpga_final_embed.Driver.Mmap.Pages.{Mappable, allocated-Mappable}
use phantom_fpga_final_embed.App.{AppConfig}
use phantom_fpga_final_embed.App.Options.{
  Opt, frame_rate, desc_count, no_crc, stats, verbose, zero_copy, version, help, unknown,
  tcp_server, Verdict, proceed, exit_cleanly, usage_error, bad_rate, bad_count, strtoul,
  apply_option, parse_arguments, finish_option, default_config,
}
use phantom_fpga_final_embed.App.Run.{configure_device}

-- Both tests are passed.
abbrev Checked : AppConfig → Type 0
Checked c = (bad_count c.desc_count ≡ false) × (bad_rate c.frame_rate ≡ false)

-- If an option lets the loop go on.
abbrev lets_go : Option Verdict → Bool
lets_go none = true
lets_go (some proceed) = true
lets_go (some exit_cleanly) = false
lets_go (some usage_error) = false

abbrev Goes : Option Verdict × AppConfig → Type 0
Goes (v, c) = lets_go v ≡ true → Checked c

tested : (b : Bool) → lets_go (if b then some usage_error else none) ≡ true → b ≡ false
tested true e = cc
tested false e = refl

apply_option-Goes : (o : Opt) (c : AppConfig) → Checked c → Goes (apply_option o c)
unfolding apply_option
apply_option-Goes (frame_rate text) c (n, r) e = (n, tested (bad_rate (strtoul text % u32_mod)) e)
apply_option-Goes (desc_count text) c (n, r) e = (tested (bad_count (strtoul text % u32_mod)) e, r)
apply_option-Goes no_crc c h e = h
apply_option-Goes stats c h e = h
apply_option-Goes verbose c h e = h
apply_option-Goes zero_copy c h e = h
apply_option-Goes version c h e = cc
apply_option-Goes help c h e = cc
apply_option-Goes unknown c h e = cc
apply_option-Goes (tcp_server none) c h e = h
apply_option-Goes (tcp_server (some text)) c h e = h

abbrev Ends : Verdict × AppConfig → Type 0
Ends (v, c) = v ≡ proceed → Checked c

finish_option-Ends :
    (x : Option Verdict × AppConfig) (next : AppConfig → Verdict × AppConfig)
    → Goes x
    → ((c : AppConfig) → Checked c → Ends (next c))
    → Ends (finish_option x next)
finish_option-Ends (none, c) next g later = later c (g refl)
finish_option-Ends (some v, c) next g later = λ e. g (ap (λ t. lets_go (some t)) e)

parse_arguments-Ends : (os : List Opt) (c : AppConfig) → Checked c → Ends (parse_arguments os c)
unfolding parse_arguments
parse_arguments-Ends [] c h = λ _. h
parse_arguments-Ends (o ∷ os) c h =
    finish_option-Ends (apply_option o c) (parse_arguments os) (apply_option-Goes o c h)
      (parse_arguments-Ends os)

-- SET_CFG as configure_device calls it: no memory and no resource left, or success with the settings
-- of the options.
abbrev pub Configures : AppConfig → Env → Dev → Type 0
Configures c env d =
    let (r, e) = ioctl_set_cfg env d in
    ((r ≡ err enomem) × IsEmpty e)
    ⊎ ((r ≡ ok nothing)
        × IsConfigured (configure_device c) e
        × (Mappable e ↔ (c.desc_count % 256 ≡ 0)))

-- What the options let through, the driver takes: if parse_arguments returns 0, SET_CFG with the
-- settings and a device that does not stream fails for want of memory only. If it succeeds, the device
-- has the settings, and the pool can be mapped, as setup_mmap goes on to do, if and only if the
-- descriptor count is a multiple of 256: a smaller one that the options accept ends in an error there.
pub options_fit_driver :
    (os : List Opt) (c : AppConfig) (env : Env) (d : Dev)
    → parse_arguments os default_config ≡ (proceed, c)
    → d.streaming ≡ false
    → env.user_config ≡ some (configure_device c)
    → Configures c env d
options_fit_driver os c env d e idle request =
    by_answer (ioctl_set_cfg env d) (set_cfg-Answer env (configure_device c) d request)
  where
    checked : Checked c
    checked =
        subst Checked (ap (λ x. x.1) e)
          (parse_arguments-Ends os default_config (refl, refl) (ap (λ x. x.0) e))

    accepted : IsAccepted (configure_device c)
    accepted = passes (configure_device c) checked.0 checked.1

    by_answer :
        (x : Result Reply × Dev)
        → Answer env (configure_device c) d x
        → ((x.0 ≡ err enomem) × IsEmpty x.1)
          ⊎ ((x.0 ≡ ok nothing)
              × IsConfigured (configure_device c) x.1
              × (Mappable x.1 ↔ (c.desc_count % 256 ≡ 0)))
    by_answer (r, x) (inl (busy, _, _)) = cc
    by_answer (r, x) (inr (inl (_, refused, _, _))) = absurd (refused accepted)
    by_answer (r, x) (inr (inr (inl (_, _, _, y, empty)))) = inl (y, empty)
    by_answer (r, x) (inr (inr (inr (_, _, _, y, z)))) = inr (
      y,
      z,
      subst (λ n. Mappable x ↔ (n % 256 ≡ 0)) z.count (allocated-Mappable z.allocated z.configured),
    )
