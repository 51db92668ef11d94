-- ===== src/Driver/Overlap.antt =====
-- Two overlapping reads. pfpga_read takes no mutex, and gives up its spin lock between the region
-- that looks at the ring (`snapshot`) and the one that gives the descriptor back (`advance`).
use native.Mathlib.Nat.{mod-lt}
use phantom_fpga_final_embed.Base.{ℕ, ◌+◌, ◌%◌, ◌≡◌, refl, ◌∙◌, ap, sym, true, arith}
use phantom_fpga_final_embed.Regs.Ring.{IsRingSize, mod_once}
use phantom_fpga_final_embed.Driver.State.{Dev, Env}
use phantom_fpga_final_embed.Driver.Frames.{snapshot, frame_length, advance}
use phantom_fpga_final_embed.Driver.Inv.{
  Inv, IsAllocated, Same-IsAllocated, quiet-Inv, configured-IsAllocated,
}
use phantom_fpga_final_embed.Driver.Inv.Frames.{advance_lem}

-- Both reads have looked at the ring before either gives its descriptor back: the index that each
-- has copied from, and the state at the end.
abbrev pub overlap : Env → Env → Dev → ℕ × ℕ × Dev
overlap env1 env2 d =
    let first = snapshot env1 d in
    let second = snapshot env2 first.dev in
    let d = advance first.head (frame_length env1 first.dev first.head) second.dev in
    (first.head, second.head, advance second.head (frame_length env2 second.dev second.head) d)

-- The state after the second `advance`, in closed form.
record IsDoubled (d e : Dev) : Type 0 where
  count : e.desc_count ≡ d.desc_count
  consumer : e.consumer ≡ (d.consumer + 1) % d.desc_count
  head : e.desc_head ≡ ((d.desc_head + 1) % d.desc_count + 1) % d.desc_count
  configured : e.configured ≡ d.configured

twice_lem :
    (m n : ℕ) (d : Dev)
    → IsRingSize d.desc_count
    → IsDoubled d (advance d.consumer n (advance d.consumer m d))
twice_lem m n d r =
    let p = advance_lem d.consumer m d r in
    ground (arith, p, advance_lem d.consumer n (advance d.consumer m d) (rw p r))

overtaken :
    (d e : Dev)
    → Inv d
    → IsAllocated d
    → d.configured ≡ true
    → IsDoubled d e
    → (e.desc_head ≡ e.consumer) × (¬ Inv e)
overtaken d e v a conf t = (
  caught_up,
  λ w.
      let free : (e.desc_head + 1) % e.desc_count ≡ e.consumer = w.one_free (t.configured ∙ conf) in
      ground (
        arith,
        free,
        t,
        a.count_ge,
        caught_up,
        mod-lt (d.consumer + 1) {m = d.desc_count} (omega (arith, a.count_ge)),
        mod_once (e.consumer + 1) d.desc_count (
            omega (
              arith,
              t.consumer,
              a.count_ge,
              mod-lt (d.consumer + 1) {m = d.desc_count} (omega (arith, a.count_ge)),
            )),
      ),
)
  where
    caught_up : e.desc_head ≡ e.consumer
    caught_up = t.head ∙ ap (λ (x : ℕ). (x + 1) % d.desc_count) (v.one_free conf) ∙ sym t.consumer

-- If two reads both look at the ring before either gives its descriptor back, both deliver the
-- buffer of the same descriptor. The consumer goes one descriptor further, but two are handed to the
-- device, so that the head catches up with the consumer, and the ring is no longer in a state that
-- the invariant allows.
pub overlap_breaks :
    (env1 env2 : Env) (d : Dev)
    → Inv d
    → d.configured ≡ true
    → let (i, j, e) = overlap env1 env2 d in
      (i ≡ j)
      × (e.consumer ≡ (d.consumer + 1) % d.desc_count)
      × (e.desc_head ≡ e.consumer)
      × (¬ Inv e)
unfolding snapshot
overlap_breaks env1 env2 d v conf =
    let a = configured-IsAllocated v conf in
    let seen : Dev = (snapshot env2 d).dev in
    let w : Inv seen = quiet-Inv v (ground arith) refl in
    let t =
      twice_lem (frame_length env1 (snapshot env1 d).dev d.consumer)
        (frame_length env2 seen d.consumer) seen a.size in
    let o = overtaken seen _ w (Same-IsAllocated (ground arith) a a.consumer_in) conf t in
    (refl, t.consumer, o.0, o.1)
