-- ===== src/Driver/Frames/Consume.antt =====
-- CONSUME_FRAME on a device that streams: where it leaves the consumer, and what it leaves alone.
use phantom_fpga_final_embed.Base.{
  ℕ, ◌+◌, ◌%◌, ◌≡◌, ◌⊎◌, refl, sym, ap, ◌∙◌, inl, inr, true, not, if_cases, arith,
}
use phantom_fpga_final_embed.Driver.State.{Dev, Env, Result, ok, err, eagain}
use phantom_fpga_final_embed.Driver.Frames.{
  snapshot, has_frame, frame_length, advance, consume_frame, no_resources,
}
use phantom_fpga_final_embed.Driver.Frames.Take.{resources_there}
use phantom_fpga_final_embed.Driver.Inv.{IsAllocated}
use phantom_fpga_final_embed.Driver.Inv.Frames.{advance_lem}

-- What CONSUME_FRAME does for a device that streams: it moves the consumer on, or says EAGAIN.
pub record Consumes (d e : Dev) (r : Result (Unit {0})) : Type 0 where
  pub outcome :
      ((r ≡ ok tt) × (e.consumer ≡ (d.consumer + 1) % d.desc_count))
      ⊎ ((r ≡ err eagain) × (e.consumer ≡ d.consumer))
  pub buffers : e.buffers ≡ d.buffers
  pub pool : e.buffer_pool ≡ d.buffer_pool
  pub pool_size : e.buffer_pool_size ≡ d.buffer_pool_size
  pub each : e.buffer_size ≡ d.buffer_size
  pub count : e.desc_count ≡ d.desc_count
  pub configured : e.configured ≡ d.configured
  pub streaming : e.streaming ≡ d.streaming

-- The branch that gives a frame back.
given_back :
    (len tail : ℕ) (d : Dev)
    → IsAllocated d
    → Consumes d (advance d.consumer len (record d { shadow_tail = tail })) (ok tt)
given_back len tail d a =
    let p = advance_lem d.consumer len (record d { shadow_tail = tail }) a.size in
    record {
      outcome = inl (refl, ap (λ x. x.consumer) p);
      buffers = ap (λ x. x.buffers) p;
      pool = ap (λ x. x.buffer_pool) p;
      pool_size = ap (λ x. x.buffer_pool_size) p;
      each = ap (λ x. x.buffer_size) p;
      count = ap (λ x. x.desc_count) p;
      configured = ap (λ x. x.configured) p;
      streaming = ap (λ x. x.streaming) p;
    }

pub consume_frame-Consumes :
    (env : Env) (d : Dev)
    → IsAllocated d
    → d.streaming ≡ true
    → Consumes d (consume_frame env d).1 (consume_frame env d).0
unfolding consume_frame snapshot
consume_frame-Consumes env d a s =
    let x = snapshot env d in
    let P : Result (Unit {0}) × Dev → Type 0 = λ r. Consumes d r.1 r.0 in
    if_cases P (not d.streaming) (λ off. absurd (ground arith))
      (λ _.
        if_cases P (no_resources d) (λ missing. cc (sym (resources_there d a) ∙ missing))
          (λ _.
            if_cases P (has_frame x)
              (λ _. given_back (frame_length env x.dev d.consumer) x.dev.shadow_tail d a)
              (λ _. record {
                outcome = inr (refl, refl);
                buffers = refl;
                pool = refl;
                pool_size = refl;
                each = refl;
                count = refl;
                configured = refl;
                streaming = refl;
              })))
