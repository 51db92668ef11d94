-- ===== src/App/ZeroCopy.antt =====
-- The branch of --zero-copy with the driver behind it: the index of the loop and the consumer of the
-- driver, and which buffer a frame is taken from.
pub mod Session
use phantom_fpga_final_embed.Base.{
  ℕ, ◌+◌, ◌*◌, ◌%◌, ◌≤◌, ◌≡◌, ◌⊎◌, refl, sym, ap, subst, ◌∙◌, inl, inr, Bool, true, false, List,
  Option, none, some, if_cases, ◌==◌, ltb, add32, add64, u64_mod, tabulate-ext, arith,
}
use phantom_fpga_final_embed.Regs.{frame_size}
use phantom_fpga_final_embed.Driver.State.{
  Dev, Env, Errno, Result, ok, err, eagain, code, buffer_at,
}
use phantom_fpga_final_embed.Driver.Frames.{load, consume_frame}
use phantom_fpga_final_embed.Driver.Frames.Consume.{Consumes, consume_frame-Consumes}
use phantom_fpga_final_embed.Driver.Inv.{Inv, IsAllocated, pool_of, configured-IsAllocated}
use phantom_fpga_final_embed.Driver.Inv.Frames.{consume-Inv}
use phantom_fpga_final_embed.Driver.Inv.Buffers.{buffer_at_lem}
use phantom_fpga_final_embed.App.{App, on_server, on_some_server, TcpServer, Effect}
use phantom_fpga_final_embed.App.Server.{Send}
use phantom_fpga_final_embed.App.Frames.{judge, counted, send_to_client, process_frame}
use phantom_fpga_final_embed.App.Loop.{
  Turn, Answer, failed, gives, Looping, processed, after_consume, take_mapped,
}

-- The answer that the loop gets from the ioctl.
abbrev pub is_again : Errno → Bool
is_again eagain = true
is_again (code n) = n == 4
is_again _ = false

abbrev pub answer_of : Result (Unit {0}) → Answer (Unit {0})
answer_of (ok u) = gives u
answer_of (err e) = failed (is_again e)

-- An iteration where the pool is the driver's and the ioctl is its handler: byte o of the mapping is
-- byte o of the pool.
abbrev pub mapped_turn : Env → Dev → Turn → Turn
mapped_turn env d t = record t {
  pool = λ o. env.mem (add64 (pool_of d.buffer_pool) o);
  consume = answer_of (consume_frame env d).0;
}

-- What setup_mmap and START have brought about, and every round keeps.
pub record Aligned (l : Looping) (d : Dev) : Type 0 where
  pub driver : Inv d
  pub configured : d.configured ≡ true
  pub streaming : d.streaming ≡ true
  pub no_wrap : pool_of d.buffer_pool + d.buffer_pool_size ≤ u64_mod
  pub index : l.mmap_index ≡ d.consumer
  pub each : l.app.config.buffer_size ≡ d.buffer_size
  pub count : l.app.config.desc_count ≡ d.desc_count

on_server-config :
    (g : TcpServer × List Effect → TcpServer × List Effect) (a : App)
    → (on_server g a).config ≡ a.config
on_server-config g a = go a.tcp_server
  where
    go : (o : Option TcpServer) → (on_some_server g o a).config ≡ a.config
    go none = refl
    go (some s) = refl

process_frame-config :
    (first second : Send) (f : List ℕ) (a : App)
    → (process_frame first second f a).config ≡ a.config
unfolding process_frame
process_frame-config first second f a =
    if_cases (λ (x : App). x.config ≡ a.config) (judge f a).0
      (λ _. on_server-config (send_to_client first second f) (counted f a)) (λ _. refl)

-- The bytes at the index of the loop are those of the consumer's buffer.
mapped_bytes :
    (env : Env) (l : Looping) (d : Dev)
    → Aligned l d
    → load
        (λ o. env.mem (add64 (pool_of d.buffer_pool) o))
        (l.mmap_index * l.app.config.buffer_size)
        frame_size
      ≡ load env.mem (buffer_at d d.consumer).vaddr frame_size
unfolding load
mapped_bytes env l d h =
    let a = configured-IsAllocated h.driver h.configured in
    let pool = pool_of d.buffer_pool in
    let offset : l.mmap_index * l.app.config.buffer_size ≡ d.consumer * 5136 =
      ap (λ i. i * l.app.config.buffer_size) h.index
      ∙ ap (λ n. d.consumer * n) (h.each ∙ a.buffer_fits) in
    let address : add64 pool (d.consumer * 5136) ≡ (buffer_at d d.consumer).vaddr =
      ap (λ n. add64 pool (d.consumer * n)) (sym a.buffer_fits)
      ∙ sym (ap (λ b. b.vaddr) (buffer_at_lem d.consumer a a.consumer_in)) in
    ap (λ o. load (λ o. env.mem (add64 pool o)) o frame_size) offset
    ∙ tabulate-ext frame_size (d.consumer * 5136) (add64 pool (d.consumer * 5136))
        (λ o. env.mem (add64 pool o)) env.mem
        (λ k lt. ap env.mem (omega (arith, h.no_wrap, a.pool_fits, a.consumer_in)))
    ∙ ap (λ p. load env.mem p frame_size) address

-- What a round does: the frame of the consumer's buffer is processed, and loop and driver stay aligned.
abbrev pub Round : Env → Turn → Looping → Dev → Looping → Dev → Type 0
Round env t l d m e =
    (m.app
      ≡ process_frame t.first_send t.second_send
          (load env.mem (buffer_at d d.consumer).vaddr frame_size) l.app)
    × Aligned m e

-- The loop after the frame, before the index moves on.
after_frame :
    (env : Env) (t : Turn) (l m : Looping) (d e : Dev) (f : List ℕ)
    → Aligned l d
    → Inv e
    → Consumes d e (consume_frame env d).0
    → m.app ≡ process_frame t.first_send t.second_send f l.app
    → m.mmap_index ≡ e.consumer
    → Aligned m e
after_frame env t l m d e f h v c same index = record {
  driver = v;
  configured = c.configured ∙ h.configured;
  streaming = c.streaming ∙ h.streaming;
  no_wrap = omega (arith, h.no_wrap, ap pool_of c.pool, c.pool_size);
  index = index;
  each = ap (λ x. x.config.buffer_size) same ∙ ap (λ x. x.buffer_size) kept ∙ h.each ∙ sym c.each;
  count = ap (λ x. x.config.desc_count) same ∙ ap (λ x. x.desc_count) kept ∙ h.count ∙ sym c.count;
}
  where
    kept : (process_frame t.first_send t.second_send f l.app).config ≡ l.app.config
    kept = process_frame-config t.first_send t.second_send f l.app

-- The index after one more, as the driver computes its consumer.
next_index :
    (l : Looping) (d : Dev)
    → Aligned l d
    → add32 l.mmap_index 1 % l.app.config.desc_count ≡ (d.consumer + 1) % d.desc_count
next_index l d h =
    let a = configured-IsAllocated h.driver h.configured in
    let small : add32 l.mmap_index 1 ≡ d.consumer + 1 =
      omega (arith, h.index, a.consumer_in, a.count_le) in
    ap (λ i. i % l.app.config.desc_count) small ∙ ap (λ n. (d.consumer + 1) % n) h.count

-- One round with --zero-copy, where loop and driver are aligned: the driver is configured and streams and
-- keeps its invariant, the loop has its sizes, and the index is the consumer. The frame that is
-- processed is the one in the buffer of the consumer, from which a read would copy, and after
-- CONSUME_FRAME, whether it has given the frame back or says EAGAIN, loop and driver are aligned again.
pub mapped_as_read :
    (env : Env) (t : Turn) (l : Looping) (d : Dev)
    → Aligned l d
    → Round env t l d (take_mapped (mapped_turn env d t) l) (consume_frame env d).1
unfolding take_mapped
mapped_as_read env t l d h =
    if_cases (λ m. Round env t l d m e) (ltb l.app.config.buffer_size frame_size)
      (λ small. absurd (too_small small)) (λ _. by_outcome c.outcome)
  where
    a : IsAllocated d
    a = configured-IsAllocated h.driver h.configured

    e : Dev
    e = (consume_frame env d).1

    c : Consumes d e (consume_frame env d).0
    c = consume_frame-Consumes env d a h.streaming

    p : Looping
    p =
        processed (mapped_turn env d t)
          (load (λ o. env.mem (add64 (pool_of d.buffer_pool) o))
            (l.mmap_index * l.app.config.buffer_size) frame_size)
          l

    next : ℕ
    next = add32 l.mmap_index 1 % l.app.config.desc_count

    same :
        p.app
        ≡ process_frame t.first_send t.second_send
            (load env.mem (buffer_at d d.consumer).vaddr frame_size)
            l.app
    same = ap (λ f. process_frame t.first_send t.second_send f l.app) (mapped_bytes env l d h)

    too_small : ltb l.app.config.buffer_size frame_size ≡ true → ⊥
    too_small small = cc (sym (ap (λ n. ltb n frame_size) (h.each ∙ a.buffer_fits)) ∙ small)

    keeps : (m : Looping) → m.app ≡ p.app → m.mmap_index ≡ e.consumer → Round env t l d m e
    keeps m q i =
        (q ∙ same, after_frame env t l m d e _ h (consume-Inv env h.driver) c (q ∙ same) i)

    by_outcome :
        (((consume_frame env d).0 ≡ ok tt) × (e.consumer ≡ (d.consumer + 1) % d.desc_count))
          ⊎ (((consume_frame env d).0 ≡ err eagain) × (e.consumer ≡ d.consumer))
        → Round env t l d (after_consume (answer_of (consume_frame env d).0) next p) e
    by_outcome (inl (r, moves)) =
        subst (λ x. Round env t l d (after_consume (answer_of x) next p) e) (sym r)
          (keeps (record p { mmap_index = next }) refl (next_index l d h ∙ sym moves))
    by_outcome (inr (r, stays)) =
        subst (λ x. Round env t l d (after_consume (answer_of x) next p) e) (sym r)
          (keeps p refl (h.index ∙ sym stays))
