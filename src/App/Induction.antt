-- ===== src/App/Induction.antt =====
-- Induction over main_loop: what every call on the server and every frame keeps, the loop keeps.
use phantom_fpga_final_embed.Base.{
  ℕ, ◌*◌, ◌%◌, Option, Bool, true, false, not, List, [], ◌∷◌, if_cases, ◌==◌, ltb, ◌&&◌, ◌||◌,
  length, add32,
}
use phantom_fpga_final_embed.Regs.{frame_size}
use phantom_fpga_final_embed.Driver.Frames.{load}
use phantom_fpga_final_embed.App.{App, on_server}
use phantom_fpga_final_embed.App.Server.{Send, try_accept}
use phantom_fpga_final_embed.App.Frames.{process_frame}
use phantom_fpga_final_embed.App.Loop.{
  Turn, Answer, Poll, poll_failed, timed_out, ready, failed, gives, Looping, retry_or_leave,
  processed, after_consume, take_mapped, after_read, after_poll, iterate, loop, main_loop,
}

module _ {ℓ} (P : App → Type ℓ)
    (accepts : (accepted : Option ℕ) (a : App) → P a → P (on_server (try_accept accepted) a))
    (processes : (first second : Send) (frame : List ℕ) (a : App)
      → P a
      → P (process_frame first second frame a))
    (signals : (b : Bool) (a : App) → P a → P (record a { running = b })) where
  Kept : Looping → Type ℓ
  Kept l = P l.app

  retry_or_leave-Kept : (again : Bool) (l : Looping) → P l.app → P (retry_or_leave again l).app
  retry_or_leave-Kept true l h = h
  retry_or_leave-Kept false l h = h

  after_consume-Kept :
      (x : Answer (Unit {0})) (next : ℕ) (l : Looping) → P l.app → P (after_consume x next l).app
  after_consume-Kept (failed again) next l h = retry_or_leave-Kept again l h
  after_consume-Kept (gives _) next l h = h

  take_mapped-Kept : (t : Turn) (l : Looping) → P l.app → P (take_mapped t l).app
  unfolding take_mapped
  take_mapped-Kept t l h =
      let frame = load t.pool (l.mmap_index * l.app.config.buffer_size) frame_size in
      let next = add32 l.mmap_index 1 % l.app.config.desc_count in
      if_cases (λ (x : Looping). P x.app) (ltb l.app.config.buffer_size frame_size) (λ _. h)
        (λ _.
          after_consume-Kept t.consume next (processed t frame l)
            (processes t.first_send t.second_send frame l.app h))

  after_read-Kept :
      (x : Answer (List ℕ)) (t : Turn) (l : Looping) → P l.app → P (after_read x t l).app
  unfolding after_read
  after_read-Kept (failed again) t l h = retry_or_leave-Kept again l h
  after_read-Kept (gives bytes) t l h =
      if_cases (λ (x : Looping). P x.app) (length bytes == 0) (λ _. h)
        (λ _. processes t.first_send t.second_send bytes l.app h)

  after_poll-Kept : (x : Poll) (t : Turn) (l : Looping) → P l.app → P (after_poll x t l).app
  unfolding after_poll
  after_poll-Kept (poll_failed again) t l h = retry_or_leave-Kept again l h
  after_poll-Kept timed_out t l h = h
  after_poll-Kept (ready bad readable) t l h =
      let Q : Looping → Type ℓ = λ x. P x.app in
      if_cases Q bad (λ _. h)
        (λ _.
          if_cases Q (not readable) (λ _. h)
            (λ _.
              if_cases Q l.app.config.zero_copy (λ _. take_mapped-Kept t l h)
                (λ _. after_read-Kept t.read t l h)))

  iterate-Kept : (t : Turn) (l : Looping) → P l.app → P (iterate t l).app
  unfolding iterate
  iterate-Kept t l h =
      let start = record l { app = on_server (try_accept t.accepted) l.app } in
      let end = after_poll t.poll t start in
      signals (end.app.running && not t.signal) end.app
        (after_poll-Kept t.poll t start (accepts t.accepted l.app h))

  loop-Kept : (ts : List Turn) (l : Looping) → P l.app → P (loop ts l).app
  unfolding loop
  loop-Kept [] l h = h
  loop-Kept (t ∷ ts) l h =
      if_cases (λ (x : Looping). P x.app) (not l.app.running || l.broken) (λ _. h)
        (λ _. loop-Kept ts (iterate t l) (iterate-Kept t l h))

  pub main_loop-Kept : (ts : List Turn) (a : App) → P a → P (main_loop ts a)
  unfolding main_loop
  main_loop-Kept ts a h = loop-Kept ts (record { app = a; mmap_index = 0; broken = false }) h
