-- ===== src/App/Leaks.antt =====
-- The application leaves nothing open, on any path through `run`.
use phantom_fpga_final_embed.Base.{
  ℕ, ◌+◌, ◌≡◌, ◌≤◌, refl, ap, not, List, Option, none, some, if_cases, ltb, arith,
}
use phantom_fpga_final_embed.App.{
  App, AppConfig, Effect, Resource, descriptor, mapping, give_back, TcpServer,
}
use phantom_fpga_final_embed.App.Server.{try_accept}
use phantom_fpga_final_embed.App.Loop.{Turn, main_loop}
use phantom_fpga_final_embed.App.Induction.{main_loop-Kept}
use phantom_fpga_final_embed.App.Options.{
  Opt, Verdict, proceed, exit_cleanly, usage_error, parse_arguments,
}
use phantom_fpga_final_embed.App.Run.{
  World, open_device, setup_mmap, close_server, cleanup, start_server, stream, serve, run_parsed,
  run, new_app,
}
use phantom_fpga_final_embed.App.Ledger.{
  acquired, released, in_wrapper, in_some_server, Holds, open_server-ServerHolds,
  try_accept-ServerHolds, on_server-Holds, process_frame-Holds, give_back-released,
  give_back-acquired,
}

-- The process ends with exit code 0 or 1, and whatever it has obtained it has given back once.
abbrev pub Quits : Resource → ℕ × App → Type 0
Quits r (code, a) = (code ≤ 1) × (acquired r a.log ≡ released r a.log)

module _ (r : Resource) where
  main_loop-Holds : (ts : List Turn) (a : App) → Holds r a → Holds r (main_loop ts a)
  main_loop-Holds =
      main_loop-Kept (Holds r) (λ x. on_server-Holds (try_accept x) r (try_accept-ServerHolds x r))
        (λ first second frame. process_frame-Holds first second frame r) (λ b a h. h)

  close_server-released :
      (o : Option TcpServer) (log : List Effect)
      → (acquired r (close_server o log) ≡ acquired r log)
        × (released r (close_server o log) ≡ released r log + in_some_server r o)
  unfolding close_server
  close_server-released none log = (refl, omega arith)
  close_server-released (some s) log = ground (
    arith,
    give_back-released r descriptor s.client_fd log,
    give_back-acquired r descriptor s.client_fd log,
    give_back-released r descriptor s.listen_fd (give_back descriptor s.client_fd log),
    give_back-acquired r descriptor s.listen_fd (give_back descriptor s.client_fd log),
  )

  cleanup-Quits : (code : ℕ) (a : App) → code ≤ 1 → Holds r a → Quits r (code, cleanup a)
  unfolding cleanup
  cleanup-Quits code a c h =
      let log = close_server a.tcp_server a.log in
      let unmapped = give_back mapping a.buffer_pool log in
      let (sa, sr) = close_server-released a.tcp_server a.log in
      (
        c,
        omega (
          arith,
          sa,
          sr,
          give_back-released r mapping a.buffer_pool log,
          give_back-acquired r mapping a.buffer_pool log,
          give_back-released r descriptor a.dev_fd unmapped,
          give_back-acquired r descriptor a.dev_fd unmapped,
        ),
      )

  open_device-Holds : (w : World) (a : App) → Holds r a → Holds r (open_device w a).1
  unfolding open_device
  open_device-Holds w a h = ground (
    arith,
    give_back-released r descriptor a.dev_fd a.log,
    give_back-acquired r descriptor a.dev_fd a.log,
  )

  setup_mmap-Holds : (w : World) (a : App) → Holds r a → Holds r (setup_mmap w a).1
  unfolding setup_mmap
  setup_mmap-Holds w a h = ground (
    arith,
    give_back-released r mapping a.buffer_pool a.log,
    give_back-acquired r mapping a.buffer_pool a.log,
  )

  start_server-Holds :
      (w : World) (a : App) → a.tcp_server ≡ none → Holds r a → Holds r (start_server w a)
  unfolding start_server
  start_server-Holds w a e h =
      let others = in_wrapper r descriptor a.dev_fd + in_wrapper r mapping a.buffer_pool in
      let before : acquired r a.log ≡ released r a.log + others =
        omega (arith, ap (in_some_server r) e) in
      if_cases (Holds r) (ltb 0 a.config.tcp_port)
        (λ _.
          omega (arith, open_server-ServerHolds w.server a.config.tcp_port r others a.log before))
        (λ _. h)

  stream-Quits : (w : World) (a : App) → Holds r a → Quits r (stream w a)
  unfolding stream
  stream-Quits w a h =
      let b = (setup_mmap w a).1 in
      let held = setup_mmap-Holds w a h in
      if_cases (Quits r) (not w.set_cfg) (λ _. cleanup-Quits 1 a (omega arith) h)
        (λ _.
          if_cases (Quits r) (not (setup_mmap w a).0) (λ _. cleanup-Quits 1 b (omega arith) held)
            (λ _.
              if_cases (Quits r) (not w.start) (λ _. cleanup-Quits 1 b (omega arith) held)
                (λ _.
                  cleanup-Quits 0 (main_loop w.turns b) (omega arith)
                    (main_loop-Holds w.turns b held))))

  serve-Quits : (w : World) (a : App) → a.tcp_server ≡ none → Holds r a → Quits r (serve w a)
  unfolding serve
  serve-Quits w a e h =
      let s = start_server w a in
      let b = (open_device w s).1 in
      let held = open_device-Holds w s (start_server-Holds w a e h) in
      if_cases (Quits r) (not (open_device w s).0) (λ _. cleanup-Quits 1 b (omega arith) held)
        (λ _.
          if_cases (Quits r) b.config.stats_only (λ _. cleanup-Quits 0 b (omega arith) held)
            (λ _. stream-Quits w b held))

run_parsed-Quits :
    (r : Resource) (v : Verdict) (w : World) (c : AppConfig)
    → Quits r (run_parsed v w (record new_app { config = c }))
unfolding run_parsed
run_parsed-Quits r proceed w c = serve-Quits r w (record new_app { config = c }) refl refl
run_parsed-Quits r exit_cleanly w c = (omega arith, refl)
run_parsed-Quits r usage_error w c = (omega arith, refl)

-- Whatever the options are and whatever the kernel, the driver and the viewer answer, at every one of
-- its exits the application has closed each descriptor and unmapped each mapping exactly as often as it
-- has obtained it; its exit code is 0 or 1.
pub run-Quits : (options : List Opt) (w : World) (r : Resource) → Quits r (run options w)
unfolding run
run-Quits options w r =
    let (v, c) = parse_arguments options new_app.config in run_parsed-Quits r v w c
