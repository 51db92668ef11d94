-- ===== src/App/Run.antt =====
-- run and cleanup of app/phantomfpga_app.cpp, and the methods of app/phantomfpga_app_impl.cpp that set
-- the device up. print_statistics only prints.
use phantom_fpga_final_embed.Base.{
  ℕ, ◌%◌, Bool, true, false, not, List, [], ◌∷◌, Option, none, some, if◌then◌else◌, ltb, u32_mod,
}
use phantom_fpga_final_embed.Regs.{Config, BufferInfo}
use phantom_fpga_final_embed.App.{
  App, AppConfig, Effect, acquire, descriptor, mapping, close_fd, unmap, TcpServer,
}
use phantom_fpga_final_embed.App.Server.{Setup, open_server}
use phantom_fpga_final_embed.App.Loop.{Turn, main_loop}
use phantom_fpga_final_embed.App.Options.{
  Opt, Verdict, proceed, exit_cleanly, usage_error, parse_arguments, default_config,
}

-- What the calls of `run` will answer: the descriptor that open gives, whether the ioctls and mmap
-- succeed, and what the loop will find. The result of STOP is not looked at.
pub record World : Type 0 where
  pub server : Setup
  pub device : Option ℕ
  pub set_cfg : Bool
  pub buffer_info : Option BufferInfo
  pub mmap : Bool
  pub start : Bool
  pub turns : List Turn

unfoldable pub open_device : World → App → Bool × App
open_device w a = elim w.device [
  | none ↦ (false, a)
  | some fd ↦
      (true, record a { dev_fd = some fd; log = acquire (descriptor fd) ∷ close_fd a.dev_fd a.log })
]

-- The argument of SET_CFG in configure_device, with DEFAULT_IRQ_COUNT and DEFAULT_IRQ_TIMEOUT.
abbrev pub configure_device : AppConfig → Config
configure_device c = record {
  desc_count = c.desc_count;
  frame_rate = c.frame_rate;
  irq_coalesce_count = 8;
  irq_coalesce_timeout = 40000;
}

unfoldable pub setup_mmap : World → App → Bool × App
setup_mmap w a = elim w.buffer_info [
  | none ↦ (false, a)
  | some info ↦
      let a = record a {
        config = record (a.config) { buffer_size = info.buffer_size % u32_mod };
      } in
      if w.mmap
      then (
        true,
        record a {
          buffer_pool = some info.total_size;
          log = acquire (mapping info.total_size) ∷ unmap a.buffer_pool a.log;
        },
      )
      else (false, a)
]

-- The descriptors of a server that is destroyed: the client's first.
unfoldable pub close_server : Option TcpServer → List Effect → List Effect
close_server none log = log
close_server (some s) log = close_fd s.listen_fd (close_fd s.client_fd log)

unfoldable pub cleanup : App → App
cleanup a = record a {
  tcp_server = none;
  buffer_pool = none;
  dev_fd = none;
  log = close_fd a.dev_fd (unmap a.buffer_pool (close_server a.tcp_server a.log));
}

-- The server, if the port is not 0.
unfoldable pub start_server : World → App → App
start_server w a =
    let (s, log) = open_server w.server a.config.tcp_port a.log in
    if ltb 0 a.config.tcp_port then record a { tcp_server = some s; log = log } else a

-- From configure_device on, with the exit code.
unfoldable pub stream : World → App → ℕ × App
stream w a =
    let (mapped, b) = setup_mmap w a in
    if not w.set_cfg
    then (1, cleanup a)
    else if not mapped
    then (1, cleanup b)
    else if not w.start
    then (1, cleanup b)
    else (0, cleanup (main_loop w.turns b))

-- After the options: the server, the device, and the mode that prints statistics only.
unfoldable pub serve : World → App → ℕ × App
serve w a =
    let (opened, b) = open_device w (start_server w a) in
    if not opened
    then (1, cleanup b)
    else if b.config.stats_only
    then (0, cleanup b)
    else stream w b

abbrev pub new_app : App
new_app = record {
  dev_fd = none;
  buffer_pool = none;
  config = default_config;
  stats = record {
    frames_received = 0;
    frames_valid = 0;
    seq_errors = 0;
    magic_errors = 0;
    crc_errors = 0;
    last_seq = 0;
    seq_initialized = false;
  };
  tcp_server = none;
  running = true;
  log = [];
}

-- The rest of `run`, by what parse_arguments returns.
unfoldable pub run_parsed : Verdict → World → App → ℕ × App
run_parsed proceed w a = serve w a
run_parsed exit_cleanly w a = (0, a)
run_parsed usage_error w a = (1, a)

-- The exit code of the process, and what it leaves.
unfoldable pub run : List Opt → World → ℕ × App
run options w =
    let (verdict, c) = parse_arguments options new_app.config in
    run_parsed verdict w (record new_app { config = c })
