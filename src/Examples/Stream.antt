-- ===== src/Examples/Stream.antt =====
-- The theorems on the application and the viewer, at a stream of one frame.
use phantom_fpga_final_embed.Examples.Checksum.{checked, stored, length-checked}
use phantom_fpga_final_embed.Base.{
  ℕ, ◌+◌, ◌%◌, ◌≤◌, ◌≡◌, refl, ◌∙◌, inl, true, false, none, some, List, [], ◌∷◌, ◌++◌, length,
  arith, tabulate, length-tabulate, length-++, ++-nil, u64_mod,
}
use phantom_fpga_final_embed.Regs.{frame_size}
use phantom_fpga_final_embed.App.{App, TcpServer}
use phantom_fpga_final_embed.App.Loop.{Turn, ready, gives, main_loop, timed_out}
use phantom_fpga_final_embed.App.Forward.{forwarded, on_the_wire}
use phantom_fpga_final_embed.App.Stream.{OnAir}
use phantom_fpga_final_embed.App.Reach.{ArePeaceful, frames_of}
use phantom_fpga_final_embed.App.Run.{new_app}
use phantom_fpga_final_embed.Viewer.{Viewer, ViewerStats, no_frame_yet}
use phantom_fpga_final_embed.Viewer.Client.{Arrival, arrived, interrupted, read_exact, leave}
use phantom_fpga_final_embed.Viewer.Client.Exact.{incoming, Exact, read_exact-Exact, incoming-leave}
use phantom_fpga_final_embed.Viewer.Loop.{run_viewer, prepare, finish}
use phantom_fpga_final_embed.Viewer.Stream.{Calm}
use phantom_fpga_final_embed.Viewer.Receive.{Ready}
use phantom_fpga_final_embed.Viewer.Shows.{Shows, run_viewer-Shows}
use phantom_fpga_final_embed.Viewer.Sequence.{follow_all, frames_dropped_counts}
use phantom_fpga_final_embed.EndToEnd.{Drawn, sent, frames_reach_viewer}

abbrev in_pieces : List Arrival
in_pieces = arrived false (1 ∷ 2 ∷ []) ∷ interrupted false ∷ arrived false (3 ∷ 4 ∷ []) ∷ []

read_exact-Exact_example : Exact 3 (incoming in_pieces) (read_exact 3 true in_pieces)
read_exact-Exact_example = read_exact-Exact 3 in_pieces

abbrev pub frame : List ℕ
frame = checked ++ stored

length-frame : length frame ≡ frame_size
length-frame = omega (arith, length-++ checked stored, length-checked)

-- A viewer that gets some bytes in one piece, with an interruption first.
abbrev pub watching : List ℕ → Viewer
watching bytes = record {
  socket = interrupted false ∷ leave bytes [];
  running = true;
  frame_buffer = tabulate 5120 0 (λ _. 0);
  stats = record {
    frames_received = 0;
    frames_dropped = 0;
    crc_errors = 0;
    magic_errors = 0;
    last_sequence = no_frame_yet;
  };
  terminal = [];
  record_path = false;
  record_file = false;
  recording = [];
  can_record = true;
  disk_room = 0;
}

leave-Calm : (bytes : List ℕ) → Calm (leave bytes [])
leave-Calm [] = tt
leave-Calm (b ∷ bs) = (refl, tt)

pub watching-Ready : (n : ℕ) (bytes : List ℕ) → Ready n (watching bytes)
watching-Ready n bytes = record {
  running = refl;
  calm = (refl, leave-Calm bytes);
  buffer = length-tabulate {A = ℕ} 5120 0 (λ _. 0);
  disk = inl refl;
}

pub watching-incoming : (bytes : List ℕ) → incoming (watching bytes).socket ≡ bytes
watching-incoming bytes = incoming-leave bytes [] ∙ ++-nil bytes

abbrev one_frame : List (List ℕ)
one_frame = frame ∷ []

run_viewer-Shows_example :
    let v = watching (on_the_wire one_frame ++ []) in
    (w : Viewer) × (run_viewer v ≡ some (finish w)) × Shows one_frame (prepare v) w
run_viewer-Shows_example =
    run_viewer-Shows one_frame (watching (on_the_wire one_frame ++ [])) [] (length-frame, tt)
      (omega arith) (watching-Ready 1 (on_the_wire one_frame ++ []))
      (watching-incoming (on_the_wire one_frame ++ []))

-- Four frames, of which the last comes after a gap of three and a new round.
abbrev numbers : List ℕ
numbers = 4 ∷ 8 ∷ 248 ∷ 252 ∷ []

abbrev no_stats : ViewerStats
no_stats = (watching []).stats

frames_dropped_counts_example :
    ((follow_all (3 ∷ numbers) no_stats).frames_dropped + 7) % u64_mod ≡ 252 % u64_mod
frames_dropped_counts_example =
    frames_dropped_counts 3 numbers no_stats
      (
        omega arith,
        omega arith,
        (omega arith, omega arith, (omega arith, omega arith, (omega arith, omega arith, tt))),
      )
      refl

-- An application with a client, and an iteration that reads the frame after one that times out.
abbrev pub serving : TcpServer
serving = record {
  listen_fd = some 3;
  client_fd = some 5;
  port = 5000;
  stats = record { frames_sent = 0; bytes_sent = 0; send_errors = 0 };
  wire = [];
}

abbrev pub on_air : App
on_air = record new_app { dev_fd = some 4; tcp_server = some serving }

pub on_air-OnAir : OnAir true none [] on_air
on_air-OnAir = record {
  copies = refl;
  checks = refl;
  running = refl;
  last = refl;
  server = (serving, refl, ((5, refl), refl));
}

abbrev pub reads_frame : Turn
reads_frame = record {
  accepted = none;
  poll = ready false true;
  pool = λ _. 0;
  consume = gives tt;
  read = gives frame;
  first_send = record { sent = some 4; peer_gone = false };
  second_send = record { sent = some 5120; peer_gone = false };
  signal = false;
}

abbrev turns : List Turn
turns = record reads_frame { poll = timed_out } ∷ reads_frame ∷ []

turns-ArePeaceful : ArePeaceful turns
turns-ArePeaceful = (
  record { poll = tt; read = sends; signal = refl },
  (record { poll = refl; read = sends; signal = refl }, tt),
)
  where
    fits : length frame ≤ 5120
    fits = omega (arith, length-frame)

    sends :
        ((n : ℕ) × (some 4 ≡ some n) × (4 ≤ n))
        × ((m : ℕ) × (some 5120 ≡ some m) × (length frame ≤ m))
    sends = ((4, refl, omega arith), (5120, refl, fits))

frames_reach_viewer_example :
    let fs = forwarded true none (frames_of turns) in
    let v = watching (sent (main_loop turns on_air)) in
    (w : Viewer) × (run_viewer v ≡ some (finish w)) × Drawn fs (prepare v) w
frames_reach_viewer_example =
    frames_reach_viewer turns none on_air (watching (sent (main_loop turns on_air)))
      turns-ArePeaceful on_air-OnAir
      (watching-Ready (length (forwarded true none (frames_of turns)))
        (sent (main_loop turns on_air)))
      (watching-incoming (sent (main_loop turns on_air)))
