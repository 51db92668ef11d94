-- ===== src/App/Server.antt =====
-- class TcpServer of app/phantomfpga_app.cpp. A function takes the log of descriptors with the server,
-- and what the socket calls will answer.
use phantom_fpga_final_embed.Base.{
  ℕ, ◌/◌, ◌%◌, ◌^◌, Bool, true, false, not, ◌||◌, List, [], ◌∷◌, ◌++◌, Option, none, some,
  if◌then◌else◌, ◌==◌, is_none, length, take, add64,
}
use phantom_fpga_final_embed.App.{Effect, acquire, descriptor, close_fd, TcpServer}

-- What `socket`, `bind` and `listen` will answer.
pub record Setup : Type 0 where
  pub socket : Option ℕ
  pub binds : Bool
  pub listens : Bool

-- A server without descriptors.
abbrev pub idle : ℕ → TcpServer
idle port = record {
  listen_fd = none;
  client_fd = none;
  port = port;
  stats = record { frames_sent = 0; bytes_sent = 0; send_errors = 0 };
  wire = [];
}

-- The constructor: on an error past the first the descriptor is closed again.
unfoldable pub open_server : Setup → ℕ → List Effect → TcpServer × List Effect
open_server setup port log = elim setup.socket [
  | none ↦ (idle port, log)
  | some fd ↦
      let log = acquire (descriptor fd) ∷ log in
      if not setup.binds || not setup.listens
      then (idle port, close_fd (some fd) log)
      else (record (idle port) { listen_fd = some fd }, log)
]

-- The answer of `accept`: a descriptor, or -1. A new client starts a new stream.
unfoldable pub try_accept : Option ℕ → TcpServer × List Effect → TcpServer × List Effect
try_accept accepted (s, log) =
    if is_none s.listen_fd || not (is_none s.client_fd) then (s, log) else elim accepted [
      | none ↦ (s, log)
      | some fd ↦ (record s { client_fd = some fd; wire = [] }, acquire (descriptor fd) ∷ log)
    ]

-- One call of `send`: how many bytes it took, -1 being `none`, and whether errno is EPIPE or ECONNRESET
-- after it.
pub record Send : Type 0 where
  pub sent : Option ℕ
  pub peer_gone : Bool

-- The bytes of a buffer that it took; none at all if the test `<= 0` holds.
abbrev pub taken_of : Option ℕ → List ℕ → List ℕ
taken_of none bytes = []
taken_of (some n) bytes = take n bytes

abbrev pub sent_of : Send → List ℕ → List ℕ
sent_of call bytes = taken_of call.sent bytes

-- htonl, as four bytes.
abbrev pub htonl : ℕ → List ℕ
htonl n = n / 2 ^ 24 % 256 ∷ n / 2 ^ 16 % 256 ∷ n / 2 ^ 8 % 256 ∷ n % 256 ∷ []

-- What both calls do on an error.
unfoldable pub send_failed : Bool → TcpServer × List Effect → TcpServer × List Effect
send_failed peer_gone (s, log) =
    if peer_gone
    then (record s { client_fd = none }, close_fd s.client_fd log)
    else (record s { stats = record (s.stats) { send_errors = add64 s.stats.send_errors 1 } }, log)

abbrev pub on_wire : List ℕ → TcpServer → TcpServer
on_wire bytes s = record s { wire = s.wire ++ bytes }

-- After the length has been sent.
unfoldable pub send_payload :
    Send → List ℕ → TcpServer × List Effect → Bool × (TcpServer × List Effect)
send_payload call bytes (s, log) =
    let taken = sent_of call bytes in
    if length taken == 0
    then (false, send_failed call.peer_gone (s, log))
    else let stats = record (s.stats) {
      frames_sent = add64 s.stats.frames_sent 1;
      bytes_sent = add64 s.stats.bytes_sent (length taken);
    } in
      (true, (on_wire taken (record s { stats = stats }), log))

-- send_frame, with the answers of its two calls.
unfoldable pub send_frame :
    Send → Send → List ℕ → TcpServer × List Effect → Bool × (TcpServer × List Effect)
send_frame first second bytes (s, log) =
    let taken = sent_of first (htonl (length bytes)) in
    if is_none s.client_fd
    then (false, (s, log))
    else if length taken == 0
    then (false, send_failed first.peer_gone (s, log))
    else send_payload second bytes (on_wire taken s, log)
