-- ===== src/App/Ledger.antt =====
-- What the application holds: descriptors and mappings that it has obtained and not given back.
use phantom_fpga_final_embed.Base.{
  ℕ, ◌+◌, ◌≡◌, refl, ap, Bool, List, [], ◌∷◌, Option, none, some, if◌then◌else◌, ◌==◌, arith,
  is_none, length, if_cases,
}
use phantom_fpga_final_embed.App.{
  App, Effect, acquire, release, Resource, descriptor, mapping, give_back, TcpServer, on_server,
  on_some_server,
}
use phantom_fpga_final_embed.App.Frames.{send_to_client, process_frame, judge, counted}
use phantom_fpga_final_embed.App.Server.{
  Setup, Send, open_server, try_accept, sent_of, htonl, on_wire, send_failed, send_payload,
  send_frame,
}

abbrev pub one : Resource → Resource → ℕ
one (descriptor m) (descriptor n) = if m == n then 1 else 0
one (mapping m) (mapping n) = if m == n then 1 else 0
one _ _ = 0

-- How often a resource has been obtained, and how often given back.
abbrev pub acquired : Resource → List Effect → ℕ
acquired r [] = 0
acquired r (acquire x ∷ log) = one r x + acquired r log
acquired r (release x ∷ log) = acquired r log

abbrev pub released : Resource → List Effect → ℕ
released r [] = 0
released r (acquire x ∷ log) = released r log
released r (release x ∷ log) = one r x + released r log

abbrev pub in_wrapper : Resource → (ℕ → Resource) → Option ℕ → ℕ
in_wrapper r kind none = 0
in_wrapper r kind (some n) = one r (kind n)

abbrev pub in_server : Resource → TcpServer → ℕ
in_server r s = in_wrapper r descriptor s.listen_fd + in_wrapper r descriptor s.client_fd

abbrev pub in_some_server : Resource → Option TcpServer → ℕ
in_some_server r none = 0
in_some_server r (some s) = in_server r s

-- What has been obtained has been given back, is in the server, or is one of `others`.
abbrev pub ServerHolds : Resource → ℕ → TcpServer × List Effect → Type 0
ServerHolds r others (s, log) = acquired r log ≡ released r log + others + in_server r s

pub give_back-released :
    (r : Resource) (kind : ℕ → Resource) (o : Option ℕ) (log : List Effect)
    → released r (give_back kind o log) ≡ in_wrapper r kind o + released r log
give_back-released r kind none log = omega arith
give_back-released r kind (some n) log = refl

pub give_back-acquired :
    (r : Resource) (kind : ℕ → Resource) (o : Option ℕ) (log : List Effect)
    → acquired r (give_back kind o log) ≡ acquired r log
give_back-acquired r kind none log = refl
give_back-acquired r kind (some n) log = refl

pub open_server-ServerHolds :
    (setup : Setup) (port : ℕ) (r : Resource) (others : ℕ) (log : List Effect)
    → acquired r log ≡ released r log + others
    → ServerHolds r others (open_server setup port log)
unfolding open_server
open_server-ServerHolds setup port r others log h = ground arith

pub try_accept-ServerHolds :
    (accepted : Option ℕ) (r : Resource) (others : ℕ) (s : TcpServer) (log : List Effect)
    → ServerHolds r others (s, log)
    → ServerHolds r others (try_accept accepted (s, log))
unfolding try_accept
try_accept-ServerHolds accepted r others s log h = ground arith

send_failed-ServerHolds :
    (gone : Bool) (r : Resource) (others : ℕ) (s : TcpServer) (log : List Effect)
    → ServerHolds r others (s, log)
    → ServerHolds r others (send_failed gone (s, log))
unfolding send_failed
send_failed-ServerHolds gone r others s log h = ground (
  arith,
  give_back-released r descriptor s.client_fd log,
  give_back-acquired r descriptor s.client_fd log,
)

send_frame-ServerHolds :
    (first second : Send) (bytes : List ℕ) (r : Resource) (others : ℕ) (s : TcpServer)
    (log : List Effect)
    → ServerHolds r others (s, log)
    → ServerHolds r others (send_frame first second bytes (s, log)).1
unfolding send_frame send_payload
send_frame-ServerHolds first second bytes r others s log h =
    let sent = sent_of first (htonl (length bytes)) in
    let w = on_wire sent s in
    let P : Bool × (TcpServer × List Effect) → Type 0 = λ x. ServerHolds r others x.1 in
    if_cases P (is_none s.client_fd) (λ _. h)
      (λ _.
        if_cases P (length sent == 0)
          (λ _. send_failed-ServerHolds first.peer_gone r others s log h)
          (λ _.
            if_cases P (length (sent_of second bytes) == 0)
              (λ _. send_failed-ServerHolds second.peer_gone r others w log h) (λ _. h)))

abbrev pub in_app : Resource → App → ℕ
in_app r a =
    in_wrapper r descriptor a.dev_fd
    + in_wrapper r mapping a.buffer_pool
    + in_some_server r a.tcp_server

-- Every resource has been obtained as often as it has been given back, and once more for each wrapper
-- that holds it.
abbrev pub Holds : Resource → App → Type 0
Holds r a = acquired r a.log ≡ released r a.log + in_app r a

pub on_server-Holds :
    (f : TcpServer × List Effect → TcpServer × List Effect) (r : Resource)
    → ((others : ℕ) (s : TcpServer) (log : List Effect)
        → ServerHolds r others (s, log)
        → ServerHolds r others (f (s, log)))
    → (a : App) → Holds r a
    → Holds r (on_server f a)
on_server-Holds f r keep a h = go a.tcp_server refl
  where
    go : (o : Option TcpServer) → a.tcp_server ≡ o → Holds r (on_some_server f o a)
    go none e = h
    go (some s) e =
        let others = in_wrapper r descriptor a.dev_fd + in_wrapper r mapping a.buffer_pool in
        let here : acquired r a.log ≡ released r a.log + others + in_server r s =
          omega (arith, ap (in_some_server r) e) in
        omega (arith, keep others s a.log here)

send_to_client-ServerHolds :
    (first second : Send) (bytes : List ℕ) (r : Resource) (others : ℕ) (s : TcpServer)
    (log : List Effect)
    → ServerHolds r others (s, log)
    → ServerHolds r others (send_to_client first second bytes (s, log))
unfolding send_to_client
send_to_client-ServerHolds first second bytes r others s log h =
    if_cases (ServerHolds r others) (is_none s.client_fd) (λ _. h)
      (λ _. send_frame-ServerHolds first second bytes r others s log h)

pub process_frame-Holds :
    (first second : Send) (frame : List ℕ) (r : Resource) (a : App)
    → Holds r a
    → Holds r (process_frame first second frame a)
unfolding process_frame
process_frame-Holds first second frame r a h =
    if_cases (Holds r) (judge frame a).0
      (λ _.
        on_server-Holds (send_to_client first second frame) r
          (send_to_client-ServerHolds first second frame r) (counted frame a) h)
      (λ _. h)
