-- ===== src/Viewer/EndOfStream.antt =====
-- receive_frame where less than a frame is left.
use phantom_fpga_final_embed.Base.{
  ℕ, ◌+◌, ◌<◌, ◌≡◌, refl, sym, ap, subst, Bool, true, false, not, List, ◌!=◌, if_cases, length,
  arith, length-drop,
}
use phantom_fpga_final_embed.Viewer.{Viewer}
use phantom_fpga_final_embed.Viewer.Constants
use phantom_fpga_final_embed.Viewer.Client.{ReadExact, read_exact}
use phantom_fpga_final_embed.Viewer.Client.Exact.{incoming, Exact, read_exact-Exact}
use phantom_fpga_final_embed.Viewer.Methods.{ntohl, leave_at, receive_payload, receive_frame}
use phantom_fpga_final_embed.Viewer.Stream.{read_exact-StaysCalm}
use phantom_fpga_final_embed.Viewer.Receive.{Ready, recorded}

-- A stream that has less than a frame left: receive_frame fails, and changes nothing that is seen.
pub record Ended (v : Viewer) (r : Bool × Viewer) : Type 0 where
  pub got : r.0 ≡ false
  pub stats : r.1.stats ≡ v.stats
  pub terminal : r.1.terminal ≡ v.terminal
  pub recording : recorded r.1 ≡ recorded v

incomplete :
    {n : ℕ} {bytes : List ℕ} {r : ReadExact}
    → Exact n bytes r
    → length bytes < n
    → r.complete ≡ false
incomplete x h = ground (arith, x.enough)

payload-Ended :
    (v : Viewer)
    → v.running ≡ true
    → length (incoming v.socket) < Constants.size
    → Ended v (receive_payload v)
unfolding receive_payload
payload-Ended v run short =
    let x : Exact Constants.size (incoming v.socket)
        (read_exact Constants.size v.running v.socket) =
      subst (λ b. Exact Constants.size (incoming v.socket) (read_exact Constants.size b v.socket))
        (sym run) (read_exact-Exact Constants.size v.socket) in
    let stops = incomplete x short in
    rw stops (record { got = refl; stats = refl; terminal = refl; recording = refl })

pub receive_frame-Ended :
    (n : ℕ) (v : Viewer)
    → Ready n v
    → length (incoming v.socket) < 4 + Constants.size
    → Ended v (receive_frame v)
unfolding receive_frame
receive_frame-Ended n v h short =
    let r = read_exact 4 v.running v.socket in
    let ended : Ended v (false, leave_at r v) = record {
      got = refl;
      stats = refl;
      terminal = refl;
      recording = refl;
    } in
    let x : Exact 4 (incoming v.socket) (read_exact 4 v.running v.socket) =
      subst (λ b. Exact 4 (incoming v.socket) (read_exact 4 b v.socket)) (sym h.running)
        (read_exact-Exact 4 v.socket) in
    let run : (read_exact 4 v.running v.socket).running ≡ true =
      subst (λ b. (read_exact 4 b v.socket).running ≡ true) (sym h.running)
        (read_exact-StaysCalm 4 v.socket h.calm).0 in
    if_cases (Ended v) (not r.complete) (λ _. ended)
      (λ done.
        if_cases (Ended v) (ntohl r.taken != Constants.size) (λ _. ended)
          (λ _.
            let more = x.others (ground (arith, done)) run in
            let y =
              payload-Ended (leave_at r v) run
                (omega (arith, ap length more, length-drop 4 (incoming v.socket))) in
            record {
              got = y.got;
              stats = y.stats;
              terminal = y.terminal;
              recording = y.recording;
            }))
