-- ===== src/Viewer/Client.antt =====
-- class TcpClient of viewer/phantomfpga_view.cpp: the addresses that connect tries, and read_exact. A
-- socket is the list of what its read calls will find, up to the end of the stream. A read that blocks for
-- ever and a stream without end are not in the model.
pub mod Exact
use phantom_fpga_final_embed.Base.{
  ℕ, zero, suc, ◌-◌, Bool, true, false, not, ◌&&◌, Option, none, some, List, [], ◌∷◌, ◌++◌,
  if◌then◌else◌, leb, length, take, drop,
}

-- What one call of read finds: bytes, of which it takes as many as it has room for, and none at the
-- end of the stream; EINTR; or another error. The flag says that the signal handler clears `running`
-- before the loop looks at it again.
pub data Arrival : Type 0 where
  arrived : Bool → List ℕ → Arrival
  interrupted : Bool → Arrival
  failed : Arrival

-- Bytes that a read had no room for wait for the next one.
abbrev pub leave : List ℕ → List Arrival → List Arrival
leave [] s = s
leave (b ∷ bs) s = arrived false (b ∷ bs) ∷ s

-- What read_exact returns, the bytes that it has put in the buffer, and what it leaves behind.
pub record ReadExact : Type 0 where
  pub complete : Bool
  pub taken : List ℕ
  pub socket : List Arrival
  pub running : Bool

-- The bytes of an earlier round come first.
abbrev pub after : List ℕ → ReadExact → ReadExact
after bs r = record r { taken = bs ++ r.taken }

-- The first argument is `remaining`.
unfoldable pub read_exact : ℕ → Bool → List Arrival → ReadExact
read_exact zero running s = record { complete = true; taken = []; socket = s; running = running }
read_exact (suc n) false s = record { complete = false; taken = []; socket = s; running = false }
read_exact (suc n) true [] = record { complete = false; taken = []; socket = []; running = true }
read_exact (suc n) true (failed ∷ s) = record {
  complete = false;
  taken = [];
  socket = s;
  running = true;
}
read_exact (suc n) true (interrupted stop ∷ s) = read_exact (suc n) (not stop) s
read_exact (suc n) true (arrived stop [] ∷ s) = record {
  complete = false;
  taken = [];
  socket = s;
  running = not stop;
}
read_exact (suc n) true (arrived stop (b ∷ bs) ∷ s) =
    let got = b ∷ bs in
    let rest = after got (read_exact (suc n - length got) (not stop) s) in
    if leb (suc n) (length got)
    then record {
      complete = true;
      taken = take (suc n) got;
      socket = leave (drop (suc n) got) s;
      running = not stop;
    }
    else rest

-- One address of getaddrinfo: the descriptor of a socket for it, if there is one, and whether it can be
-- connected.
pub record Address : Type 0 where
  pub socket : Option ℕ
  pub connects : Bool

-- One round of the loop of connect, given the rounds that are left.
abbrev pub try_socket : Address → Option ℕ × List ℕ → Option ℕ × List ℕ
try_socket a (found, closed) = elim a.socket [
  | none ↦ (found, closed)
  | some fd ↦ if a.connects then (some fd, []) else (found, fd ∷ closed)
]

-- The loop of TcpClient::connect, with the descriptors that it closes: fd_ at the end, -1 being `none`.
unfoldable pub try_addresses : List Address → Option ℕ × List ℕ
try_addresses [] = (none, [])
try_addresses (a ∷ rest) = let found = try_addresses rest in try_socket a found
