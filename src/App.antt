-- ===== src/App.antt =====
-- The application (app/): it sets the driver up, takes frames from it, checks them and streams them to
-- a viewer over TCP. Here are its state, from app/phantomfpga_app.h, and the RAII wrappers.
pub mod Server
pub mod Frames
pub mod Loop
pub mod Ledger
pub mod Options
pub mod Run
pub mod Settings
pub mod Forward
pub mod Stream
pub mod Reach
pub mod ZeroCopy
pub mod Leaks
pub mod Induction
use phantom_fpga_final_embed.Base.{ℕ, Bool, true, false, List, [], ◌∷◌, Option, none, some}

-- What a process can hold: a file descriptor, or a mapping of so many bytes.
pub data Resource : Type 0 where
  descriptor mapping : ℕ → Resource

pub data Effect : Type 0 where
  acquire release : Resource → Effect

-- A FileDescriptor is empty (-1) or has a number, and a MappedMemory is empty (MAP_FAILED) or has a
-- size. Both give back what they hold when they are assigned to or destroyed.
abbrev pub give_back : (ℕ → Resource) → Option ℕ → List Effect → List Effect
give_back kind none log = log
give_back kind (some n) log = release (kind n) ∷ log

abbrev pub close_fd : Option ℕ → List Effect → List Effect
close_fd fd log = give_back descriptor fd log

abbrev pub unmap : Option ℕ → List Effect → List Effect
unmap size log = give_back mapping size log

pub record AppConfig : Type 0 where
  pub desc_count : ℕ
  pub frame_rate : ℕ
  pub buffer_size : ℕ
  pub tcp_port : ℕ
  pub verbose : Bool
  pub stats_only : Bool
  pub validate_crc : Bool
  pub zero_copy : Bool

pub record AppStats : Type 0 where
  pub frames_received : ℕ
  pub frames_valid : ℕ
  pub seq_errors : ℕ
  pub magic_errors : ℕ
  pub crc_errors : ℕ
  pub last_seq : ℕ
  pub seq_initialized : Bool

pub record NetStats : Type 0 where
  pub frames_sent : ℕ
  pub bytes_sent : ℕ
  pub send_errors : ℕ

-- `wire` is what the client that is connected has been sent.
pub record TcpServer : Type 0 where
  pub listen_fd : Option ℕ
  pub client_fd : Option ℕ
  pub port : ℕ
  pub stats : NetStats
  pub wire : List ℕ

-- `log` has the descriptors and mappings obtained and given back, the latest first.
pub record App : Type 0 where
  pub dev_fd : Option ℕ
  pub buffer_pool : Option ℕ
  pub config : AppConfig
  pub stats : AppStats
  pub tcp_server : Option TcpServer
  pub running : Bool
  pub log : List Effect

-- A call on the server, if there is one.
abbrev pub on_some_server :
    (TcpServer × List Effect → TcpServer × List Effect) → Option TcpServer → App → App
on_some_server f none a = a
on_some_server f (some s) a = record a {
  tcp_server = some (f (s, a.log)).0;
  log = (f (s, a.log)).1;
}

abbrev pub on_server : (TcpServer × List Effect → TcpServer × List Effect) → App → App
on_server f a = on_some_server f a.tcp_server a
