-- ===== src/Server/State.antt =====
-- What tunnel_server.cpp and server_clear_function of connection.cpp keep for each socket and each connection:
-- handles with their watchers, and new connections.
use udpspeeder.Base.{
  ℕ, true, List, [], ◌∷◌, Option, none, some, length, leb, ◌==◌, if◌then◌else◌, assert, ◌>>=◌, ◌>>◌,
}
use udpspeeder.Handles.{Handles, put, create, get_info, fd64_close}
use udpspeeder.Handles
use udpspeeder.Dict.{Binding}
use udpspeeder.Conns.{Conns, exist, find_insert}
use udpspeeder.Tunnel.{Conn}

abbrev pub max_conn_num : ℕ
max_conn_num = 200

-- An ev_io that is started: the handle and the connection that remote_cb is called with, and the
-- descriptor it waits for.
pub record Watcher : Type 0 where
  pub u64 : ℕ
  pub conn : ℕ
  pub fd : ℕ

pub record FdInfo : Type 0 where
  pub addr : ℕ
  pub io_watcher : Option Watcher

abbrev pub no_info : FdInfo
no_info = record { addr = 0; io_watcher = none }

abbrev pub set_info : Handles FdInfo → ℕ → FdInfo → Handles FdInfo
set_info h fd64 i = record h { fd_info_mp = put h.fd_info_mp fd64 i }

-- A new descriptor: its handle, the address it is for, and its watcher.
unfoldable pub create_watched : Handles FdInfo → (fd addr : ℕ) → Option (Handles FdInfo × ℕ)
create_watched h fd addr = do
  (h1, fd64) ← create FdInfo h fd
  (h2, i) ← get_info FdInfo no_info h1 fd64
  let h3 = set_info h2 fd64 (record i { addr = addr })
  (h4, j) ← get_info FdInfo no_info h3 fd64
  let w : Watcher = record { u64 = fd64; conn = addr; fd = fd }
  some (set_info h4 fd64 (record j { io_watcher = some w }), fd64)

-- server_clear_function; the watcher stops with the information that holds it.
unfoldable pub server_clear_function : Conns → Handles FdInfo → ℕ → Option (Handles FdInfo)
server_clear_function cs h fd64 = do
  assert (Handles.exist FdInfo h fd64)
  (h', i) ← get_info FdInfo no_info h fd64
  assert (exist cs i.addr)
  fd64_close FdInfo h' fd64

-- The calls that clear_inactive makes, the latest first.
abbrev pub clear_all : Conns → Handles FdInfo → List ℕ → Option (Handles FdInfo)
clear_all cs h [] = some h
clear_all cs h (d ∷ ds) = clear_all cs h ds >>= λ h'. server_clear_function cs h' d

-- `new conn_info_t`, where the memory was `was`, with its encoder and decoder as their constructors leave
-- them.
unfoldable pub new_conn : (was : Conn) → Conn
new_conn was = record was {
  conv_manager = record {
    data_to_conv = [];
    conv_to_data = [];
    lru = [];
    last_clear_time = was.conv_manager.last_clear_time;
    additional_clear_function = true;
    closed = [];
  };
  stat = record {
    last_report_time = 0;
    normal_to_fec = record {
      input_packet_num = 0;
      input_packet_size = 0;
      output_packet_num = 0;
      output_packet_size = 0;
    };
    fec_to_normal = record {
      input_packet_num = 0;
      input_packet_size = 0;
      output_packet_num = 0;
      output_packet_size = 0;
    };
  };
}

-- What is written through a reference to the connection of `addr`.
abbrev pub write_back : List (Binding Conn) → ℕ → Conn → List (Binding Conn)
write_back [] addr c = []
write_back (b ∷ m) addr c =
    let rest = write_back m addr c in
    if b.name == addr then record b { value = c } ∷ rest else b ∷ rest

-- The connection of an address, made if there is room for it; `none` is a packet that is ignored.
unfoldable pub accept : (was : Conn) (local_listen_fd : ℕ) → Conns → (addr : ℕ) → Option Conns
accept was local_listen_fd cs addr =
    if exist cs addr
    then some cs
    else if leb max_conn_num (length cs.mp)
    then none
    else (let (cs', c) = find_insert (new_conn was) cs addr in
        some (record cs' {
          mp = write_back cs'.mp addr (record c { addr = addr; local_listen_fd = local_listen_fd });
        }))
