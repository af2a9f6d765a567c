-- ===== src/Tests/Servers.antt =====
-- A server with the connection of address 50, whose conversation 7 has the socket 6, and no error correction.
use udpspeeder.Base.{
  ℕ, ◌+◌, ◌≡◌, refl, true, false, List, [], ◌∷◌, Option, none, some, inl, inr, arith, ◌==◌,
  if◌then◌else◌,
}
use udpspeeder.Base.Memory.{slice, memcpy}
use udpspeeder.Dict.{Binding}
use udpspeeder.Handles.{Handles, put, to_fd, fd_exist}
use udpspeeder.Handles.Links.{Linked}
use udpspeeder.Cook.{de_cook, de_obscure_step, xor_step, check_crc, rm_crc32}
use udpspeeder.Convs.{Convs, get_size}
use udpspeeder.Convs.Links.{Kept}
use udpspeeder.Tunnel.{Conn, at_once, count_in, count_out, from_fec_to_normal, update_active_time}
use udpspeeder.Tunnel.Client.{Given, in_memory}
use udpspeeder.Server.{FdInfo, Server, server_process_tunnel_packet, conn_timer_cb}
use udpspeeder.Server.Table.{Served, Shows}
use udpspeeder.Server.Hosted.{Hosting}
use udpspeeder.Server.Arrival.{Forwarded, server_process_tunnel_packet-routes}
use udpspeeder.Server.Answer.{Answers, remote_cb-Answers}
use udpspeeder.Server.Expiry.{Expired, conn_timer_cb-Expired}
use udpspeeder.Server.Replying.{Times, Hosted}
use udpspeeder.Server.Running.{begin, calls, call_back, started, tunnel_packet, Reached-Hosted}
use udpspeeder.Lru
use udpspeeder.Convs
use udpspeeder.Handles
use udpspeeder.Handles.{create, get_info}
use udpspeeder.Bytes.{read_u32}
use udpspeeder.Framing.{get_conv}
use udpspeeder.Delay.{delay_send, add, handle}
use udpspeeder.Sending.{my_send, cook_data, transmit, with_fd}
use udpspeeder.Conns.{exist, find_insert, no_conns}
use udpspeeder.Convs.{is_conv_used, insert_conv, find_data_by_conv}
use udpspeeder.Server.{accept, new_conn, create_watched, open_conv, send_out}
use udpspeeder.Tests.Codecs.{sum_codec}
use udpspeeder.Tests.Sends.{zeros, one_waits}
use udpspeeder.Tests.Clients.{bare, options, given, client}

abbrev handles : Handles FdInfo
handles = record {
  counter = 5;
  fd_to_fd64_mp = put (λ i. none) 6 4;
  fd64_to_fd_mp = put (λ i. none) 4 6;
  fd_info_mp =
      put (λ i. none) 4
        (record { addr = 50; io_watcher = some (record { u64 = 4; conn = 50; fd = 6 }) });
}

handles-Linked : Linked FdInfo handles
handles-Linked = record {
  there = λ fd h e. ground arith;
  back = λ fd h e. ground arith;
  old = λ fd h e. ground arith;
}

abbrev one_conv : Convs
one_conv = record {
  data_to_conv = record { name = 4; value = 7 } ∷ [];
  conv_to_data = record { name = 7; value = 4 } ∷ [];
  lru = record { key = 7; ts = 5 } ∷ [];
  last_clear_time = 0;
  additional_clear_function = true;
  closed = [];
}

abbrev conn : Conn
conn = record client { conv_manager = one_conv; local_listen_fd = 3; addr = 50 }

abbrev server : Server bare options
server = record {
  conns = record {
    mp = record { name = 50; value = conn } ∷ [];
    clear_it = none;
    last_clear_time = 0;
  };
  net = record { handles = handles; cooked = 0; calls = [] };
  queue = one_waits;
}

abbrev sockets : List (Binding ℕ)
sockets = record { name = 7; value = 6 } ∷ []

one_conv-Shows : Shows one_conv handles sockets
unfolding get_size to_fd
one_conv-Shows = record { sockets = λ c. ground arith; size = refl }

one_conv-Kept : Kept one_conv
one_conv-Kept = record {
  there = λ d c e. ground (arith, e);
  back = λ d c e. ground (arith, e);
  timed = λ c. ground arith;
  ordered = (tt, refl, tt);
  word = λ c d e. ground (arith, e);
}

one_conv-Served : Served 50 handles one_conv
unfolding to_fd
one_conv-Served = record {
  kept = one_conv-Kept;
  notifies = refl;
  settled = refl;
  bound = λ c d e.
      let here : d ≡ 4 = ground (arith, e) in
      rw here (record { fd = 6; is_open = refl; info = refl });
}

server-Hosting : (now : ℕ) → Hosting (200001 + now) handles server.conns.mp
server-Hosting now = record {
  linked = handles-Linked;
  hosts = λ a c e.
      let here : a ≡ 50 = ground (arith, e) in
      let same : c ≡ conn = ground (arith, e) in
      rw (here, same)
        (record { named = refl; served = one_conv-Served; early = (omega arith, tt) });
  few = omega arith;
}

remote_cb-Answers_example : Answers bare options sum_codec given server 50 7 6 conn
remote_cb-Answers_example =
    remote_cb-Answers bare options sum_codec given server 50 7 6 conn sockets (server-Hosting 0)
      refl one_conv-Shows refl

conn_timer_cb-Expired_example :
    (x' : Server bare options) × (conn_timer_cb bare options sum_codec 0 false given server 50
      ≡ some x')
    × Expired bare options sum_codec given server 50 conn x'
conn_timer_cb-Expired_example =
    conn_timer_cb-Expired bare options sum_codec 0 given server 50 conn (server-Hosting 0) refl

-- A packet of conversation 8, for which the socket 9 is opened.
abbrev packet : List ℕ
packet = 0 ∷ 0 ∷ 0 ∷ 8 ∷ 1 ∷ 2 ∷ []

abbrev opened : ℕ → Option ℕ
opened j = if j == 1 then some 9 else none

server_process_tunnel_packet-routes_example :
    (ss : List (List ℕ)) × (n : ℕ) × (x' : Server bare options) × (at_once (packet ∷ [])
      ≡ at_once ss)
    × (server_process_tunnel_packet bare options sum_codec given client opened 3 server
          (some packet)
          50
        ≡ some x')
    × Forwarded bare options zeros opened (given.ms n) 50 sockets ss server x'
unfolding de_cook de_obscure_step xor_step check_crc rm_crc32 from_fec_to_normal slice count_in
    count_out memcpy update_active_time fd_exist
server_process_tunnel_packet-routes_example =
    server_process_tunnel_packet-routes bare options sum_codec given client opened 3 server packet
      50 sockets (in_memory zeros packet) 6
      (record conn {
        last_active_time = 200001;
        stat = record conn.stat {
          fec_to_normal = record {
            input_packet_num = 1;
            input_packet_size = 6;
            output_packet_num = 1;
            output_packet_size = 6;
          };
        };
      })
      (at_once (packet ∷ [])) (λ i. omega arith) (λ i j d h e. ground arith) (λ j d e. ground arith)
      (server-Hosting 1) (inl (conn, refl, one_conv-Shows)) (inr (omega arith)) (omega arith)
      (omega arith) refl refl

-- A server that has just started gets the packet, with a clock that stands still.
abbrev still : Given
still = record given { ms = λ i. 200001 }

still-Times : Times 200001 200001 still
still-Times = record { low = omega arith; steady = λ i. omega arith; high = λ i. omega arith }

abbrev reached : Server bare options
unfolding server_process_tunnel_packet accept exist find_insert new_conn no_conns Handles.empty
    Handles.exist fd_exist to_fd create create_watched get_info get_size is_conv_used insert_conv
    Lru.new_key Lru.update Convs.update_active_time find_data_by_conv open_conv send_out get_conv
    read_u32 delay_send add handle my_send cook_data transmit with_fd de_cook de_obscure_step
    xor_step check_crc rm_crc32 from_fec_to_normal slice count_in count_out memcpy
    update_active_time
reached =
    elim (call_back bare options sum_codec still (started bare options none one_waits)
      (tunnel_packet client opened 3 (some packet) 50)) [ none ↦ server | some x ↦ x ]

Reached-Hosted_example : Hosted bare options 200001 reached
unfolding server_process_tunnel_packet accept exist find_insert new_conn no_conns Handles.empty
    Handles.exist fd_exist to_fd create create_watched get_info get_size is_conv_used insert_conv
    Lru.new_key Lru.update Convs.update_active_time find_data_by_conv open_conv send_out get_conv
    read_u32 delay_send add handle my_send cook_data transmit with_fd de_cook de_obscure_step
    xor_step check_crc rm_crc32 from_fec_to_normal slice count_in count_out memcpy
    update_active_time
Reached-Hosted_example =
    Reached-Hosted bare options sum_codec none one_waits 200001 200001 reached (
      calls still (tunnel_packet client opened 3 (some packet) 50) begin still-Times (omega arith)
        refl)
