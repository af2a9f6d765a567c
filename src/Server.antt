-- ===== src/Server.antt =====
-- The handlers of tunnel_server.cpp and server_clear_function of connection.cpp, from the packet that is read
-- to the calls that send. A connection is known by its address, also where the source keeps a pointer to it
-- in a watcher. uring_init of io_uring_recv.cpp always returns -1, so the handles are watched by libev. What
-- the timers do is here; that they are started is not. `none` is a failed `assert` or the end of the process.
mod State
pub mod Sockets
pub mod Table
pub mod Growing
pub mod Opening
pub mod Routes
pub mod Hosted
pub mod Settled
pub mod Admission
pub mod Arrival
pub mod Answer
pub mod Replying
pub mod Closing
pub mod Expiry
pub mod Handling
pub mod Running
unfoldable pub use State.*
use udpspeeder.Base.{
  ℕ, suc, ◌+◌, Bool, true, false, List, [], ◌∷◌, Option, none, some, length, leb, ◌==◌,
  if◌then◌else◌, assert, ◌>>=◌, ◌>>◌,
}
use udpspeeder.Base.Memory.{slice}
use udpspeeder.Blob.{max_data_len}
use udpspeeder.Rs.{Codec}
use udpspeeder.Cook.{de_cook, decooked, bad_obscure, bad_checksum}
use udpspeeder.Framing.{get_conv}
use udpspeeder.Handles.{Handles, put, create, get_info, to_fd, fd64_close}
use udpspeeder.Handles
use udpspeeder.Sending.{Target, Dest, Setting, Net}
use udpspeeder.Delay.{Delay, delay_send, delay_send_batch, check}
use udpspeeder.Dict.{Binding, find}
use udpspeeder.Convs
use udpspeeder.Convs.{
  Convs, get_size, is_conv_used, is_data_used, insert_conv, find_conv_by_data, find_data_by_conv,
}
use udpspeeder.Conns.{Conns, exist, find_insert}
use udpspeeder.Conns
use udpspeeder.Tunnel.{
  Conn, Options, update_active_time, from_normal_to_fec, from_fec_to_normal, report,
}
use udpspeeder.Tunnel.Client.{Given, Site, in_memory, framed, max_conv_num}

module _ (g : Setting) (o : Options) where
  pub record Server : Type 0 where
    pub conns : Conns
    pub net : Net FdInfo
    pub queue : Delay

  -- The connection of an address with what it shares with the others, and back.
  abbrev pub site_of : Server → Conn → Site FdInfo g o
  site_of x c = record { conn = c; net = x.net; queue = x.queue }

  abbrev pub with_site : Server → ℕ → Site FdInfo g o → Server
  with_site x addr t = record {
    conns = record x.conns { mp = write_back x.conns.mp addr t.conn };
    net = t.net;
    queue = t.queue;
  }

  -- `dest` with `type_fd_addr` and `cook = 1`.
  abbrev pub to_client : Conn → Dest
  to_client c = record { target = Target.type_fd_addr c.local_listen_fd c.addr; cook = true }

  module _ (codec : Codec) where
    unfoldable pub encode_and_reply :
        Given → Site FdInfo g o → Option (List ℕ) → Option (Site FdInfo g o)
    encode_and_reply v t s =
        from_normal_to_fec codec o v.roll (v.us 0) (v.us 1) t.conn s >>= λ (c, outs).
        delay_send_batch FdInfo g v.moments o.random_drop t.net t.queue (to_client t.conn) outs
        >>= λ (w, q). some (record { conn = c; net = w; queue = q })

    -- `none` is a failed reading.
    unfoldable pub server_process_remote_packet :
        Given → Site FdInfo g o → (fd64 : ℕ) → Option (List ℕ) → Option (Site FdInfo g o)
    server_process_remote_packet v t fd64 s = do
      assert (is_data_used t.conn.conv_manager fd64)
      let (m, conv) = find_conv_by_data t.conn.conv_manager fd64
      m' ← Convs.update_active_time m conv (v.ms 0)
      let t' = record t { conn = update_active_time (record t.conn { conv_manager = m' }) (v.ms 1) }
      elim s [
        | none ↦ some t'
        | some r ↦
            if length r == max_data_len + 1
            then some t'
            else encode_and_reply v t' (some (framed v.head conv r))
      ]

    -- data_from_remote_or_fec_timeout_or_conn_timer with is_from_remote, for the connection of `conn`;
    -- `recv` is what is read from a descriptor.
    unfoldable pub remote_cb :
        Given → Server → Watcher → (recv : ℕ → Option (List ℕ)) → Option Server
    remote_cb v x w recv = do
      c ← find x.conns.mp w.conn
      assert (exist x.conns c.addr)
      elim (Handles.exist FdInfo x.net.handles w.u64) [
        | false ↦ some x
        | true ↦ to_fd FdInfo x.net.handles w.u64 >>= λ fd.
            server_process_remote_packet v (site_of x c) w.u64 (recv fd) >>= λ t.
            some (with_site x w.conn t)
      ]

    unfoldable pub fec_encode_cb : Given → Server → (conn : ℕ) → Option Server
    fec_encode_cb v x conn = do
      c ← find x.conns.mp conn
      assert (exist x.conns c.addr)
      t ← encode_and_reply v (site_of x c) none
      some (with_site x conn t)

    unfoldable pub conn_timer_cb :
        (report_interval : ℕ) (debug_force_flush_fec : Bool)
        → Given
        → Server
        → (conn : ℕ) → Option Server
    conn_timer_cb report_interval debug_force_flush_fec v x conn = do
      c ← find x.conns.mp conn
      assert (exist x.conns c.addr)
      m ← Convs.clear_inactive c.conv_manager (v.ms 0)
      h ← clear_all x.conns x.net.handles m.closed
      let c1 = record c { conv_manager = record m { closed = [] } }
      (c2, outs) ←
          if debug_force_flush_fec
          then from_normal_to_fec codec o v.roll (v.us 0) (v.us 1) c1 none
          else some (c1, [])
      let c3 = record c2 { stat = report report_interval (v.ms 1) c2.stat }
      some (with_site x conn (site_of (record x { net = record x.net { handles = h } }) c3))

  -- The conversation of a packet, made if there is room for it and a socket is opened; `none` inside is a
  -- packet that is ignored. `opened` is what new_connected_socket2 gives.
  unfoldable pub open_conv :
      Given
      → (opened : Option ℕ) (addr i : ℕ) → Site FdInfo g o
      → (conv : ℕ) → Option (Option (Site FdInfo g o))
  open_conv v opened addr i t conv =
      if is_conv_used t.conn.conv_manager conv
      then some (some t)
      else if leb max_conv_num (get_size t.conn.conv_manager)
      then some none
      else elim opened [
        | none ↦ some none
        | some fd ↦ create_watched t.net.handles fd addr >>= λ (h, fd64).
            insert_conv t.conn.conv_manager conv fd64 (v.ms i) >>= λ m. some (
              some (record t {
                conn = record t.conn { conv_manager = m };
                net = record t.net { handles = h };
              }))
      ]

  -- One packet out of the decoder; its readings of the clock are `i` and the next.
  unfoldable pub send_out :
      Given
      → (opened : ℕ → Option ℕ) (addr i : ℕ) → Site FdInfo g o
      → (delay : ℕ) → List ℕ
      → Option (Site FdInfo g o)
  send_out v opened addr i t delay s = elim (get_conv (in_memory v.behind s) (length s)) [
    | none ↦ some t
    | some u ↦ open_conv v (opened i) addr i t u.conv >>= λ r. elim r [
      | none ↦ some t
      | some t1 ↦ Convs.update_active_time t1.conn.conv_manager u.conv (v.ms (suc i)) >>= λ m.
          let (m', fd64) = find_data_by_conv m u.conv in
          delay_send FdInfo g (v.moments i).now (v.moments i).allocated o.random_drop
            (v.moments i).random t1.net t1.queue delay
            (record { target = Target.type_fd64 fd64; cook = false })
            (slice (in_memory v.behind s) u.output u.len_out)
          >>= λ (w, q, r').
              some (record { conn = record t1.conn { conv_manager = m' }; net = w; queue = q })
    ]
  ]

  abbrev pub send_all_out :
      Given
      → (opened : ℕ → Option ℕ) (addr i : ℕ) → Site FdInfo g o
      → List (ℕ × List ℕ)
      → Option (Site FdInfo g o)
  send_all_out v opened addr i t [] = some t
  send_all_out v opened addr i t ((delay, s) ∷ ss) =
      send_out v opened addr i t delay s >>= λ t'. send_all_out v opened addr (suc (suc i)) t' ss

  module _ (codec : Codec) where
    -- local_listen_cb with server_process_tunnel_packet; `none` is a failed reading.
    unfoldable pub server_process_tunnel_packet :
        Given
        → (was : Conn) (opened : ℕ → Option ℕ) (local_listen_fd : ℕ) → Server
        → Option (List ℕ)
        → (addr : ℕ) → Option Server
    server_process_tunnel_packet v was opened local_listen_fd x none addr = some x
    server_process_tunnel_packet v was opened local_listen_fd x (some s) addr =
        if length s == max_data_len + 1
        then some x
        else (de_cook g.platform g.crc32c v.junk g.ctx (in_memory v.behind s) (length s) >>= λ r.
            elim r [
              | bad_obscure ↦ some x
              | bad_checksum ↦ some x
              | decooked m len ↦ elim (accept was local_listen_fd x.conns addr) [
                | none ↦ some x
                | some cs ↦
                    let (cs', c) = find_insert (new_conn was) cs addr in
                    from_fec_to_normal codec o v.behind (update_active_time c (v.ms 0))
                      (slice m 0 len)
                    >>= λ (c', outs).
                        let x' = record x { conns = cs' } in
                        send_all_out v opened addr 1 (site_of x' c') outs >>= λ t.
                        some (with_site x' addr t)
              ]
            ])

  -- global_timer_cb and the part of prepare_cb without io_uring.
  unfoldable pub global_timer_cb : Server → (now : ℕ) → Server
  global_timer_cb x now = record x { conns = Conns.clear_inactive x.conns now }

  unfoldable pub prepare_cb : (clock : ℕ → ℕ) → Server → Option Server
  prepare_cb clock x =
      check FdInfo g clock x.net x.queue >>= λ (w, q). some (record x { net = w; queue = q })
