-- ===== src/Server/Running.antt =====
-- The server through any sequence of its callbacks.
use udpspeeder.Base.{
  ℕ, ◌+◌, ◌^◌, ◌<◌, ◌≡◌, Bool, List, [], Option, some, arith, Returns, Returns-some,
}
use udpspeeder.Rs.{Codec}
use udpspeeder.Handles.{empty}
use udpspeeder.Conns.{no_conns}
use udpspeeder.Sending.{Setting}
use udpspeeder.Delay.{Delay}
use udpspeeder.Tunnel.{Conn, Options}
use udpspeeder.Tunnel.Client.{Given}
use udpspeeder.Server.{
  FdInfo, Watcher, Server, server_process_tunnel_packet, remote_cb, fec_encode_cb, conn_timer_cb,
  global_timer_cb, prepare_cb,
}
use udpspeeder.Server.Hosted.{Hosting-later}
use udpspeeder.Server.Replying.{
  Times, Hosted, prepare_cb-Hosted, remote_cb-Hosted, fec_encode_cb-Hosted,
}
use udpspeeder.Server.Handling.{
  global_timer_cb-Hosted, conn_timer_cb-Hosted, server_process_tunnel_packet-Hosted,
}

module _ (g : Setting) (o : Options) where
  -- One call of a callback, with what it finds.
  pub data Callback : Type 0 where
    tunnel_packet :
        (was : Conn) (opened : ℕ → Option ℕ) (local_listen_fd : ℕ)
        → Option (List ℕ)
        → (addr : ℕ) → Callback
    remote_packet : Watcher → (recv : ℕ → Option (List ℕ)) → Callback
    encode_timer : (conn : ℕ) → Callback
    conn_timer : (report_interval : ℕ) (debug_force_flush_fec : Bool) (conn : ℕ) → Callback
    global_timer : (now : ℕ) → Callback
    prepare : (clock : ℕ → ℕ) → Callback

  -- The server before its event loop; `it` is what the iterator of the connections is before it is set.
  abbrev pub started : (it : Option ℕ) → Delay → Server g o
  started it q = record {
    conns = no_conns it;
    net = record { handles = empty FdInfo; cooked = 0; calls = [] };
    queue = q;
  }

  started-Hosted : (now : ℕ) (it : Option ℕ) (q : Delay) → Hosted g o now (started it q)
  unfolding no_conns empty
  started-Hosted now it q = record {
    linked = record { there = λ fd h e. cc; back = λ fd h e. cc; old = λ fd h e. cc };
    hosts = λ a c e. cc;
    few = omega arith;
  }

  module _ (codec : Codec) where
    abbrev pub call_back : Given → Server g o → Callback → Option (Server g o)
    call_back v x (tunnel_packet was opened fd s addr) =
        server_process_tunnel_packet g o codec v was opened fd x s addr
    call_back v x (remote_packet w recv) = remote_cb g o codec v x w recv
    call_back v x (encode_timer conn) = fec_encode_cb g o codec v x conn
    call_back v x (conn_timer interval flush conn) = conn_timer_cb g o codec interval flush v x conn
    call_back v x (global_timer now) = some (global_timer_cb g o x now)
    call_back v x (prepare clock) = prepare_cb g o clock x

    -- The servers that callbacks lead to, each with a time that no reading of the clock has passed. Each call
    -- begins with 2 ^ 31 numbers of handles left below 64 bits, more than the packets that one call sends.
    pub data Reached (x0 : Server g o) (start : ℕ) : ℕ → Server g o → Type 0 where
      begin : Reached x0 start start x0
      calls :
          {now later : ℕ} {x x' : Server g o} (v : Given) (e : Callback)
          → Reached x0 start now x
          → Times now later v
          → x.net.handles.counter + 2 ^ 31 < 2 ^ 64
          → call_back v x e ≡ some x'
          → Reached x0 start later x'

    call_back-Hosted :
        (now later : ℕ) (v : Given) (x : Server g o) (e : Callback)
        → Times now later v
        → Hosted g o now x
        → x.net.handles.counter + 2 ^ 31 < 2 ^ 64
        → Returns (Hosted g o later) (call_back v x e)
    call_back-Hosted now later v x (tunnel_packet was opened fd s addr) times hosted room =
        server_process_tunnel_packet-Hosted g o codec now later v was opened fd x s addr times
          hosted room
    call_back-Hosted now later v x (remote_packet w recv) times hosted room =
        remote_cb-Hosted g o codec now later v x w recv times hosted
    call_back-Hosted now later v x (encode_timer conn) times hosted room =
        fec_encode_cb-Hosted g o codec later v x conn (
          Hosting-later now later x.net.handles x.conns.mp (omega (arith, times.low, times.high 0))
            hosted)
    call_back-Hosted now later v x (conn_timer interval flush conn) times hosted room =
        conn_timer_cb-Hosted g o codec now later interval flush v x conn times hosted
    call_back-Hosted now later v x (global_timer t) times hosted room =
        global_timer_cb-Hosted g o later x t (
          Hosting-later now later x.net.handles x.conns.mp (omega (arith, times.low, times.high 0))
            hosted)
    call_back-Hosted now later v x (prepare clock) times hosted room =
        prepare_cb-Hosted g o later clock x (
          Hosting-later now later x.net.handles x.conns.mp (omega (arith, times.low, times.high 0))
            hosted)

    Reached-keeps :
        (x0 : Server g o) (start now : ℕ) (x : Server g o)
        → Hosted g o start x0
        → Reached x0 start now x
        → Hosted g o now x
    Reached-keeps x0 start now x hosted begin = hosted
    Reached-keeps x0 start now x hosted (calls {now = before} {x = y} v e r times room run) =
        Returns-some (Hosted g o now) (call_back v y e) x
          (call_back-Hosted before now v y e times (Reached-keeps x0 start before y hosted r) room)
          run

    -- Whatever sequence of callbacks runs from a server without connections, with a clock that does not go
    -- back and, at each call, 2 ^ 31 numbers of handles left below 64 bits: in every server it leads to the
    -- connections are hosted. Each conversation has an open handle of its own for the address of its connection, with a watcher that
    -- is called for it, the maps of the handles and those of the conversations are inverse, no use is noted
    -- for later than the clock, and there are no more than max_conn_num connections.
    pub Reached-Hosted :
        (it : Option ℕ) (q : Delay) (start now : ℕ) (x : Server g o)
        → Reached (started it q) start now x
        → Hosted g o now x
    Reached-Hosted it q start now x r =
        Reached-keeps (started it q) start now x (started-Hosted start it q) r
