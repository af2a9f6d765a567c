-- ===== src/Server/Expiry.antt =====
-- The timer of a connection clears the conversations that have been idle, and their sockets with them.
use udpspeeder.Base.{
  ℕ, ◌≤◌, ◌<◌, ◌≡◌, ◌≢◌, refl, ◌∙◌, ap, true, false, [], none, some, ◌⊎◌, ◌>>=◌, arith,
}
use udpspeeder.Lru.{ts_of}
use udpspeeder.Dict.{find}
use udpspeeder.Handles.{Handles, erase, has, to_fd, get_info, fd64_close}
use udpspeeder.Handles
use udpspeeder.Convs.{conv_timeout, since}
use udpspeeder.Convs.Erasing.{clear_inactive-keeps, clear_inactive-recent}
use udpspeeder.Convs.{Convs}
use udpspeeder.Convs.Links.{Kept}
use udpspeeder.Lru.Order.{All-later}
use udpspeeder.Conns.{Conns, exist}
use udpspeeder.Sending.{Setting}
use udpspeeder.Rs.{Codec}
use udpspeeder.Tunnel.{Conn, Options, report}
use udpspeeder.Tunnel.Client.{Given}
use udpspeeder.Server.{FdInfo, Server, site_of, with_site, write_back, conn_timer_cb}
use udpspeeder.Server.Hosted.{
  Hosting, find-write_back_self, find-write_back_other, write_back-Hosting,
}
use udpspeeder.Server.Closing.{Expiring, erase_conv-Expiring, Expiring-timed, Served-Expiring}

-- A connection with what the clearing leaves of its conversations, under its address again.
pub Expiring-Hosting :
    (cs : Conns) (now later addr : ℕ) (h : Handles FdInfo) (m : Convs) (c c' : Conn)
    → now ≤ later
    → Hosting now h cs.mp
    → find cs.mp addr ≡ some c
    → Kept m
    → (p : Expiring cs addr later h c.conv_manager m) → c'.addr ≡ c.addr
    → c'.conv_manager ≡ record m { closed = [] }
    → Hosting later p.handles (write_back cs.mp addr c')
Expiring-Hosting cs now later addr h m c c' le hosted given k p named convs =
    let host = hosted.hosts addr c given in
    write_back-Hosting now later h p.handles cs.mp addr c c'
      (λ a d ne r. record {
        named = r.named;
        served = record {
          kept = r.served.kept;
          notifies = r.served.notifies;
          settled = r.served.settled;
          bound = λ conv k e. p.others a k ne (r.served.bound conv k e);
        };
        early = All-later now later d.conv_manager.lru le r.early;
      })
      p.linked hosted given
      (rw convs (record {
        named = named ∙ host.named;
        served = record {
          kept = record {
            there = k.there;
            back = k.back;
            timed = k.timed;
            ordered = k.ordered;
            word = k.word;
          };
          notifies = p.notifies;
          settled = refl;
          bound = p.bound;
        };
        early = p.early;
      }))

module _ (g : Setting) (o : Options) (codec : Codec) where
  -- What the timer of the connection `c` of `addr` leaves.
  pub record Expired (v : Given) (x : Server g o) (addr : ℕ) (c : Conn) (x' : Server g o)
      : Type 0 where
    pub hosting : Hosting (v.ms 0) x'.net.handles x'.conns.mp
    pub conn : Conn
    pub here : find x'.conns.mp addr ≡ some conn
    pub fate :
        (conv d : ℕ)
        → find c.conv_manager.conv_to_data conv ≡ some d
        → (find conn.conv_manager.conv_to_data conv ≡ some d)
          ⊎ ((find conn.conv_manager.conv_to_data conv ≡ none)
              × (Handles.exist FdInfo x'.net.handles d ≡ false))
    pub old :
        (conv d : ℕ)
        → find conn.conv_manager.conv_to_data conv ≡ some d
        → find c.conv_manager.conv_to_data conv ≡ some d
    pub recent :
        (conv t : ℕ)
        → ts_of c.conv_manager.lru conv ≡ some t
        → since (v.ms 0) t < conv_timeout
        → ts_of conn.conv_manager.lru conv ≡ some t
    pub others : (a : ℕ) → a ≢ addr → find x'.conns.mp a ≡ find x.conns.mp a
    pub same_calls : x'.net.calls ≡ x.net.calls
    pub same_queue : x'.queue ≡ x.queue

  -- Where the connections are hosted, the timer of a connection returns: no `assert` of the clear function
  -- fails; a conversation of the connection keeps its handle, or is gone and the handle is closed; those
  -- that were used within conv_timeout stay, with their times, none is added, nothing is sent, the other
  -- connections are as they were, and all are hosted.
  pub conn_timer_cb-Expired :
      (interval : ℕ) (v : Given) (x : Server g o) (addr : ℕ) (c : Conn)
      → Hosting (v.ms 0) x.net.handles x.conns.mp
      → find x.conns.mp addr ≡ some c
      → (x' : Server g o) × (conn_timer_cb g o codec interval false v x addr ≡ some x')
        × Expired v x addr c x'
  unfolding conn_timer_cb exist
  conn_timer_cb-Expired interval v x addr c hosted given =
      let host = hosted.hosts addr c given in
      let m0 = c.conv_manager in
      let h0 = x.net.handles in
      let known : exist x.conns addr ≡ true = rw given refl in
      let (m, cleared, k, p) =
        clear_inactive-keeps (Expiring x.conns addr (v.ms 0) h0 m0)
          (erase_conv-Expiring x.conns addr (v.ms 0) h0 m0 known) (v.ms 0) m0
          (λ t q. Expiring-timed x.conns addr (v.ms 0) h0 m0 m0 t q) host.served.kept
          (Served-Expiring x.conns addr (v.ms 0) h0 m0 hosted.linked host.served host.early) in
      let c1 : Conn = record c { conv_manager = record m { closed = [] } } in
      let c2 : Conn = record c1 { stat = report interval (v.ms 1) c.stat } in
      let x' : Server g o =
        with_site g o x addr
          (site_of g o (record x { net = record x.net { handles = p.handles } }) c2) in
      (
        x',
        rw (conn_timer_cb, given, ◌>>=◌, ap (exist x.conns) host.named ∙ known, cleared, p.closes)
            refl,
        record {
          hosting =
              Expiring-Hosting x.conns (v.ms 0) (v.ms 0) addr h0 m c c2 (omega arith) hosted given k
                p refl refl;
          conn = c2;
          here = find-write_back_self x.conns.mp addr c2 c given;
          fate = p.fate;
          old = p.old;
          recent = λ conv t e young.
              clear_inactive-recent m0 m (v.ms 0) conv t host.served.kept cleared e young;
          others = λ a ne. find-write_back_other x.conns.mp addr a c2 ne;
          same_calls = refl;
          same_queue = refl;
        },
      )
