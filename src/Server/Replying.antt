-- ===== src/Server/Replying.antt =====
-- The callbacks of the server that send into the tunnel leave every connection hosted.
use udpspeeder.Base.{
  ℕ, suc, ◌+◌, ◌≤◌, ◌≡◌, refl, ◌∙◌, sym, ap, List, Option, none, some, length, ◌==◌, arith,
  Bool-cases, Option-cases, inl, inr, Returns, Returns-bind, Returns-if, Returns-after,
  Returns-self, assert, if◌then◌else◌,
}
use udpspeeder.Blob.{max_data_len}
use udpspeeder.Rs.{Codec}
use udpspeeder.Lru.Order.{All-later}
use udpspeeder.Dict.{find}
use udpspeeder.Handles.{Handles, to_fd}
use udpspeeder.Handles
use udpspeeder.Convs.{is_data_used}
use udpspeeder.Convs.Links.{update_active_time-Kept}
use udpspeeder.Conns.{exist}
use udpspeeder.Sending.{Setting}
use udpspeeder.Sending.Standing.{Stands}
use udpspeeder.Delay.{delay_send_batch, check}
use udpspeeder.Delay.Standing.{delay_send_batch-Stands, check-Stands}
use udpspeeder.Tunnel.{Conn, Options, from_normal_to_fec}
use udpspeeder.Tunnel.Conserve.{SameConvs, from_normal_to_fec-SameConvs}
use udpspeeder.Tunnel.Client.{Given, Site, framed}
use udpspeeder.Server.{
  FdInfo, Watcher, Server, site_of, with_site, to_client, encode_and_reply,
  server_process_remote_packet, remote_cb, fec_encode_cb, prepare_cb,
}
use udpspeeder.Server.Sockets.{Extends-refl}
use udpspeeder.Server.Hosted.{Host, Hosting, Host-later, Hosting-later, write_back-Hosting}
use udpspeeder.Server.Answer.{used, server_process_remote_packet-run}
use udpspeeder.Server.Routes.{update_active_time-fields}

-- The readings of the clock during a callback: they do not go back, none is before `now` or after `later`.
pub record Times (now later : ℕ) (v : Given) : Type 0 where
  pub low : now ≤ v.ms 0
  pub steady : (i : ℕ) → v.ms i ≤ v.ms (suc i)
  pub high : (i : ℕ) → v.ms i ≤ later

module _ (g : Setting) (o : Options) where
  abbrev pub Hosted : ℕ → Server g o → Type 0
  Hosted now x = Hosting now x.net.handles x.conns.mp

  -- The same handles, and a connection of `addr` that is hosted.
  abbrev pub Replied : (now : ℕ) (h : Handles FdInfo) (addr : ℕ) → Site FdInfo g o → Type 0
  Replied now h addr t = (t.net.handles ≡ h) × Host now h addr t.conn

  -- The connection of one address is written back.
  pub with_site-Hosted :
      (now later : ℕ) (x : Server g o) (addr : ℕ) (c : Conn) (t : Site FdInfo g o)
      → now ≤ later
      → Hosted now x
      → find x.conns.mp addr ≡ some c
      → Replied later x.net.handles addr t
      → Hosted later (with_site g o x addr t)
  with_site-Hosted now later x addr c t le hosted given (same, host) =
      let h = x.net.handles in
      rw same (
        write_back-Hosting now later h h x.conns.mp addr c t.conn
          (λ k d ne. Host-later now later h h k d le (Extends-refl h)) hosted.linked hosted given
          host)

  pub prepare_cb-Hosted :
      (now : ℕ) (clock : ℕ → ℕ) (x : Server g o)
      → Hosted now x
      → Returns (Hosted now) (prepare_cb g o clock x)
  unfolding prepare_cb
  prepare_cb-Hosted now clock x hosted =
      Returns-bind (Stands FdInfo x.net.handles) (Hosted now) (check FdInfo g clock x.net x.queue) _
        (check-Stands FdInfo x.net.handles g clock x.net x.queue refl) (λ r e. rw e hosted)

  module _ (codec : Codec) where
    pub encode_and_reply-Replied :
        (now addr : ℕ) (v : Given) (t : Site FdInfo g o) (s : Option (List ℕ))
        → Host now t.net.handles addr t.conn
        → Returns (Replied now t.net.handles addr) (encode_and_reply g o codec v t s)
    unfolding encode_and_reply
    encode_and_reply-Replied now addr v t s host =
        let h = t.net.handles in
        Returns-bind (SameConvs codec o t.conn) (Replied now h addr)
          (from_normal_to_fec codec o v.roll (v.us 0) (v.us 1) t.conn s) _
          (from_normal_to_fec-SameConvs codec o v.roll (v.us 0) (v.us 1) t.conn s)
          (λ r e.
            Returns-bind (Stands FdInfo h) (Replied now h addr)
              (delay_send_batch FdInfo g v.moments o.random_drop t.net t.queue
                (to_client g o t.conn) r.1)
              _
              (delay_send_batch-Stands FdInfo h g v.moments o.random_drop t.net t.queue
                (to_client g o t.conn) r.1 refl)
              (λ r' e'. (
                e',
                record {
                  named = e.1 ∙ host.named;
                  served = rw e.0 host.served;
                  early = rw e.0 host.early;
                },
              )))

    pub server_process_remote_packet-Replied :
        (now later addr fd64 : ℕ) (v : Given) (t : Site FdInfo g o) (s : Option (List ℕ))
        → Times now later v
        → Host now t.net.handles addr t.conn
        → Returns
            (Replied later t.net.handles addr)
            (server_process_remote_packet g o codec v t fd64 s)
    unfolding server_process_remote_packet is_data_used
    server_process_remote_packet-Replied now later addr fd64 v t s times host =
        let m = t.conn.conv_manager in
        let h = t.net.handles in
        elim (Option-cases (find m.data_to_conv fd64)) [
          | inl missing ↦ rw (server_process_remote_packet, is_data_used, missing) tt
          | inr (conv, back) ↦
              let bound = host.served.kept.there fd64 conv back in
              let early = All-later now (v.ms 0) m.lru times.low host.early in
              let (m', moved, kept, same, same', early', at_now, rest) =
                update_active_time-Kept m conv fd64 (v.ms 0) host.served.kept bound early in
              let (flag, calls) = update_active_time-fields m m' conv (v.ms 0) moved in
              let c : Conn = used g o codec v t.conn m' in
              let host' : Host later h addr c = record {
                named = host.named;
                served = record {
                  kept = kept;
                  notifies = flag ∙ host.served.notifies;
                  settled = calls ∙ host.served.settled;
                  bound = λ k d p. host.served.bound k d (ap (λ n. find n k) (sym same) ∙ p);
                };
                early = All-later (v.ms 0) later m'.lru (times.high 0) early';
              } in
              rw (server_process_remote_packet-run g o codec v t fd64 conv m' s back moved)
                (answered later addr conv v (record t { conn = c }) s host')
        ]
      where
        answered :
            (later addr conv : ℕ) (v : Given) (t : Site FdInfo g o) (s : Option (List ℕ))
            → Host later t.net.handles addr t.conn
            → Returns (Replied later t.net.handles addr) (elim s [
              | none ↦ some t
              | some r ↦
                  if length r == max_data_len + 1
                  then some t
                  else encode_and_reply g o codec v t (some (framed v.head conv r))
            ])
        answered later addr conv v t none host = (refl, host)
        answered later addr conv v t (some r) host =
            Returns-if (Replied later t.net.handles addr) (length r == max_data_len + 1) _ _
              (refl, host)
              (encode_and_reply-Replied later addr v t (some (framed v.head conv r)) host)

    pub remote_cb-Hosted :
        (now later : ℕ) (v : Given) (x : Server g o) (w : Watcher) (recv : ℕ → Option (List ℕ))
        → Times now later v
        → Hosted now x
        → Returns (Hosted later) (remote_cb g o codec v x w recv)
    unfolding remote_cb
    remote_cb-Hosted now later v x w recv times hosted =
        let h = x.net.handles in
        let le : now ≤ later = omega (arith, times.low, times.high 0) in
        Returns-bind (λ c. find x.conns.mp w.conn ≡ some c) (Hosted later) (find x.conns.mp w.conn)
          _ (Returns-self (find x.conns.mp w.conn))
          (λ c given. Returns-after (Hosted later) (assert (exist x.conns c.addr)) _ (λ u.
            elim (Bool-cases (Handles.exist FdInfo h w.u64)) [
              | inl here ↦ rw here (
                  Returns-after (Hosted later) (to_fd FdInfo h w.u64) _ (λ fd.
                    Returns-bind (Replied later h w.conn) (Hosted later)
                      (server_process_remote_packet g o codec v (site_of g o x c) w.u64 (recv fd)) _
                      (server_process_remote_packet-Replied now later w.conn w.u64 v
                        (site_of g o x c) (recv fd) times (hosted.hosts w.conn c given))
                      (λ t. with_site-Hosted now later x w.conn c t le hosted given)))
              | inr gone ↦ rw gone (Hosting-later now later h x.conns.mp le hosted)
            ]))

    pub fec_encode_cb-Hosted :
        (now : ℕ) (v : Given) (x : Server g o) (conn : ℕ)
        → Hosted now x
        → Returns (Hosted now) (fec_encode_cb g o codec v x conn)
    unfolding fec_encode_cb
    fec_encode_cb-Hosted now v x conn hosted =
        let h = x.net.handles in
        Returns-bind (λ c. find x.conns.mp conn ≡ some c) (Hosted now) (find x.conns.mp conn) _
          (Returns-self (find x.conns.mp conn))
          (λ c given. Returns-after (Hosted now) (assert (exist x.conns c.addr)) _ (λ u.
            Returns-bind (Replied now h conn) (Hosted now)
              (encode_and_reply g o codec v (site_of g o x c) none) _
              (encode_and_reply-Replied now conn v (site_of g o x c) none
                (hosted.hosts conn c given))
              (λ t. with_site-Hosted now now x conn c t (omega arith) hosted given)))
