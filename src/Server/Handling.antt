-- ===== src/Server/Handling.antt =====
-- The timers of the server and a packet of the tunnel leave every connection hosted, however they end.
use udpspeeder.Base.{
  ℕ, zero, suc, ◌+◌, ◌^◌, ◌≤◌, ◌<◌, ◌≡◌, refl, ◌∙◌, ap, Bool, true, List, [], Option, none, some,
  length, ◌==◌, ◌>>=◌, arith, Option-cases, inl, inr, if◌then◌else◌, Returns, Returns-bind,
  Returns-if, Returns-some,
}
use udpspeeder.Base.Memory.{slice}
use udpspeeder.Blob.{max_data_len}
use udpspeeder.Rs.{Codec}
use udpspeeder.Lru.Order.{All-later}
use udpspeeder.Cook.{de_cook, decooked, bad_obscure, bad_checksum}
use udpspeeder.Dict.{find}
use udpspeeder.Conns.{exist, find_insert}
use udpspeeder.Conns.Shrinking.{clear_inactive-Shrunk}
use udpspeeder.Sending.{Setting}
use udpspeeder.Tunnel.{
  Conn, Options, update_active_time, from_normal_to_fec, from_fec_to_normal, report,
}
use udpspeeder.Tunnel.Conserve.{
  SameConvs, from_normal_to_fec-SameConvs, from_fec_to_normal-at_once, from_fec_to_normal-few,
}
use udpspeeder.Tunnel.Client.{Given, Site, in_memory}
use udpspeeder.Convs.Erasing.{clear_inactive-keeps}
use udpspeeder.Server.{
  FdInfo, Server, site_of, with_site, accept, server_process_tunnel_packet, conn_timer_cb,
  global_timer_cb,
}
use udpspeeder.Server.{send_all_out}
use udpspeeder.Server.Sockets.{Extends-refl}
use udpspeeder.Server.Hosted.{Hosting, Host-later, Hosting-later, write_back-Hosting}
use udpspeeder.Server.Settled.{Settled, send_all_out-Settled}
use udpspeeder.Server.Admission.{arriving, accept-Accepted, accept-Admitted}
use udpspeeder.Server.Closing.{Expiring, erase_conv-Expiring, Expiring-timed, Served-Expiring}
use udpspeeder.Server.Expiry.{Expiring-Hosting}
use udpspeeder.Server.Replying.{Times, Hosted}

module _ (g : Setting) (o : Options) where
  pub global_timer_cb-Hosted :
      (now : ℕ) (x : Server g o) (t : ℕ)
      → Hosted g o now x
      → Hosted g o now (global_timer_cb g o x t)
  unfolding global_timer_cb
  global_timer_cb-Hosted now x t hosted =
      let r = clear_inactive-Shrunk x.conns t in
      record {
        linked = hosted.linked;
        hosts = λ a c e. hosted.hosts a c (r.nothing_new a c e);
        few = omega (arith, r.fewer, hosted.few);
      }

  -- Any reading of the clock of a callback is not before it.
  since_start : (now later : ℕ) (v : Given) (i : ℕ) → Times now later v → now ≤ v.ms i
  since_start now later v zero t = t.low
  since_start now later v (suc i) t = omega (arith, since_start now later v i t, t.steady i)

  module _ (codec : Codec) where
    pub conn_timer_cb-Hosted :
        (now later interval : ℕ) (flush : Bool) (v : Given) (x : Server g o) (addr : ℕ)
        → Times now later v
        → Hosted g o now x
        → Returns (Hosted g o later) (conn_timer_cb g o codec interval flush v x addr)
    unfolding conn_timer_cb exist
    conn_timer_cb-Hosted now later interval flush v x addr times hosted =
        elim (Option-cases (find x.conns.mp addr)) [
          | inl missing ↦ rw (conn_timer_cb, missing) tt
          | inr (c, given) ↦
              let host = hosted.hosts addr c given in
              let m0 = c.conv_manager in
              let h0 = x.net.handles in
              let early = All-later now later m0.lru le host.early in
              let known : exist x.conns addr ≡ true = rw given refl in
              let (m, cleared, k, p) =
                clear_inactive-keeps (Expiring x.conns addr later h0 m0)
                  (erase_conv-Expiring x.conns addr later h0 m0 known) (v.ms 0) m0
                  (λ t q. Expiring-timed x.conns addr later h0 m0 m0 t q) host.served.kept
                  (Served-Expiring x.conns addr later h0 m0 hosted.linked host.served early) in
              let c1 : Conn = record c { conv_manager = record m { closed = [] } } in
              rw
                (
                  conn_timer_cb,
                  given,
                  ◌>>=◌,
                  ap (exist x.conns) host.named ∙ known,
                  cleared,
                  p.closes,
                )
                (Returns-bind (SameConvs codec o c1) (Hosted g o later)
                  (if flush
                    then from_normal_to_fec codec o v.roll (v.us 0) (v.us 1) c1 none
                    else some (c1, []))
                  _
                  (Returns-if (SameConvs codec o c1) flush _ _
                    (from_normal_to_fec-SameConvs codec o v.roll (v.us 0) (v.us 1) c1 none)
                    (refl, refl, refl))
                  (λ r e.
                    Expiring-Hosting x.conns now later addr h0 m c
                      (record r.0 { stat = report interval (v.ms 1) r.0.stat }) le hosted given k p
                      e.1 e.0))
        ]
      where
        le : now ≤ later
        le = omega (arith, times.low, times.high 0)

    -- A packet that de_cook accepts, from an address whose connection is there or made.
    accepted-Hosted :
        (now later : ℕ) (v : Given) (opened : ℕ → Option ℕ) (x x1 : Server g o) (addr : ℕ)
        (c0 : Conn) (s : List ℕ)
        → Times now later v
        → Hosting (v.ms 1) x1.net.handles x1.conns.mp
        → find x1.conns.mp addr ≡ some c0
        → x1.net.handles.counter + 2 ^ 31 < 2 ^ 64
        → Returns (Hosted g o later) (
            from_fec_to_normal codec o v.behind (update_active_time c0 (v.ms 0)) s >>= λ (c', outs).
            send_all_out g o v opened addr 1 (site_of g o x1 c') outs >>= λ t.
            some (with_site g o x1 addr t))
    unfolding update_active_time
    accepted-Hosted now later v opened x x1 addr c0 s times hosted given room =
        let c1 = update_active_time c0 (v.ms 0) in
        elim (Option-cases (from_fec_to_normal codec o v.behind c1 s)) [
          | inl failed ↦ rw failed tt
          | inr ((c, outs), run) ↦
              let h = x1.net.handles in
              let host = hosted.hosts addr c0 given in
              let few = Returns-some _ _ _ (from_fec_to_normal-few codec o v.behind c1 s) run in
              let (ss, all_now, convs, listens, handle, stat, from) =
                from_fec_to_normal-at_once codec o v.behind c1 c s outs run in
              let t1 : Site FdInfo g o = site_of g o x1 c in
              let start : Settled h addr (v.ms 1) (length outs) t1 = record {
                linked = hosted.linked;
                host = record {
                  named = from ∙ host.named;
                  served = rw convs host.served;
                  early = rw convs host.early;
                };
                extends = Extends-refl h;
                numbers = omega (arith, room, few);
              } in
              rw (run, ◌>>=◌)
                (Returns-bind (λ t. (k : ℕ) × Settled h addr (v.ms k) 0 t) (Hosted g o later)
                  (send_all_out g o v opened addr 1 t1 outs) _
                  (send_all_out-Settled g o h addr v times.steady opened 1 t1 outs start)
                  (λ t (k, w).
                    write_back-Hosting (v.ms 1) later h t.net.handles x1.conns.mp addr c0 t.conn
                      (λ a d ne.
                        Host-later (v.ms 1) later h t.net.handles a d (times.high 1) w.extends)
                      w.linked hosted given
                      (Host-later (v.ms k) later t.net.handles t.net.handles addr t.conn
                        (times.high k) (Extends-refl t.net.handles) w.host)))
        ]

    pub server_process_tunnel_packet-Hosted :
        (now later : ℕ) (v : Given) (was : Conn) (opened : ℕ → Option ℕ) (fd : ℕ) (x : Server g o)
        (s : Option (List ℕ)) (addr : ℕ)
        → Times now later v
        → Hosted g o now x
        → x.net.handles.counter + 2 ^ 31 < 2 ^ 64
        → Returns
            (Hosted g o later)
            (server_process_tunnel_packet g o codec v was opened fd x s addr)
    unfolding server_process_tunnel_packet find_insert
    server_process_tunnel_packet-Hosted now later v was opened fd x none addr times hosted room =
        Hosting-later now later x.net.handles x.conns.mp (omega (arith, times.low, times.high 0))
          hosted
    server_process_tunnel_packet-Hosted now later v was opened fd x (some s) addr times hosted
          room =
        let h = x.net.handles in
        let ignored : Hosted g o later x =
          Hosting-later now later h x.conns.mp (omega (arith, times.low, times.high 0)) hosted in
        let at_one : Hosted g o (v.ms 1) x =
          Hosting-later now (v.ms 1) h x.conns.mp (since_start now later v 1 times) hosted in
        Returns-if (Hosted g o later) (length s == max_data_len + 1) _ _ ignored
          (elim (Option-cases
            (de_cook g.platform g.crc32c v.junk g.ctx (in_memory v.behind s) (length s))) [
              | inl failed ↦ rw failed tt
              | inr (bad_obscure, bad) ↦ rw (bad, ◌>>=◌) ignored
              | inr (bad_checksum, bad) ↦ rw (bad, ◌>>=◌) ignored
              | inr (decooked m len, good) ↦ elim (Option-cases (accept was fd x.conns addr)) [
                | inl full ↦ rw (good, ◌>>=◌, full) ignored
                | inr (cs, run) ↦
                    let (known, admitted) =
                      accept-Admitted (v.ms 1) h was fd addr x.conns cs at_one run in
                    let (cs1, run1, a) =
                      accept-Accepted (v.ms 1) h was fd addr known x.conns at_one admitted in
                    let x1 : Server g o = record x { conns = cs1 } in
                    rw (good, ◌>>=◌, run1, find_insert, a.here)
                      (accepted-Hosted now later v opened x x1 addr (arriving was fd x.conns addr)
                        (slice m 0 len) times a.hosting a.here room)
              ]
            ])
