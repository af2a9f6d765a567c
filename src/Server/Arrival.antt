-- ===== src/Server/Arrival.antt =====
-- A packet of the tunnel at the server as a whole: from the address it comes from to the sockets that what it
-- holds goes out by.
use udpspeeder.Base.{
  ℕ, suc, ◌+◌, ◌^◌, ◌≤◌, ◌<◌, ◌≡◌, ◌≢◌, refl, ◌∙◌, ap, false, List, ◌++◌, Option, some, ◌⊎◌, length,
  ◌==◌, ◌>>=◌, arith,
}
use udpspeeder.Base.Memory.{Memory, slice}
use udpspeeder.Blob.{max_data_len}
use udpspeeder.Rs.{Codec}
use udpspeeder.Cook.{de_cook, decooked}
use udpspeeder.Dict.{Binding, find}
use udpspeeder.Handles.{fd_exist}
use udpspeeder.Conns.{find_insert}
use udpspeeder.Sending.{Setting}
use udpspeeder.Sending.Wire.{wire}
use udpspeeder.Tunnel.{Conn, Options, update_active_time, from_fec_to_normal, at_once}
use udpspeeder.Tunnel.Conserve.{from_fec_to_normal-at_once, length-at_once}
use udpspeeder.Tunnel.Client.{Given, Site, in_memory}
use udpspeeder.Server.{FdInfo, Server, site_of, with_site, server_process_tunnel_packet}
use udpspeeder.Server.Admission.{arriving, Admitted, accept-Accepted}
use udpspeeder.Server.Opening.{Live}
use udpspeeder.Server.Table.{Shows, Extends-Shows}
use udpspeeder.Server.Hosted.{
  Hosting, Host-later, find-write_back_self, find-write_back_other, write_back-Hosting,
}
use udpspeeder.Server.Routes.{routes, send_all_out-Sent}

module _ (g : Setting) (o : Options) where
  -- A packet of `addr` is served: `ss` came out of the decoder.
  pub record Forwarded (behind : Memory) (opened : ℕ → Option ℕ) (now addr : ℕ)
      (known : List (Binding ℕ)) (ss : List (List ℕ)) (x x' : Server g o) : Type 0 where
    pub sends : wire x'.net.calls ≡ wire x.net.calls ++ (routes behind opened 1 known ss).0
    pub same_queue : x'.queue ≡ x.queue
    pub hosting : Hosting now x'.net.handles x'.conns.mp
    pub conn : Conn
    pub here : find x'.conns.mp addr ≡ some conn
    pub shows : Shows conn.conv_manager x'.net.handles (routes behind opened 1 known ss).1
    pub others : (a : ℕ) → a ≢ addr → find x'.conns.mp a ≡ find x.conns.mp a
    pub others_show :
        (a : ℕ) (c : Conn) (table : List (Binding ℕ))
        → a ≢ addr
        → find x.conns.mp a ≡ some c
        → Shows c.conv_manager x.net.handles table
        → Shows c.conv_manager x'.net.handles table

  module _ (codec : Codec) (v : Given) (was : Conn) (opened : ℕ → Option ℕ) (fd : ℕ)
      (x : Server g o) (s : List ℕ) (addr : ℕ) (known : List (Binding ℕ)) (m : Memory) (len : ℕ)
      (c : Conn) (outs : List (ℕ × List ℕ)) where
    -- Where the connections are hosted, the address is admitted with the sockets `known`, the clock does not
    -- go back, the system opens descriptors that are not open, the numbers of handles do not pass 64 bits and
    -- the queue has room: of a packet of an allowed length that de_cook accepts and the decoder of the
    -- connection takes, the server sends what comes out, in order, to the sockets that the table gives or
    -- that are opened for it, and nothing else; after that the connection has the sockets of the table, the
    -- other connections are as they were with theirs, and all are hosted.
    pub server_process_tunnel_packet-routes :
        ((i : ℕ) → v.ms i ≤ v.ms (suc i))
        → ((i j d : ℕ) → i < j → opened i ≡ some d → opened j ≢ some d)
        → ((j d : ℕ) → opened j ≡ some d → fd_exist FdInfo x.net.handles d ≡ false)
        → Hosting (v.ms 1) x.net.handles x.conns.mp
        → Admitted x.conns x.net.handles addr known
        → (x.queue.capacity ≡ 0) ⊎ (length x.queue.delay_mp < x.queue.capacity)
        → x.net.handles.counter + length outs < 2 ^ 64
        → length s ≢ max_data_len + 1
        → de_cook g.platform g.crc32c v.junk g.ctx (in_memory v.behind s) (length s)
          ≡ some (decooked m len)
        → from_fec_to_normal codec o v.behind
            (update_active_time (arriving was fd x.conns addr) (v.ms 0))
            (slice m 0 len)
          ≡ some (c, outs)
        → (ss : List (List ℕ)) × (n : ℕ) × (x' : Server g o) × (outs ≡ at_once ss)
          × (server_process_tunnel_packet g o codec v was opened fd x (some s) addr ≡ some x')
          × Forwarded v.behind opened (v.ms n) addr known ss x x'
    unfolding server_process_tunnel_packet find_insert update_active_time
    server_process_tunnel_packet-routes steady fresh unused hosted admitted room numbers short
          accepted decoded =
        let h = x.net.handles in
        let c0 = arriving was fd x.conns addr in
        let (cs, admits, a) =
          accept-Accepted (v.ms 1) h was fd addr known x.conns hosted admitted in
        let host = a.hosting.hosts addr c0 a.here in
        let (ss, all_now, convs, listens, handle, stat, from) =
          from_fec_to_normal-at_once codec o v.behind (update_active_time c0 (v.ms 0)) c
            (slice m 0 len) outs decoded in
        let x1 : Server g o = record x { conns = cs } in
        let t1 : Site FdInfo g o = site_of g o x1 c in
        let live : Live g o v opened addr 1 (length ss) known t1 = record {
          linked = hosted.linked;
          served = rw convs host.served;
          shows = rw convs a.shows;
          early = rw convs host.early;
          room = room;
          numbers = omega (arith, ap length all_now, length-at_once ss, numbers);
          unused = λ j d after e. unused j d e;
        } in
        let decoded' : from_fec_to_normal codec o v.behind (update_active_time c0 (v.ms 0))
              (slice m 0 len)
            ≡ some (c, at_once ss) =
          decoded ∙ ap (λ os. some (c, os)) all_now in
        let (n, t, run, passed, sent) =
          send_all_out-Sent g o v opened addr steady fresh 1 known t1 ss live in
        let x' : Server g o = with_site g o x1 addr t in
        let fits : (length s == max_data_len + 1) ≡ false = ground (arith, short) in
        (
          ss,
          n,
          x',
          all_now,
          rw
              (
                server_process_tunnel_packet, fits, accepted, ◌>>=◌, admits, find_insert, a.here,
                decoded', run,
              )
              refl,
          record {
            sends = sent.sends;
            same_queue = sent.same_queue;
            hosting =
                write_back-Hosting (v.ms 1) (v.ms n) h t.net.handles cs.mp addr c0 t.conn
                  (λ k d ne. Host-later (v.ms 1) (v.ms n) h t.net.handles k d passed sent.extends)
                  sent.live.linked a.hosting a.here
                  (record {
                    named = ap (λ (d : Conn). d.addr) sent.same_conn ∙ from ∙ host.named;
                    served = sent.live.served;
                    early = sent.live.early;
                  });
            conn = t.conn;
            here = find-write_back_self cs.mp addr t.conn c0 a.here;
            shows = sent.live.shows;
            others = λ k ne. find-write_back_other cs.mp addr k t.conn ne ∙ a.others k ne;
            others_show = λ k d table ne found show.
                Extends-Shows k h t.net.handles d.conv_manager table sent.extends
                  (hosted.hosts k d found).served show;
          },
        )
