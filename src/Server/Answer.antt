-- ===== src/Server/Answer.antt =====
-- What a socket of the server receives goes back into the tunnel under the number of its conversation.
use udpspeeder.Base.{
  ℕ, ◌+◌, ◌≡◌, ◌≢◌, refl, ◌⊎◌, ◌∙◌, ap, true, false, List, ◌++◌, Option, none, some, length, ◌==◌,
  ◌>>=◌, if◌then◌else◌, arith, Option-cases, inl, inr, subst,
}
use udpspeeder.Blob.{max_data_len}
use udpspeeder.Bytes.Laws.{u32_bytes}
use udpspeeder.Rs.{Codec}
use udpspeeder.Dict.{Binding, find}
use udpspeeder.Handles.{Handles, to_fd}
use udpspeeder.Handles
use udpspeeder.Convs
use udpspeeder.Convs.{Convs, is_data_used}
use udpspeeder.Convs.Links.{update_active_time-Kept, find_conv_by_data-found}
use udpspeeder.Conns.{exist}
use udpspeeder.Lru
use udpspeeder.Lru.{ts_of}
use udpspeeder.Sending.{Setting, Target, sendto, transmit}
use udpspeeder.Delay.{delay_send_batch}
use udpspeeder.Tunnel.Outgoing.{Goes, Goes-run}
use udpspeeder.Tunnel.{Conn, Options, update_active_time, from_normal_to_fec}
use udpspeeder.Tunnel.Client.{Given, Site, framed}
use udpspeeder.Tunnel.Return.{framed-bytes}
use udpspeeder.Server.{
  FdInfo, Watcher, Server, site_of, with_site, to_client, encode_and_reply,
  server_process_remote_packet, remote_cb, write_back,
}
use udpspeeder.Server.Table.{Shows}
use udpspeeder.Server.Hosted.{Hosting}

update_active_time-lru :
    (m m' : Convs) (conv now : ℕ)
    → Convs.update_active_time m conv now ≡ some m'
    → m' ≡ record m { lru = m'.lru }
unfolding Convs.update_active_time
update_active_time-lru m m' conv now e = elim (Option-cases (Lru.update m.lru conv now)) [
  | inl failed ↦ absurd (cc (rw failed at e))
  | inr (q, made) ↦
      let same : record m { lru = q } ≡ m' = cc (rw made at e) in
      subst (λ n. n ≡ record m { lru = n.lru }) same refl
]

-- The socket in the table is that of the handle.
socket_of :
    {m : Convs} {h : Handles FdInfo} {known : List (Binding ℕ)} {d fd fd' : ℕ} (conv : ℕ)
    → Shows m h known
    → find known conv ≡ some fd
    → find m.conv_to_data conv ≡ some d
    → to_fd FdInfo h d ≡ some fd'
    → fd' ≡ fd
socket_of conv shows socket bound is_open =
    cc (socket, rw (bound, ◌>>=◌) at (shows.sockets conv), is_open)

module _ (g : Setting) (o : Options) (codec : Codec) where
  -- A connection whose conversation was used.
  abbrev pub used : Given → Conn → Convs → Conn
  used v c m = record c { conv_manager = m; last_active_time = v.ms 1 }

  pub server_process_remote_packet-run :
      (v : Given) (t : Site FdInfo g o) (d conv : ℕ) (m : Convs) (s : Option (List ℕ))
      → find t.conn.conv_manager.data_to_conv d ≡ some conv
      → Convs.update_active_time t.conn.conv_manager conv (v.ms 0) ≡ some m
      → (let t' = record t { conn = used v t.conn m } in
          server_process_remote_packet g o codec v t d s ≡ elim s [
            | none ↦ some t'
            | some r ↦
                if length r == max_data_len + 1
                then some t'
                else encode_and_reply g o codec v t' (some (framed v.head conv r))
          ])
  unfolding server_process_remote_packet is_data_used update_active_time
  server_process_remote_packet-run v t d conv m none back moved =
      rw
        (
          server_process_remote_packet,
          is_data_used,
          back,
          find_conv_by_data-found t.conn.conv_manager conv d back,
          ◌>>=◌,
          moved,
        )
        refl
  server_process_remote_packet-run v t d conv m (some r) back moved =
      rw
        (
          server_process_remote_packet,
          is_data_used,
          back,
          find_conv_by_data-found t.conn.conv_manager conv d back,
          ◌>>=◌,
          moved,
        )
        refl

  encode_and_reply-with_site :
      (v : Given) (x : Server g o) (addr : ℕ) (c : Conn) (p : List ℕ)
      → (encode_and_reply g o codec v (site_of g o x c) (some p)
          >>= (λ t. some (with_site g o x addr t)))
        ≡ (from_normal_to_fec codec o v.roll (v.us 0) (v.us 1) c (some p) >>= λ (c', outs).
            delay_send_batch FdInfo g v.moments o.random_drop x.net x.queue (to_client g o c) outs
            >>= λ (n, q). some (with_site g o x addr (record { conn = c'; net = n; queue = q })))
  unfolding encode_and_reply
  encode_and_reply-with_site v x addr c p =
      elim (Option-cases (from_normal_to_fec codec o v.roll (v.us 0) (v.us 1) c (some p))) [
        | inl failed ↦ rw (encode_and_reply, failed) refl
        | inr ((c', outs), done) ↦
            elim (Option-cases (
              delay_send_batch FdInfo g v.moments o.random_drop x.net x.queue (to_client g o c)
                outs)) [
                  | inl failed ↦ rw (encode_and_reply, done, ◌>>=◌, failed) refl
                  | inr ((n, q), sent) ↦ rw (encode_and_reply, done, ◌>>=◌, sent) refl
                ]
      ]

  remote_cb-run :
      (v : Given) (x : Server g o) (w : Watcher) (fd : ℕ) (c : Conn) (recv : ℕ → Option (List ℕ))
      → find x.conns.mp w.conn ≡ some c
      → exist x.conns c.addr ≡ true
      → to_fd FdInfo x.net.handles w.u64 ≡ some fd
      → remote_cb g o codec v x w recv
        ≡ server_process_remote_packet g o codec v (site_of g o x c) w.u64 (recv fd)
          >>= (λ t. some (with_site g o x w.conn t))
  unfolding remote_cb Handles.exist to_fd
  remote_cb-run v x w fd c recv given known is_open =
      rw (remote_cb, given, ◌>>=◌, known, Handles.exist, is_open, to_fd, is_open) refl

  -- The watcher of the socket `fd` of the conversation `conv`, and what its callback does. `convs` are the
  -- conversations with the time of the last use of `conv` set.
  pub record Answers (v : Given) (x : Server g o) (addr conv fd : ℕ) (c : Conn) : Type 0 where
    pub watcher : Watcher
    pub started :
        x.net.handles.fd_info_mp watcher.u64
        ≡ some (record { addr = addr; io_watcher = some watcher })
    pub waits_for : watcher.fd ≡ fd
    pub convs : Convs
    pub same : convs ≡ record c.conv_manager { lru = convs.lru }
    pub at_now : ts_of convs.lru conv ≡ some (v.ms 0)
    pub others : (conv' : ℕ) → conv' ≢ conv → ts_of convs.lru conv' ≡ ts_of c.conv_manager.lru conv'
    pub answers :
        (recv : ℕ → Option (List ℕ)) (r : List ℕ)
        → recv fd ≡ some r
        → length r ≢ max_data_len + 1
        → Goes FdInfo g o codec v
            (record c { conv_manager = convs; last_active_time = v.ms 1 })
            x.net
            x.queue
            (record { target = Target.type_fd_addr c.local_listen_fd addr; cook = true })
            (u32_bytes conv ++ r)
            (remote_cb g o codec v x watcher recv)
            (λ c' w q. with_site g o x addr (record { conn = c'; net = w; queue = q }))
            (sendto c.local_listen_fd addr)
    pub refuses :
        (recv : ℕ → Option (List ℕ))
        → (recv fd ≡ none) ⊎ ((r : List ℕ) × (recv fd ≡ some r) × (length r ≡ max_data_len + 1))
        → remote_cb g o codec v x watcher recv
          ≡ some (record x {
            conns = record x.conns {
              mp =
                  write_back x.conns.mp addr
                    (record c { conv_manager = convs; last_active_time = v.ms 1 });
            };
          })

  -- Where the connections are hosted, a socket in the table of a connection has a watcher that was started for
  -- it and for the address of the connection. Its callback sets the times of the last use of the conversation
  -- and of the connection. What the socket receives is given to the encoder with the number of the
  -- conversation in front, and what the encoder gives is sent to the address, or without error correction
  -- the packet itself, cooked; if the reading fails or the packet is too long, nothing else is changed.
  pub remote_cb-Answers :
      (v : Given) (x : Server g o) (addr conv fd : ℕ) (c : Conn) (known : List (Binding ℕ))
      → Hosting (v.ms 0) x.net.handles x.conns.mp
      → find x.conns.mp addr ≡ some c
      → Shows c.conv_manager x.net.handles known
      → find known conv ≡ some fd
      → Answers v x addr conv fd c
  unfolding exist encode_and_reply transmit
  remote_cb-Answers v x addr conv fd c known hosted given shows socket =
      elim (Option-cases (find c.conv_manager.conv_to_data conv)) [
        | inl missing ↦ absurd (cc (socket, rw missing at (shows.sockets conv)))
        | inr (d, bound) ↦
            let host = hosted.hosts addr c given in
            let r = host.served.bound conv d bound in
            let m = c.conv_manager in
            let back = host.served.kept.back d conv bound in
            let same_fd : r.fd ≡ fd = socket_of conv shows socket bound r.is_open in
            let known_addr : exist x.conns c.addr ≡ true =
              ap (exist x.conns) host.named ∙ rw given refl in
            let (m', moved, kept, same, same', early, at_now, rest) =
              update_active_time-Kept m conv d (v.ms 0) host.served.kept bound host.early in
            let w : Watcher = record { u64 = d; conn = addr; fd = r.fd } in
            let run = λ (recv : ℕ → Option (List ℕ)).
              remote_cb-run v x w fd c recv given known_addr (r.is_open ∙ ap some same_fd)
              ∙ ap (λ (t : Option (Site FdInfo g o)). t >>= (λ y. some (with_site g o x addr y)))
                  (server_process_remote_packet-run v (site_of g o x c) d conv m' (recv fd) back
                    moved) in
            record {
              watcher = w;
              started = r.info;
              waits_for = same_fd;
              convs = m';
              same = update_active_time-lru m m' conv (v.ms 0) moved;
              at_now = at_now;
              others = rest;
              answers = λ recv p read short.
                  let fits : (length p == max_data_len + 1) ≡ false = ground (arith, short) in
                  subst
                    (λ a.
                      Goes FdInfo g o codec v (used v c m') x.net x.queue
                        (record { target = Target.type_fd_addr c.local_listen_fd a; cook = true })
                        (u32_bytes conv ++ p) (remote_cb g o codec v x w recv)
                        (λ c' n q. with_site g o x addr (record { conn = c'; net = n; queue = q }))
                        (sendto c.local_listen_fd a))
                    host.named
                    (Goes-run FdInfo g o codec v (used v c m') x.net x.queue
                      (record {
                        target = Target.type_fd_addr c.local_listen_fd c.addr;
                        cook = true;
                      })
                      (u32_bytes conv ++ p) (remote_cb g o codec v x w recv)
                      (λ c' n q. with_site g o x addr (record { conn = c'; net = n; queue = q }))
                      (sendto c.local_listen_fd c.addr) refl (λ w' b e. refl)
                      (run recv
                        ∙ rw (read, fits, framed-bytes v.head conv p)
                            (encode_and_reply-with_site v x addr (used v c m')
                              (u32_bytes conv ++ p))));
              refuses = λ recv failed. elim failed [
                | inl read ↦ run recv ∙ rw read refl
                | inr (p, read, long) ↦
                    let over : (length p == max_data_len + 1) ≡ true = ground (arith, long) in
                    run recv ∙ rw (read, over) refl
              ];
            }
      ]
