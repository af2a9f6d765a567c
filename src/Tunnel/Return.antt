-- ===== src/Tunnel/Return.antt =====
-- A packet of an application goes into the tunnel under the number of its conversation, and what comes back
-- under that number goes to the application.
use udpspeeder.Base.{
  ℕ, suc, sym, Option, Returns, Returns-bind, Returns-after, Returns-some, ◌+◌, ◌≤◌, ◌<◌, ◌^◌, ◌≡◌,
  ◌≢◌, refl, ◌∙◌, ap, true, false, List, [], ◌∷◌, ◌++◌, some, ◌⊎◌, length, All, leb, ◌==◌, ◌>>=◌,
  arith, Option-cases, inl, inr, subst,
}
use udpspeeder.Base.Memory.{Memory, slice}
use udpspeeder.Bytes.Laws.{u32_bytes}
use udpspeeder.Blob.{max_data_len}
use udpspeeder.Rs.{Codec}
use udpspeeder.Framing.{put_conv_inplace}
use udpspeeder.Framing.InPlace.{put_conv_inplace-slice, get_conv-bytes}
use udpspeeder.Cook.{de_cook, decooked}
use udpspeeder.Handles.{exist, to_fd}
use udpspeeder.Lru.{ts_of}
use udpspeeder.Sending.{Setting, Net, Target, send, call, called, transmit, with_fd}
use udpspeeder.Sending.Wire.{wire}
use udpspeeder.Delay.{delay_send_batch}
use udpspeeder.Tunnel.Conserve.{SameConvs, from_normal_to_fec-SameConvs}
use udpspeeder.Tunnel.Outgoing.{Goes, Goes-run}
use udpspeeder.Tunnel.Passage.{client_process_remote_packet-homes}
use udpspeeder.Lru.Order.{All-later}
use udpspeeder.Dict.{find}
use udpspeeder.Convs.{Convs, is_conv_used, is_data_used, get_size}
use udpspeeder.Convs.Links.{
  Kept, insert_conv-Kept, update_active_time-Kept, find_conv_by_data-found,
}
use udpspeeder.Convs.Fresh.{get_new_conv_returns}
use udpspeeder.Tunnel.{Conn, Options, from_normal_to_fec, from_fec_to_normal, at_once}
use udpspeeder.Tunnel.Client.{
  Given, Site, max_conv_num, framed, conv_of, encode_and_send, client_process_local_packet,
  client_process_remote_packet, to_server, in_memory,
}
use udpspeeder.Tunnel.Replies.{Ready, home, homes}

-- The address has a conversation, or there is room for one and a number to be drawn for it.
abbrev pub Servable : Given → Convs → ℕ → Type 0
Servable v m addr =
    (is_data_used m addr ≡ true)
    ⊎ ((get_size m < max_conv_num)
        × ((before : List ℕ) × (c : ℕ) × (after : List ℕ) × (v.draws ≡ before ++ c ∷ after)
            × (c ≢ 0)
            × (is_conv_used m c ≡ false)))

record Bound (v : Given) (m : Convs) (addr conv : ℕ) : Type 0 where
  kept : Kept m
  bound : find m.conv_to_data conv ≡ some addr
  early : All (λ e. e.ts ≤ v.ms 0) m.lru

conv_of-Bound :
    (v : Given) (m : Convs) (addr : ℕ)
    → Kept m
    → All (λ e. e.ts ≤ v.ms 0) m.lru
    → All (λ r. r < 2 ^ 32) v.draws
    → Servable v m addr
    → (m' : Convs) × (conv : ℕ) × (conv_of v m addr ≡ some (some (m', conv))) × Bound v m' addr conv
unfolding conv_of is_data_used
conv_of-Bound v m addr k early words servable = elim (Option-cases (find m.data_to_conv addr)) [
  | inr (conv, known) ↦ (
    m,
    conv,
    rw (conv_of, is_data_used, known, find_conv_by_data-found m conv addr known) refl,
    record { kept = k; bound = k.there addr conv known; early = early },
  )
  | inl unknown ↦ elim servable [
    | inl used ↦ absurd (cc (rw unknown at used))
    | inr (room, (before, c, after, drawn, nz, fresh)) ↦
        let (conv, rest, new, not_zero, not_used, word) =
          get_new_conv_returns m before c after nz fresh
            (subst (λ l. All (λ r. r < 2 ^ 32) l) drawn words) in
        let few : leb max_conv_num (get_size m) ≡ false = ground (arith, room) in
        let unused : is_data_used m addr ≡ false = rw unknown refl in
        let (m', inserted, kept, bound, to_conv, to_data, early', at_now, others) =
          insert_conv-Kept m conv addr (v.ms 0) k not_used unused early word in
        (
          m',
          conv,
          rw (conv_of, is_data_used, unknown, few, drawn, new, ◌>>=◌, inserted) refl,
          record { kept = kept; bound = bound; early = early' },
        )
  ]
]

pub framed-bytes :
    (head : Memory) (conv : ℕ) (s : List ℕ) → framed head conv s ≡ u32_bytes conv ++ s
unfolding framed put_conv_inplace
framed-bytes head conv s = put_conv_inplace-slice head conv s

-- A packet that is framed with the number of a conversation in use goes to its address.
homes-framed :
    (fd : ℕ) (behind : Memory) (m : Convs) (conv addr : ℕ) (r : List ℕ)
    → conv < 2 ^ 32
    → find m.conv_to_data conv ≡ some addr
    → homes fd behind m ((u32_bytes conv ++ r) ∷ [])
      ≡ record { fd = fd; to = some addr; bytes = r } ∷ []
homes-framed fd behind m conv addr r small bound =
    let (read, bytes) = get_conv-bytes behind conv r small in
    rw (homes, read, home, bound, bytes) refl

at_once_one : (p : List ℕ) (ss : List (List ℕ)) → at_once (p ∷ []) ≡ at_once ss → ss ≡ p ∷ []
at_once_one p [] e = cc
at_once_one p (s ∷ []) e = cc
at_once_one p (s ∷ s' ∷ ss) e = cc

module _ (Info : Type 0) (g : Setting) (o : Options) (codec : Codec) where
  -- A handle that is open reaches its socket.
  transmit-open :
      (w : Net Info) (fd64 fd : ℕ) (s : List ℕ)
      → to_fd Info w.handles fd64 ≡ some fd
      → transmit Info g w (Target.type_fd64 fd64) s ≡ some (call Info w (send fd s), called)
  unfolding transmit with_fd exist to_fd
  transmit-open w fd64 fd s is_open = rw (transmit, with_fd, exist, is_open, to_fd, is_open) refl

  -- What is encoded and sent leaves the conversations.
  encode_and_send-keeps :
      (v : Given) (x : Site Info g o) (s : Option (List ℕ))
      → Returns
          (λ y.
            (y.conn.conv_manager ≡ x.conn.conv_manager)
            × (y.conn.local_listen_fd ≡ x.conn.local_listen_fd))
          (encode_and_send Info g o codec v x s)
  unfolding encode_and_send
  encode_and_send-keeps v x s =
      Returns-bind (SameConvs codec o x.conn) _
        (from_normal_to_fec codec o v.roll (v.us 0) (v.us 1) x.conn s) _
        (from_normal_to_fec-SameConvs codec o v.roll (v.us 0) (v.us 1) x.conn s)
        (λ r e.
          Returns-after _
            (delay_send_batch Info g v.moments o.random_drop x.net x.queue
              (to_server Info g o codec x.conn) r.1)
            _ (λ r'. (e.0, e.2)))

  -- The client with `x` hands the packet `s` of `addr` on under the number `conv`, and what the tunnel then
  -- brings back under that number goes to `addr`.
  pub record Exchanged (v : Given) (x : Site Info g o) (s : List ℕ) (addr fd conv : ℕ) (m : Convs)
      : Type 0 where
    pub goes :
        Goes Info g o codec v
          (record x.conn { conv_manager = m })
          x.net
          x.queue
          (record { target = Target.type_fd64 x.conn.remote_fd64; cook = true })
          (u32_bytes conv ++ s)
          (client_process_local_packet Info g o codec v x s addr)
          (λ c w q. record { conn = c; net = w; queue = q })
          (send fd)
    pub kept : Kept m
    pub bound : find m.conv_to_data conv ≡ some addr
    pub at_now : ts_of m.lru conv ≡ some (v.ms 1)
    pub comes_back :
        (x1 : Site Info g o) (v' : Given) (t r : List ℕ) (mem : Memory) (len : ℕ) (c : Conn)
        → client_process_local_packet Info g o codec v x s addr ≡ some x1
        → ((i : ℕ) → v'.ms i ≤ v'.ms (suc i))
        → v.ms 1 ≤ v'.ms 0
        → (x1.queue.capacity ≡ 0) ⊎ (length x1.queue.delay_mp < x1.queue.capacity)
        → length t ≢ max_data_len + 1
        → de_cook g.platform g.crc32c v'.junk g.ctx (in_memory v'.behind t) (length t)
          ≡ some (decooked mem len)
        → from_fec_to_normal codec o v'.behind x1.conn (slice mem 0 len)
          ≡ some (c, at_once ((u32_bytes conv ++ r) ∷ []))
        → (x2 : Site Info g o) × (client_process_remote_packet Info g o codec v' x1 (some t)
            ≡ some x2)
          × (wire x2.net.calls
              ≡ wire x1.net.calls
                ++ record { fd = x.conn.local_listen_fd; to = some addr; bytes = r } ∷ [])

  -- Where the maps are inverse, no use is noted after the clock, the random numbers have 32 bits, the socket to
  -- the server is open, and the address has a conversation or can be given one: the client gives a packet of
  -- an allowed length to its encoder with the number of a conversation of the address in front, and sends
  -- what the encoder gives to the server, or without error correction the packet itself, cooked. If the
  -- next packet of the tunnel brings one packet with that number out of the decoder, the client sends its
  -- bytes to the address, and nothing else, where the clock has not gone back and the queue has room.
  pub client_process_local_packet-homes :
      (v : Given) (x : Site Info g o) (s : List ℕ) (addr fd : ℕ)
      → Kept x.conn.conv_manager
      → All (λ e. e.ts ≤ v.ms 0) x.conn.conv_manager.lru
      → v.ms 0 ≤ v.ms 1
      → All (λ r. r < 2 ^ 32) v.draws
      → Servable v x.conn.conv_manager addr
      → to_fd Info x.net.handles x.conn.remote_fd64 ≡ some fd
      → length s ≢ max_data_len + 1
      → (m : Convs) × (conv : ℕ) × Exchanged v x s addr fd conv m
  unfolding client_process_local_packet encode_and_send
  client_process_local_packet-homes v x s addr fd k early steady words servable is_open short =
      let (m1, conv, found, b) = conv_of-Bound v x.conn.conv_manager addr k early words servable in
      let early1 = All-later (v.ms 0) (v.ms 1) m1.lru steady b.early in
      let (m, moved, kept, same, same', early2, at_now, others) =
        update_active_time-Kept m1 conv addr (v.ms 1) b.kept b.bound early1 in
      let bound : find m.conv_to_data conv ≡ some addr = ap (λ n. find n conv) same ∙ b.bound in
      let fits : (length s == max_data_len + 1) ≡ false = ground (arith, short) in
      let c : Conn = record x.conn { conv_manager = m } in
      let run : client_process_local_packet Info g o codec v x s addr
          ≡ encode_and_send Info g o codec v (record x { conn = c }) (some (u32_bytes conv ++ s)) =
        rw (client_process_local_packet, fits, found, ◌>>=◌, moved, framed-bytes v.head conv s)
          refl in
      (
        m,
        conv,
        record {
          goes =
              Goes-run Info g o codec v c x.net x.queue
                (record { target = Target.type_fd64 x.conn.remote_fd64; cook = true })
                (u32_bytes conv ++ s) (client_process_local_packet Info g o codec v x s addr)
                (λ c w q. record { conn = c; net = w; queue = q }) (send fd) refl
                (λ w' p e.
                  transmit-open w' x.conn.remote_fd64 fd p
                    (ap (λ h. to_fd Info h x.conn.remote_fd64) e ∙ is_open))
                run;
          kept = kept;
          bound = bound;
          at_now = at_now;
          comes_back = λ x1 v' t r mem len c' run1 steady' later room fits' accepted decoded.
              let (convs, listens) =
                Returns-some _ _ x1
                  (encode_and_send-keeps v (record x { conn = c }) (some (u32_bytes conv ++ s)))
                  (sym run ∙ run1) in
              let ready : Ready Info g o v' x1.conn.conv_manager 0 x1 = record {
                kept = rw convs kept;
                same = refl;
                early = rw convs (All-later (v.ms 1) (v'.ms 0) m.lru later early2);
                room = room;
              } in
              let (ss, x2, one, run2, sends, queue, kept2, same2) =
                client_process_remote_packet-homes Info g o codec v' x1 t mem len c'
                  (at_once ((u32_bytes conv ++ r) ∷ [])) steady' ready fits' accepted decoded in
              let homeward : homes x1.conn.local_listen_fd v'.behind x1.conn.conv_manager ss
                  ≡ record { fd = x.conn.local_listen_fd; to = some addr; bytes = r } ∷ [] =
                rw (at_once_one (u32_bytes conv ++ r) ss one, listens, convs)
                  (homes-framed x.conn.local_listen_fd v'.behind m conv addr r
                    (kept.word conv addr bound) bound) in
              (x2, run2, sends ∙ ap (λ ds. wire x1.net.calls ++ ds) homeward);
        },
      )
