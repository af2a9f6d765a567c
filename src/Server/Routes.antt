-- ===== src/Server/Routes.antt =====
-- What comes out of the decoder of the server goes to the sockets of its conversations.
use mathlib.Core.List.{append_assoc, append-nil}
use udpspeeder.Base.{
  Bool, ℕ, suc, ◌^◌, ◌≤◌, ◌<◌, ◌≡◌, ◌≢◌, refl, ◌∙◌, sym, ap, false, List, [], ◌∷◌, ◌++◌, Option,
  none, some, ◌⊎◌, length, ◌>>=◌, arith, Option-cases, inl, inr,
}
use udpspeeder.Base.Memory.{Memory, slice}
use udpspeeder.Bytes.{read_u32}
use udpspeeder.Framing.{Unframed, get_conv}
use udpspeeder.Handles.{exist, to_fd}
use udpspeeder.Sending.{Target, Net, Setting, send, call, my_send, cook_data, transmit, with_fd}
use udpspeeder.Sending.Wire.{Datagram, wire, wire-append}
use udpspeeder.Delay.{Delay, ok, delay_send, add, handle}
use udpspeeder.Delay.Order.{has_room}
use udpspeeder.Lru.Order.{All-later}
use udpspeeder.Dict.{Binding, find}
use udpspeeder.Lru
use udpspeeder.Convs.{Convs, get_size, update_active_time}
use udpspeeder.Convs.Links.{update_active_time-Kept, find_data_by_conv-found}
use udpspeeder.Tunnel.{Conn, Options, at_once}
use udpspeeder.Tunnel.Client.{Given, Site, in_memory}
use udpspeeder.Server.{FdInfo, open_conv, send_out, send_all_out}
use udpspeeder.Server.Sockets.{Extends, Extends-refl, Extends-trans}
use udpspeeder.Server.Opening.{Live, Opened, open_conv-Opened}
use udpspeeder.Server.Table.{socket_for}

-- For packets with a number of a conversation in front, told apart from the code: to which sockets they are
-- to go, by a table of sockets alone, and the table after them.
module _ (behind : Memory) (opened : ℕ → Option ℕ) where
  abbrev pub route :
      (i : ℕ) → List (Binding ℕ) → Option Unframed → Memory → List Datagram × List (Binding ℕ)
  route i known none s = ([], known)
  route i known (some u) s = elim (socket_for (opened i) known u.conv) [
    | none ↦ ([], known)
    | some (fd, known') ↦
        (record { fd = fd; to = none; bytes = slice s u.output u.len_out } ∷ [], known')
  ]

  abbrev pub routes : (i : ℕ) → List (Binding ℕ) → List (List ℕ) → List Datagram × List (Binding ℕ)
  routes i known [] = ([], known)
  routes i known (s ∷ ss) =
      let (now, known') =
        route i known (get_conv (in_memory behind s) (length s)) (in_memory behind s) in
      let (later, known'') = routes (suc (suc i)) known' ss in (now ++ later, known'')

pub update_active_time-fields :
    (m m' : Convs) (c now : ℕ)
    → update_active_time m c now ≡ some m'
    → (m'.additional_clear_function ≡ m.additional_clear_function) × (m'.closed ≡ m.closed)
unfolding update_active_time
update_active_time-fields m m' c now e = elim (Option-cases (Lru.update m.lru c now)) [
  | inl failed ↦ absurd (cc (rw failed at e))
  | inr (q, made) ↦ (cc (rw made at e), cc (rw made at e))
]

-- The number that get_conv reads has 32 bits.
pub get_conv-word :
    (m : Memory) (len : ℕ) (u : Unframed) → get_conv m len ≡ some u → u.conv < 2 ^ 32
unfolding get_conv read_u32
get_conv-word m len u e = ground (arith, e)

module _ (g : Setting) (o : Options) where
  delay_send_handle :
      (now : ℕ) (allocated : Bool) (random : ℕ) (w : Net FdInfo) (q : Delay) (d fd : ℕ) (s : List ℕ)
      → (q.capacity ≡ 0) ⊎ (length q.delay_mp < q.capacity)
      → to_fd FdInfo w.handles d ≡ some fd
      → delay_send FdInfo g now allocated o.random_drop random w q 0
          (record { target = Target.type_fd64 d; cook = false })
          s
        ≡ some (call FdInfo w (send fd s), q, ok)
  unfolding delay_send add handle my_send cook_data transmit with_fd exist to_fd
  delay_send_handle now allocated random w q d fd s room is_open =
      rw (has_room q.capacity (length q.delay_mp) room) (ground (arith, is_open))

  -- What packets of the connection of `addr` leave, with `ds` on the wire.
  pub record Sent (v : Given) (opened : ℕ → Option ℕ) (addr i n : ℕ) (known : List (Binding ℕ))
      (ds : List Datagram) (t t' : Site FdInfo g o) : Type 0 where
    pub live : Live g o v opened addr i n known t'
    pub sends : wire t'.net.calls ≡ wire t.net.calls ++ ds
    pub extends : Extends t.net.handles t'.net.handles
    pub same_queue : t'.queue ≡ t.queue
    pub same_conn : t'.conn ≡ record t.conn { conv_manager = t'.conn.conv_manager }

  module _ (v : Given) (opened : ℕ → Option ℕ) (addr : ℕ) (steady : (i : ℕ) → v.ms i ≤ v.ms (suc i))
      (others : (i j fd : ℕ) → i < j → opened i ≡ some fd → opened j ≢ some fd) where
    skipped :
        (i n : ℕ) (known : List (Binding ℕ)) (t : Site FdInfo g o)
        → Live g o v opened addr i (suc n) known t
        → Sent v opened addr (suc (suc i)) n known [] t t
    skipped i n known t l = record {
      live = record {
        linked = l.linked;
        served = l.served;
        shows = l.shows;
        early =
            All-later (v.ms i) (v.ms (suc (suc i))) t.conn.conv_manager.lru
              (omega (arith, steady i, steady (suc i))) l.early;
        room = l.room;
        numbers = omega (arith, l.numbers);
        unused = λ j fd h e. l.unused j fd (omega arith) e;
      };
      sends = sym (append-nil (wire t.net.calls));
      extends = Extends-refl t.net.handles;
      same_queue = refl;
      same_conn = refl;
    }

    -- A packet of a conversation with a socket.
    send_out-opened :
        (i n : ℕ) (known known' : List (Binding ℕ)) (t t1 : Site FdInfo g o) (s : List ℕ)
        (u : Unframed) (fd : ℕ)
        → get_conv (in_memory v.behind s) (length s) ≡ some u
        → open_conv g o v (opened i) addr i t u.conv ≡ some (some t1)
        → Opened g o v opened addr i n u.conv fd known' t t1
        → (t' : Site FdInfo g o) × (send_out g o v opened addr i t 0 s ≡ some t')
          × Sent v opened addr
              (suc (suc i))
              n
              known'
              (record {
                fd = fd;
                to = none;
                bytes = slice (in_memory v.behind s) u.output u.len_out;
              }
                ∷ [])
              t
              t'
    unfolding send_out get_size
    send_out-opened i n known known' t t1 s u fd framed run w =
        let bytes = slice (in_memory v.behind s) u.output u.len_out in
        let m1 = t1.conn.conv_manager in
        let (m, moved, kept, same, same', early, at_now, rest) =
          update_active_time-Kept m1 u.conv w.handle (v.ms (suc i)) w.live.served.kept w.bound
            w.live.early in
        let found =
          find_data_by_conv-found m u.conv w.handle (ap (λ n. find n u.conv) same ∙ w.bound) in
        let sent =
          delay_send_handle (v.moments i).now (v.moments i).allocated (v.moments i).random t1.net
            t1.queue w.handle fd bytes w.live.room w.is_open in
        let (flag, calls) = update_active_time-fields m1 m u.conv (v.ms (suc i)) moved in
        (
          record {
            conn = record t1.conn { conv_manager = m };
            net = call FdInfo t1.net (send fd bytes);
            queue = t1.queue;
          },
          rw (send_out, framed, run, ◌>>=◌, moved, found, sent) refl,
          record {
            live = record {
              linked = w.live.linked;
              served = record {
                kept = kept;
                notifies = flag ∙ w.live.served.notifies;
                settled = calls ∙ w.live.served.settled;
                bound = λ c d e. w.live.served.bound c d (ap (λ n. find n c) (sym same) ∙ e);
              };
              shows = record {
                sockets = λ c. rw same (w.live.shows.sockets c);
                size = ap length same ∙ w.live.shows.size;
              };
              early = All-later (v.ms (suc i)) (v.ms (suc (suc i))) m.lru (steady (suc i)) early;
              room = w.live.room;
              numbers = w.live.numbers;
              unused = λ j fd' h e. w.live.unused j fd' (omega arith) e;
            };
            sends =
                wire-append t1.net.calls (send fd bytes ∷ [])
                ∙ ap (λ cs. wire cs ++ record { fd = fd; to = none; bytes = bytes } ∷ [])
                    w.same_calls;
            extends = w.extends;
            same_queue = w.same_queue;
            same_conn = ap (λ (c : Conn). record c { conv_manager = m }) w.same_conn;
          },
        )

    send_out-Sent :
        (i n : ℕ) (known : List (Binding ℕ)) (t : Site FdInfo g o) (s : List ℕ)
        → Live g o v opened addr i (suc n) known t
        → (t' : Site FdInfo g o) × (send_out g o v opened addr i t 0 s ≡ some t')
          × (let r =
                route v.behind opened i known
                  (get_conv (in_memory v.behind s) (length s))
                  (in_memory v.behind s) in
              Sent v opened addr (suc (suc i)) n r.1 r.0 t t')
    unfolding send_out
    send_out-Sent i n known t s l =
        elim (Option-cases (get_conv (in_memory v.behind s) (length s))) [
          | inl short ↦ (t, rw (send_out, short) refl, rw (short, route) (skipped i n known t l))
          | inr (u, framed) ↦
              let small = get_conv-word (in_memory v.behind s) (length s) u framed in
              elim (open_conv-Opened g o v opened addr i n u.conv known t l (steady i) small
                (others i)) [
                  | inl (no_socket, ignored) ↦ (
                    t,
                    rw (send_out, framed, ignored, ◌>>=◌) refl,
                    rw (framed, route, no_socket) (skipped i n known t l),
                  )
                  | inr (fd, known', t1, socket, run, w) ↦
                      let (t', sent, r) =
                        send_out-opened i n known known' t t1 s u fd framed run w in
                      (t', sent, rw (framed, route, socket) r)
                ]
        ]

    -- What comes out of the decoder goes out in order, each packet to the socket of its conversation as the
    -- table gives it.
    pub send_all_out-Sent :
        (i : ℕ) (known : List (Binding ℕ)) (t : Site FdInfo g o) (ss : List (List ℕ))
        → Live g o v opened addr i (length ss) known t
        → (n : ℕ) × (t' : Site FdInfo g o) × (send_all_out g o v opened addr i t (at_once ss)
            ≡ some t')
          × (v.ms i ≤ v.ms n)
          × Sent v opened addr n 0
              (routes v.behind opened i known ss).1
              (routes v.behind opened i known ss).0
              t
              t'
    send_all_out-Sent i known t [] l = (
      i,
      t,
      refl,
      omega arith,
      record {
        live = l;
        sends = sym (append-nil (wire t.net.calls));
        extends = Extends-refl t.net.handles;
        same_queue = refl;
        same_conn = refl;
      },
    )
    send_all_out-Sent i known t (s ∷ ss) l =
        let r =
          route v.behind opened i known (get_conv (in_memory v.behind s) (length s))
            (in_memory v.behind s) in
        let (t1, one, first) = send_out-Sent i (length ss) known t s l in
        let (n, t', run, passed, rest) = send_all_out-Sent (suc (suc i)) r.1 t1 ss first.live in
        let later = (routes v.behind opened (suc (suc i)) r.1 ss).0 in
        (
          n,
          t',
          rw (send_all_out, one, ◌>>=◌) run,
          omega (arith, steady i, steady (suc i), passed),
          record {
            live = rest.live;
            sends =
                rest.sends
                ∙ ap (λ w. w ++ later) first.sends
                ∙ append_assoc (wire t.net.calls) r.0 later;
            extends =
                Extends-trans t.net.handles t1.net.handles t'.net.handles first.extends
                  rest.extends;
            same_queue = rest.same_queue ∙ first.same_queue;
            same_conn =
                rest.same_conn
                ∙ ap (λ (c : Conn). record c { conv_manager = t'.conn.conv_manager })
                    first.same_conn;
          },
        )
