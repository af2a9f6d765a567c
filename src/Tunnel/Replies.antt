-- ===== src/Tunnel/Replies.antt =====
-- What comes out of the decoder of the client goes to the addresses that its conversations stand for.
use mathlib.Core.List.{append_assoc, append-nil}
use udpspeeder.Base.{
  ℕ, suc, ◌≤◌, ◌<◌, ◌≡◌, refl, ◌∙◌, sym, ap, Bool, false, List, [], ◌∷◌, ◌++◌, Option, none, some,
  ◌⊎◌, length, All, ◌>>=◌, Option-cases, inl, inr,
}
use udpspeeder.Base.Memory.{Memory, slice}
use udpspeeder.Framing.{Unframed, get_conv}
use udpspeeder.Sending.{Target, Net, Setting, sendto, call, my_send, cook_data, transmit}
use udpspeeder.Sending.Wire.{Datagram, wire, wire-append}
use udpspeeder.Delay.{Delay, ok, delay_send, add, handle}
use udpspeeder.Delay.Order.{has_room}
use udpspeeder.Lru.Order.{All-later}
use udpspeeder.Dict.{find}
use udpspeeder.Convs.{Convs, is_conv_used, find_data_by_conv}
use udpspeeder.Convs.Links.{Kept, update_active_time-Kept, find_data_by_conv-found}
use udpspeeder.Tunnel.{Options, at_once}
use udpspeeder.Tunnel.Client.{Given, Site, in_memory, send_home, send_all_home}

-- For packets with a number of a conversation in front, told apart from the code: where each is to go, by
-- the map of conversations alone.
module _ (fd : ℕ) (behind : Memory) (m : Convs) where
  abbrev pub home : Option Unframed → Memory → List Datagram
  home none s = []
  home (some u) s = elim (find m.conv_to_data u.conv) [
    | none ↦ []
    | some addr ↦ record { fd = fd; to = some addr; bytes = slice s u.output u.len_out } ∷ []
  ]

  abbrev pub homes : List (List ℕ) → List Datagram
  homes [] = []
  homes (s ∷ ss) = home (get_conv (in_memory behind s) (length s)) (in_memory behind s) ++ homes ss

module _ (Info : Type 0) (g : Setting) (o : Options) where
  delay_send_plain :
      (now : ℕ) (allocated : Bool) (random : ℕ) (w : Net Info) (q : Delay) (fd addr : ℕ)
      (s : List ℕ)
      → (q.capacity ≡ 0) ⊎ (length q.delay_mp < q.capacity)
      → delay_send Info g now allocated o.random_drop random w q 0
          (record { target = Target.type_fd_addr fd addr; cook = false })
          s
        ≡ some (call Info w (sendto fd addr s), q, ok)
  unfolding delay_send add handle my_send cook_data transmit
  delay_send_plain now allocated random w q fd addr s room =
      rw (has_room q.capacity (length q.delay_mp) room) refl

  -- A site whose conversations are those of `m` and whose clock is at reading `i`.
  pub record Ready (v : Given) (m : Convs) (i : ℕ) (x : Site Info g o) : Type 0 where
    pub kept : Kept x.conn.conv_manager
    pub same : x.conn.conv_manager.conv_to_data ≡ m.conv_to_data
    pub early : All (λ e. e.ts ≤ v.ms i) x.conn.conv_manager.lru
    pub room : (x.queue.capacity ≡ 0) ⊎ (length x.queue.delay_mp < x.queue.capacity)

  -- What one packet leaves.
  record Sent (v : Given) (m : Convs) (i : ℕ) (x : Site Info g o) (ds : List Datagram)
      (x' : Site Info g o) : Type 0 where
    ready : Ready v m i x'
    sends : wire x'.net.calls ≡ wire x.net.calls ++ ds
    queue : x'.queue ≡ x.queue
    listens : x'.conn.local_listen_fd ≡ x.conn.local_listen_fd

  module _ (v : Given) (m : Convs) (steady : (i : ℕ) → v.ms i ≤ v.ms (suc i)) where
    skipped : (i : ℕ) (x : Site Info g o) → Ready v m i x → Sent v m (suc i) x [] x
    skipped i x r = record {
      ready = record {
        kept = r.kept;
        same = r.same;
        early = All-later (v.ms i) (v.ms (suc i)) x.conn.conv_manager.lru (steady i) r.early;
        room = r.room;
      };
      sends = sym (append-nil (wire x.net.calls));
      queue = refl;
      listens = refl;
    }

    -- A packet of a conversation that is bound to an address.
    bound-Sent :
        (i : ℕ) (x : Site Info g o) (s : List ℕ) (u : Unframed) (addr : ℕ)
        → Ready v m i x
        → get_conv (in_memory v.behind s) (length s) ≡ some u
        → find m.conv_to_data u.conv ≡ some addr
        → (x' : Site Info g o) × (send_home Info g o v i x 0 s ≡ some x')
          × Sent v m
              (suc i)
              x
              (record {
                fd = x.conn.local_listen_fd;
                to = some addr;
                bytes = slice (in_memory v.behind s) u.output u.len_out;
              }
                ∷ [])
              x'
    unfolding send_home is_conv_used
    bound-Sent i x s u addr r framed bound =
        let bytes = slice (in_memory v.behind s) u.output u.len_out in
        let c = x.conn.conv_manager in
        let given : find c.conv_to_data u.conv ≡ some addr = rw r.same bound in
        let (c', moved, kept, same, same', early, at, others) =
          update_active_time-Kept c u.conv addr (v.ms i) r.kept given r.early in
        let found : find_data_by_conv c' u.conv ≡ (c', addr) =
          find_data_by_conv-found c' u.conv addr (ap (λ n. find n u.conv) same ∙ given) in
        let sent =
          delay_send_plain (v.moments i).now (v.moments i).allocated (v.moments i).random x.net
            x.queue x.conn.local_listen_fd addr bytes r.room in
        (
          record {
            conn = record x.conn { conv_manager = c' };
            net = call Info x.net (sendto x.conn.local_listen_fd addr bytes);
            queue = x.queue;
          },
          rw (send_home, framed, is_conv_used, given, moved, ◌>>=◌, found, sent) refl,
          record {
            ready = record {
              kept = kept;
              same = same ∙ r.same;
              early = All-later (v.ms i) (v.ms (suc i)) c'.lru (steady i) early;
              room = r.room;
            };
            sends = wire-append x.net.calls (sendto x.conn.local_listen_fd addr bytes ∷ []);
            queue = refl;
            listens = refl;
          },
        )

    send_home-Sent :
        (i : ℕ) (x : Site Info g o) (s : List ℕ)
        → Ready v m i x
        → (x' : Site Info g o) × (send_home Info g o v i x 0 s ≡ some x')
          × Sent v m
              (suc i)
              x
              (home x.conn.local_listen_fd v.behind m
                (get_conv (in_memory v.behind s) (length s))
                (in_memory v.behind s))
              x'
    unfolding send_home is_conv_used
    send_home-Sent i x s r = elim (Option-cases (get_conv (in_memory v.behind s) (length s))) [
      | inl short ↦ (x, rw (send_home, short) refl, rw (short, home) (skipped i x r))
      | inr (u, framed) ↦ elim (Option-cases (find m.conv_to_data u.conv)) [
        | inl unknown ↦
            let missing : find x.conn.conv_manager.conv_to_data u.conv ≡ none = rw r.same unknown in
            (
              x,
              rw (send_home, framed, is_conv_used, missing) refl,
              rw (framed, home, unknown) (skipped i x r),
            )
        | inr (addr, bound) ↦
            let (x', run, sent) = bound-Sent i x s u addr r framed bound in
            (x', run, rw (framed, home, bound) sent)
      ]
    ]

    send_all :
        (i : ℕ) (x : Site Info g o) (ss : List (List ℕ))
        → Ready v m i x
        → (n : ℕ) × (x' : Site Info g o) × (send_all_home Info g o v i x (at_once ss) ≡ some x')
          × Sent v m n x (homes x.conn.local_listen_fd v.behind m ss) x'
    send_all i x [] r = (
      i,
      x,
      refl,
      record {
        ready = r;
        sends = sym (append-nil (wire x.net.calls));
        queue = refl;
        listens = refl;
      },
    )
    send_all i x (s ∷ ss) r =
        let fd = x.conn.local_listen_fd in
        let (x1, one, first) = send_home-Sent i x s r in
        let (n, x', run, rest) = send_all (suc i) x1 ss first.ready in
        let here =
          home fd v.behind m (get_conv (in_memory v.behind s) (length s)) (in_memory v.behind s) in
        (
          n,
          x',
          rw (send_all_home, one, ◌>>=◌) run,
          record {
            ready = rest.ready;
            sends =
                rest.sends
                ∙ ap (λ l. wire x1.net.calls ++ homes l v.behind m ss) first.listens
                ∙ ap (λ w. w ++ homes fd v.behind m ss) first.sends
                ∙ append_assoc (wire x.net.calls) here (homes fd v.behind m ss);
            queue = rest.queue ∙ first.queue;
            listens = rest.listens ∙ first.listens;
          },
        )

    -- Where the maps of the conversations are inverse, the clock does not go back and the queue of delayed
    -- packets has room: the client sends what comes out of the decoder, in order, each packet with a
    -- number of a conversation in use to the address of that conversation, without the number, and no
    -- other; no packet waits, and the maps stay inverse and keep their addresses.
    pub send_all_home-homes :
        (x : Site Info g o) (ss : List (List ℕ))
        → Ready v m 0 x
        → (x' : Site Info g o) × (send_all_home Info g o v 0 x (at_once ss) ≡ some x')
          × (wire x'.net.calls ≡ wire x.net.calls ++ homes x.conn.local_listen_fd v.behind m ss)
          × (x'.queue ≡ x.queue)
          × Kept x'.conn.conv_manager
          × (x'.conn.conv_manager.conv_to_data ≡ m.conv_to_data)
    send_all_home-homes x ss r =
        let (n, x', run, s) = send_all 0 x ss r in
        (x', run, s.sends, s.queue, s.ready.kept, s.ready.same)
