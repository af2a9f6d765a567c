-- ===== src/Server/Opening.antt =====
-- How a packet finds the socket of its conversation or has one opened.
use udpspeeder.Base.{
  ℕ, suc, ◌+◌, ◌^◌, ◌≤◌, ◌<◌, ◌≡◌, ◌≢◌, refl, ◌∙◌, sym, ap, false, List, ◌∷◌, Option, none, some,
  ◌⊎◌, length, leb, ◌==◌, All, ◌>>=◌, arith, ==-refl, Bool-cases, Option-cases, inl, inr,
}
use udpspeeder.Dict.{Binding, find}
use udpspeeder.Lru.Order.{All-later}
use udpspeeder.Handles.{fd_exist, to_fd}
use udpspeeder.Handles.Links.{Linked}
use udpspeeder.Convs.{get_size, is_conv_used}
use udpspeeder.Sending.{Setting}
use udpspeeder.Tunnel.{Options}
use udpspeeder.Tunnel.Client.{Given, Site, max_conv_num}
use udpspeeder.Server.{FdInfo, open_conv}
use udpspeeder.Server.Growing.{grow-Grown}
use udpspeeder.Server.Sockets.{Extends, Extends-refl}
use udpspeeder.Server.Table.{socket_for, Shows, Served, Extends-Shows}

module _ (g : Setting) (o : Options) where
  -- A connection at reading `i` of the clock that may open `n` sockets more.
  pub record Live (v : Given) (opened : ℕ → Option ℕ) (addr i n : ℕ) (known : List (Binding ℕ))
      (t : Site FdInfo g o) : Type 0 where
    pub linked : Linked FdInfo t.net.handles
    pub served : Served addr t.net.handles t.conn.conv_manager
    pub shows : Shows t.conn.conv_manager t.net.handles known
    pub early : All (λ e. e.ts ≤ v.ms i) t.conn.conv_manager.lru
    pub room : (t.queue.capacity ≡ 0) ⊎ (length t.queue.delay_mp < t.queue.capacity)
    pub numbers : t.net.handles.counter + n < 2 ^ 64
    -- The system opens descriptors that are not open.
    pub unused : (j fd : ℕ) → i ≤ j → opened j ≡ some fd → fd_exist FdInfo t.net.handles fd ≡ false

  -- The conversation has the socket `fd`, and the rest of the connection is as it was.
  pub record Opened (v : Given) (opened : ℕ → Option ℕ) (addr i n conv fd : ℕ)
      (known : List (Binding ℕ)) (t t' : Site FdInfo g o) : Type 0 where
    pub live : Live v opened addr (suc i) n known t'
    pub handle : ℕ
    pub bound : find t'.conn.conv_manager.conv_to_data conv ≡ some handle
    pub is_open : to_fd FdInfo t'.net.handles handle ≡ some fd
    pub extends : Extends t.net.handles t'.net.handles
    pub same_calls : t'.net.calls ≡ t.net.calls
    pub same_queue : t'.queue ≡ t.queue
    pub same_conn : t'.conn ≡ record t.conn { conv_manager = t'.conn.conv_manager }

  module _ (v : Given) (opened : ℕ → Option ℕ) (addr i n conv : ℕ) (known : List (Binding ℕ))
      (t : Site FdInfo g o) (l : Live v opened addr i (suc n) known t)
      (steady : v.ms i ≤ v.ms (suc i)) where
    -- A conversation that is in use.
    used-Opened :
        (d : ℕ)
        → find t.conn.conv_manager.conv_to_data conv ≡ some d
        → (fd : ℕ) × (find known conv ≡ some fd)
          × (open_conv g o v (opened i) addr i t conv ≡ some (some t))
          × Opened v opened addr i n conv fd known t t
    unfolding open_conv is_conv_used
    used-Opened d given =
        let r = l.served.bound conv d given in
        (
          r.fd,
          l.shows.sockets conv ∙ rw (given, ◌>>=◌) r.is_open,
          rw (open_conv, is_conv_used, given) refl,
          record {
            live = record {
              linked = l.linked;
              served = l.served;
              shows = l.shows;
              early = All-later (v.ms i) (v.ms (suc i)) t.conn.conv_manager.lru steady l.early;
              room = l.room;
              numbers = omega (arith, l.numbers);
              unused = λ j fd h e. l.unused j fd (omega arith) e;
            };
            handle = d;
            bound = given;
            is_open = r.is_open;
            extends = Extends-refl t.net.handles;
            same_calls = refl;
            same_queue = refl;
            same_conn = refl;
          },
        )

    -- A new conversation with a socket that is opened for it.
    new-Opened :
        (fd : ℕ)
        → find t.conn.conv_manager.conv_to_data conv ≡ none
        → get_size t.conn.conv_manager < max_conv_num
        → opened i ≡ some fd
        → conv < 2 ^ 32
        → ((j : ℕ) → i < j → opened j ≢ some fd)
        → (t' : Site FdInfo g o) × (open_conv g o v (opened i) addr i t conv ≡ some (some t'))
          × Opened v opened addr i n conv fd (record { name = conv; value = fd } ∷ known) t t'
    unfolding is_conv_used get_size open_conv
    new-Opened fd missing few given small others =
        let h = t.net.handles in
        let m = t.conn.conv_manager in
        let (h', m', w) =
          grow-Grown addr conv fd (v.ms i) h m l.linked l.served l.early
            (l.unused i fd (omega arith) given) (omega (arith, l.numbers)) missing small in
        let room : leb max_conv_num (get_size m) ≡ false = ground (arith, few) in
        (
          record t {
            conn = record t.conn { conv_manager = m' };
            net = record t.net { handles = h' };
          },
          rw (open_conv, is_conv_used, missing, room, given, w.made, ◌>>=◌, w.inserted) refl,
          record {
            live = record {
              linked = w.linked;
              served = w.served;
              shows = record {
                sockets = λ c. elim (Bool-cases (c == conv)) [
                  | inl hit ↦
                      let here : c ≡ conv = ground (arith, hit) in
                      rw here (rw (==-refl conv, w.bound, ◌>>=◌) (sym w.is_open))
                  | inr miss ↦
                      let ne : c ≢ conv = ground (arith, miss) in
                      let off : (conv == c) ≡ false = ground (arith, ne) in
                      rw (off, w.rest c ne)
                        ((Extends-Shows addr h h' m known w.extends l.served l.shows).sockets c)
                ];
                size = omega (arith, w.longer, l.shows.size);
              };
              early = All-later (v.ms i) (v.ms (suc i)) m'.lru steady w.early;
              room = l.room;
              numbers = omega (arith, w.counter, l.numbers);
              unused = λ j fd' h e.
                  w.other_fds fd' (λ same. others j (omega arith) (e ∙ ap some same))
                  ∙ l.unused j fd' (omega arith) e;
            };
            handle = h.counter;
            bound = w.bound;
            is_open = w.is_open;
            extends = w.extends;
            same_calls = refl;
            same_queue = refl;
            same_conn = refl;
          },
        )

    -- The code finds or opens the socket that the table gives, and ignores the packet where it gives none.
    pub open_conv-Opened :
        conv < 2 ^ 32
        → ((j fd : ℕ) → i < j → opened i ≡ some fd → opened j ≢ some fd)
        → ((socket_for (opened i) known conv ≡ none)
            × (open_conv g o v (opened i) addr i t conv ≡ some none))
          ⊎ ((fd : ℕ) × (known' : List (Binding ℕ)) × (t' : Site FdInfo g o) × (socket_for
                  (opened i)
                  known
                  conv
                ≡ some (fd, known'))
              × (open_conv g o v (opened i) addr i t conv ≡ some (some t'))
              × Opened v opened addr i n conv fd known' t t')
    unfolding open_conv is_conv_used
    open_conv-Opened small others =
        elim (Option-cases (find t.conn.conv_manager.conv_to_data conv)) [
          | inr (d, given) ↦
              let (fd, there, run, opened_) = used-Opened d given in
              inr (fd, known, t, rw (socket_for, there) refl, run, opened_)
          | inl missing ↦
              let absent : find known conv ≡ none = l.shows.sockets conv ∙ rw missing refl in
              elim (Bool-cases (leb max_conv_num (get_size t.conn.conv_manager))) [
                | inl full ↦ inl (
                  rw (socket_for, absent, ap (leb max_conv_num) (sym l.shows.size) ∙ full) refl,
                  rw (open_conv, is_conv_used, missing, full) refl,
                )
                | inr few ↦
                    let room : leb max_conv_num (length known) ≡ false =
                      ap (leb max_conv_num) (sym l.shows.size) ∙ few in
                    elim (Option-cases (opened i)) [
                      | inl failed ↦ inl (
                        rw (socket_for, absent, room, failed) refl,
                        rw (open_conv, is_conv_used, missing, few, failed) refl,
                      )
                      | inr (fd, given) ↦
                          let (t', run, opened_) =
                            new-Opened fd missing (ground (arith, few)) given small
                              (λ j h. others j fd h given) in
                          inr (
                            fd,
                            record { name = conv; value = fd } ∷ known,
                            t',
                            rw (socket_for, absent, room, given) refl,
                            run,
                            opened_,
                          )
                    ]
              ]
        ]
