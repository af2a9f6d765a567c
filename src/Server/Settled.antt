-- ===== src/Server/Settled.antt =====
-- Whatever is sent for a connection of the server and however that ends, the connection stays hosted.
use udpspeeder.Base.{
  ℕ, suc, ◌+◌, ◌^◌, ◌≤◌, ◌<◌, ◌≡◌, refl, ◌∙◌, sym, ap, false, List, [], ◌∷◌, Option, none, some,
  length, leb, ◌>>=◌, arith, Bool-cases, Option-cases, inl, inr, Returns, Returns-bind,
}
use udpspeeder.Base.Memory.{slice}
use udpspeeder.Dict.{find}
use udpspeeder.Framing.{Unframed, get_conv}
use udpspeeder.Handles.{Handles, fd_exist, create}
use udpspeeder.Handles.Links.{Linked}
use udpspeeder.Convs.{get_size, is_conv_used}
use udpspeeder.Convs.Links.{update_active_time-Kept, find_data_by_conv-found}
use udpspeeder.Sending.{Setting, Target}
use udpspeeder.Sending.Standing.{Stands2}
use udpspeeder.Delay.{delay_send}
use udpspeeder.Delay.Standing.{delay_send-Stands}
use udpspeeder.Tunnel.{Options}
use udpspeeder.Tunnel.Client.{Given, Site, in_memory, max_conv_num}
use udpspeeder.Server.{FdInfo, create_watched, open_conv, send_out, send_all_out}
use udpspeeder.Server.Sockets.{Extends, Extends-refl, Extends-trans}
use udpspeeder.Server.Growing.{grow-Grown}
use udpspeeder.Server.Hosted.{Host, Host-later}
use udpspeeder.Server.Routes.{update_active_time-fields, get_conv-word}

-- A connection of `addr` at the time `now` that may open `n` sockets more, since the handles were `h0`.
pub record Settled {g : Setting} {o : Options} (h0 : Handles FdInfo) (addr now n : ℕ)
    (t : Site FdInfo g o) : Type 0 where
  pub linked : Linked FdInfo t.net.handles
  pub host : Host now t.net.handles addr t.conn
  pub extends : Extends h0 t.net.handles
  pub numbers : t.net.handles.counter + n < 2 ^ 64

module _ (g : Setting) (o : Options) (h0 : Handles FdInfo) (addr : ℕ) where
  pub Settled-later :
      (now later n k : ℕ) (t : Site FdInfo g o)
      → now ≤ later
      → k ≤ n
      → Settled h0 addr now n t
      → Settled h0 addr later k t
  Settled-later now later n k t le fewer s = record {
    linked = s.linked;
    host =
        Host-later now later t.net.handles t.net.handles addr t.conn le (Extends-refl t.net.handles)
          s.host;
    extends = s.extends;
    numbers = omega (arith, s.numbers, fewer);
  }

  -- A connection whose conversation `conv` has a handle.
  abbrev pub Opens : (now n conv : ℕ) → Site FdInfo g o → Type 0
  Opens now n conv t =
      Settled h0 addr now n t × (d : ℕ) × (find t.conn.conv_manager.conv_to_data conv ≡ some d)

  module _ (v : Given) where
    open_conv-new :
        (i n conv fd : ℕ) (t : Site FdInfo g o)
        → Settled h0 addr (v.ms i) (suc n) t
        → conv < 2 ^ 32
        → find t.conn.conv_manager.conv_to_data conv ≡ none
        → leb max_conv_num (get_size t.conn.conv_manager) ≡ false
        → Returns (Returns (Opens (v.ms i) n conv)) (open_conv g o v (some fd) addr i t conv)
    unfolding open_conv is_conv_used create_watched create
    open_conv-new i n conv fd t s small missing few =
        let h = t.net.handles in
        let m = t.conn.conv_manager in
        elim (Bool-cases (fd_exist FdInfo h fd)) [
          | inl taken ↦
              rw (open_conv, is_conv_used, missing, few, create_watched, create, taken, ◌>>=◌) tt
          | inr unused ↦
              let (h', m', w) =
                grow-Grown addr conv fd (v.ms i) h m s.linked s.host.served s.host.early unused
                  (omega (arith, s.numbers)) missing small in
              rw (open_conv, is_conv_used, missing, few, w.made, ◌>>=◌, w.inserted)
                (
                  record {
                    linked = w.linked;
                    host = record { named = s.host.named; served = w.served; early = w.early };
                    extends = Extends-trans h0 h h' s.extends w.extends;
                    numbers = omega (arith, w.counter, s.numbers);
                  },
                  h.counter,
                  w.bound,
                )
        ]

    open_conv-Opens :
        (opened : Option ℕ) (i n conv : ℕ) (t : Site FdInfo g o)
        → Settled h0 addr (v.ms i) (suc n) t
        → conv < 2 ^ 32
        → Returns (Returns (Opens (v.ms i) n conv)) (open_conv g o v opened addr i t conv)
    unfolding open_conv is_conv_used
    open_conv-Opens opened i n conv t s small =
        let m = t.conn.conv_manager in
        elim (Option-cases (find m.conv_to_data conv)) [
          | inr (d, given) ↦
              rw (open_conv, is_conv_used, given)
                (
                  Settled-later (v.ms i) (v.ms i) (suc n) n t (omega arith) (omega arith) s,
                  d,
                  given,
                )
          | inl missing ↦ elim (Bool-cases (leb max_conv_num (get_size m))) [
            | inl full ↦ rw (open_conv, is_conv_used, missing, full) tt
            | inr few ↦ elim (Option-cases opened) [
              | inl failed ↦ rw (failed, open_conv, is_conv_used, missing, few) tt
              | inr (fd, given) ↦ rw given (open_conv-new i n conv fd t s small missing few)
            ]
          ]
        ]

    module _ (steady : (i : ℕ) → v.ms i ≤ v.ms (suc i)) where
      -- The conversation is used, and its packet sent or dropped.
      send_out-opened :
          (opened : ℕ → Option ℕ) (i n delay : ℕ) (t t1 : Site FdInfo g o) (s : List ℕ)
          (u : Unframed)
          → get_conv (in_memory v.behind s) (length s) ≡ some u
          → open_conv g o v (opened i) addr i t u.conv ≡ some (some t1)
          → Opens (v.ms i) n u.conv t1
          → Returns (Settled h0 addr (v.ms (suc i)) n) (send_out g o v opened addr i t delay s)
      unfolding send_out
      send_out-opened opened i n delay t t1 s u framed run (w0, d, bound) =
          let w = Settled-later (v.ms i) (v.ms (suc i)) n n t1 (steady i) (omega arith) w0 in
          let m1 = t1.conn.conv_manager in
          let (m, moved, kept, same, same', early, at_now, rest) =
            update_active_time-Kept m1 u.conv d (v.ms (suc i)) w.host.served.kept bound
              w.host.early in
          let found = find_data_by_conv-found m u.conv d (ap (λ n. find n u.conv) same ∙ bound) in
          let (flag, calls) = update_active_time-fields m1 m u.conv (v.ms (suc i)) moved in
          let h = t1.net.handles in
          rw (send_out, framed, run, ◌>>=◌, moved, found)
            (Returns-bind (Stands2 FdInfo h) (Settled h0 addr (v.ms (suc i)) n)
              (delay_send FdInfo g (v.moments i).now (v.moments i).allocated o.random_drop
                (v.moments i).random t1.net t1.queue delay
                (record { target = Target.type_fd64 d; cook = false })
                (slice (in_memory v.behind s) u.output u.len_out))
              _
              (delay_send-Stands FdInfo h g (v.moments i).now (v.moments i).allocated o.random_drop
                (v.moments i).random t1.net t1.queue delay
                (record { target = Target.type_fd64 d; cook = false })
                (slice (in_memory v.behind s) u.output u.len_out) refl)
              (λ r e. record {
                linked = rw e w.linked;
                host = rw e (record {
                  named = w.host.named;
                  served = record {
                    kept = kept;
                    notifies = flag ∙ w.host.served.notifies;
                    settled = calls ∙ w.host.served.settled;
                    bound = λ c k p. w.host.served.bound c k (ap (λ n. find n c) (sym same) ∙ p);
                  };
                  early = early;
                });
                extends = rw e w.extends;
                numbers = rw e w.numbers;
              }))

      send_out-Settled :
          (opened : ℕ → Option ℕ) (i n delay : ℕ) (t : Site FdInfo g o) (s : List ℕ)
          → Settled h0 addr (v.ms i) (suc n) t
          → Returns (Settled h0 addr (v.ms (suc i)) n) (send_out g o v opened addr i t delay s)
      unfolding send_out
      send_out-Settled opened i n delay t s w =
          let skipped =
            Settled-later (v.ms i) (v.ms (suc i)) (suc n) n t (steady i) (omega arith) w in
          elim (Option-cases (get_conv (in_memory v.behind s) (length s))) [
            | inl short ↦ rw (send_out, short) skipped
            | inr (u, framed) ↦
                let small = get_conv-word (in_memory v.behind s) (length s) u framed in
                let opens = open_conv-Opens (opened i) i n u.conv t w small in
                elim (Option-cases (open_conv g o v (opened i) addr i t u.conv)) [
                  | inl failed ↦ rw (send_out, framed, failed, ◌>>=◌) tt
                  | inr (none, run) ↦ rw (send_out, framed, run, ◌>>=◌) skipped
                  | inr (some t1, run) ↦
                      send_out-opened opened i n delay t t1 s u framed run (rw run at opens)
                ]
          ]

      pub send_all_out-Settled :
          (opened : ℕ → Option ℕ) (i : ℕ) (t : Site FdInfo g o) (ss : List (ℕ × List ℕ))
          → Settled h0 addr (v.ms i) (length ss) t
          → Returns
              (λ t'. (k : ℕ) × Settled h0 addr (v.ms k) 0 t')
              (send_all_out g o v opened addr i t ss)
      send_all_out-Settled opened i t [] w = (i, w)
      send_all_out-Settled opened i t ((delay, s) ∷ ss) w =
          Returns-bind (Settled h0 addr (v.ms (suc i)) (length ss))
            (λ t'. (k : ℕ) × Settled h0 addr (v.ms k) 0 t') (send_out g o v opened addr i t delay s)
            _ (send_out-Settled opened i (length ss) delay t s w)
            (λ t1 w1. send_all_out-Settled opened (suc (suc i)) t1 ss (
              Settled-later (v.ms (suc i)) (v.ms (suc (suc i))) (length ss) (length ss) t1
                (steady (suc i)) (omega arith) w1))
