-- ===== src/Server/Closing.antt =====
-- The sockets of the server are closed with their conversations.
use udpspeeder.Base.{
  ℕ, ◌≤◌, ◌≡◌, ◌≢◌, refl, ◌∙◌, sym, ap, true, false, Option, none, some, ◌⊎◌, All, ◌==◌, ◌>>=◌,
  arith, Bool-cases, Option-cases, inl, inr,
}
use udpspeeder.Lru
use udpspeeder.Lru.{ts_of}
use udpspeeder.Lru.Order.{remove-All}
use udpspeeder.Dict.{find}
use udpspeeder.Dict.Laws.{none_of_not_found}
use udpspeeder.Handles.{Handles, erase, has, to_fd, get_info, fd64_close}
use udpspeeder.Handles
use udpspeeder.Handles.Links.{Linked, fd64_close-Linked}
use udpspeeder.Convs.{Convs, erase_conv, is_conv_used, is_data_used}
use udpspeeder.Convs.Links.{Kept, erase_conv-Kept}
use udpspeeder.Conns.{Conns, exist}
use udpspeeder.Server.{FdInfo, server_clear_function, clear_all}
use udpspeeder.Server.Table.{Served}
use udpspeeder.Server.Sockets.{Registered}

-- What is registered for another handle stays so.
abbrev Spares : (d : ℕ) (h h' : Handles FdInfo) → Type 0
Spares d h h' = (a k : ℕ) → k ≢ d → Registered a h k → Registered a h' k

-- An open handle of a connection is closed, and no other.
server_clear_function-closes :
    (cs : Conns) (h : Handles FdInfo) (addr d : ℕ)
    → Linked FdInfo h
    → Registered addr h d
    → exist cs addr ≡ true
    → (h' : Handles FdInfo) × (server_clear_function cs h d ≡ some h')
      × Linked FdInfo h'
      × (Handles.exist FdInfo h' d ≡ false)
      × Spares d h h'
      × ((k : ℕ) → Handles.exist FdInfo h k ≡ false → Handles.exist FdInfo h' k ≡ false)
unfolding server_clear_function Handles.exist get_info fd64_close to_fd
server_clear_function-closes cs h addr d l r here =
    let (h', closed, l', gone, no_fd, others) = fd64_close-Linked FdInfo h r.fd d l r.is_open in
    let shape : fd64_close FdInfo h d
        ≡ some (record {
          counter = h.counter;
          fd_to_fd64_mp = erase h.fd_to_fd64_mp r.fd;
          fd64_to_fd_mp = erase h.fd64_to_fd_mp d;
          fd_info_mp = erase h.fd_info_mp d;
        }) =
      ground (arith, r.is_open) in
    let infos : h'.fd_info_mp ≡ erase h.fd_info_mp d = cc (shape, closed) in
    let fds : h'.fd64_to_fd_mp ≡ erase h.fd64_to_fd_mp d = cc (shape, closed) in
    (
      h',
      rw (server_clear_function, Handles.exist, r.is_open, ◌>>=◌, get_info, r.info, here) closed,
      l',
      gone,
      λ a k ne s. record {
        fd = s.fd;
        is_open = others k ne ∙ s.is_open;
        info = ap (λ (m : ℕ → Option FdInfo). m k) infos ∙ ground (arith, ne, s.info);
      },
      λ k e. ap (λ (m : ℕ → Option ℕ). has (m k)) fds ∙ ground (arith, e),
    )

-- A handle is registered for one address.
Registered-one : (h : Handles FdInfo) (d a b : ℕ) → Registered a h d → Registered b h d → a ≡ b
Registered-one h d a b r s = cc (r.info, s.info)

erase_conv-notifies :
    (s s' : Convs) (c : ℕ)
    → erase_conv s c ≡ some s'
    → s'.additional_clear_function ≡ s.additional_clear_function
unfolding erase_conv
erase_conv-notifies s s' c e = elim (Option-cases (Lru.erase s.lru c)) [
  | inl failed ↦ absurd (cc (rw failed at e))
  | inr (q, made) ↦ cc (rw made at e)
]

module _ (cs : Conns) (addr now : ℕ) (h0 : Handles FdInfo) (m0 : Convs) where
  -- On the way: the calls of the clear function that were made so far have closed the handles of the
  -- conversations that are gone, and no others.
  pub record Expiring (m : Convs) : Type 0 where
    pub handles : Handles FdInfo
    pub closes : clear_all cs h0 m.closed ≡ some handles
    pub linked : Linked FdInfo handles
    pub notifies : m.additional_clear_function ≡ true
    pub bound : (c d : ℕ) → find m.conv_to_data c ≡ some d → Registered addr handles d
    pub early : All (λ e. e.ts ≤ now) m.lru
    pub fate :
        (c d : ℕ)
        → find m0.conv_to_data c ≡ some d
        → (find m.conv_to_data c ≡ some d)
          ⊎ ((find m.conv_to_data c ≡ none) × (Handles.exist FdInfo handles d ≡ false))
    pub old : (c d : ℕ) → find m.conv_to_data c ≡ some d → find m0.conv_to_data c ≡ some d
    pub others : (a d : ℕ) → a ≢ addr → Registered a h0 d → Registered a handles d

  -- One conversation more is erased.
  pub erase_conv-Expiring :
      exist cs addr ≡ true
      → (s s1 : Convs) (c d : ℕ) → Kept s
      → Expiring s
      → find s.conv_to_data c ≡ some d
      → erase_conv s c ≡ some s1
      → Expiring s1
  unfolding is_conv_used is_data_used
  erase_conv-Expiring here s s1 c d k p given gone =
      let (s2, run, k2, unused, free, calls, lru2, rest) = erase_conv-Kept s c d k given in
      let same : s1 ≡ s2 = cc (gone, run) in
      let (h1, closed, l1, no_handle, spared, still) =
        server_clear_function-closes cs p.handles addr d p.linked (p.bound c d given) here in
      let missing = none_of_not_found (find s2.conv_to_data c) unused in
      let left = λ (c' d' : ℕ) (e : find s2.conv_to_data c' ≡ some d').
        let ne : c' ≢ c = λ (at : c' ≡ c). cc (e, missing, at) in sym (rest c' ne).0 ∙ e in
      rw same (record {
        handles = h1;
        closes = rw (calls, p.notifies, p.closes, ◌>>=◌) closed;
        linked = l1;
        notifies = erase_conv-notifies s s2 c run ∙ p.notifies;
        bound = λ c' d' e.
            let other : d' ≢ d =
              λ (at : d' ≡ d). cc (k.back d' c' (left c' d' e), k.back d c given, at, e, missing) in
            spared addr d' other (p.bound c' d' (left c' d' e));
        early = rw lru2 (remove-All now c s.lru p.early);
        fate = λ c' d' e. elim (Bool-cases (c' == c)) [
          | inl hit ↦
              let at : c' ≡ c = ground (arith, hit) in
              elim (p.fate c' d' e) [
                | inl kept ↦
                    let that : d' ≡ d = cc (kept, given, at) in
                    inr (rw at missing, rw that no_handle)
                | inr (went, shut) ↦ absurd (cc (went, given, at))
              ]
          | inr miss ↦
              let ne : c' ≢ c = ground (arith, miss) in
              elim (p.fate c' d' e) [
                | inl kept ↦ inl ((rest c' ne).0 ∙ kept)
                | inr (went, shut) ↦ inr ((rest c' ne).0 ∙ went, still d' shut)
              ]
        ];
        old = λ c' d' e. p.old c' d' (left c' d' e);
        others = λ a d' ne r.
            let r' = p.others a d' ne r in
            let other : d' ≢ d = λ (at : d' ≡ d).
              ne (Registered-one p.handles d' a addr r' (rw at (p.bound c d given))) in
            spared a d' other r';
      })

  pub Expiring-timed :
      (m : Convs) (t : ℕ) → Expiring m → Expiring (record m { last_clear_time = t })
  Expiring-timed m t p = record {
    handles = p.handles;
    closes = p.closes;
    linked = p.linked;
    notifies = p.notifies;
    bound = p.bound;
    early = p.early;
    fate = p.fate;
    old = p.old;
    others = p.others;
  }

  pub Served-Expiring :
      Linked FdInfo h0 → Served addr h0 m0 → All (λ e. e.ts ≤ now) m0.lru → Expiring m0
  Served-Expiring linked s early = record {
    handles = h0;
    closes = rw s.settled refl;
    linked = linked;
    notifies = s.notifies;
    bound = s.bound;
    early = early;
    fate = λ c d e. inl e;
    old = λ c d e. e;
    others = λ a d ne r. r;
  }
