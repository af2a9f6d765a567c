-- ===== src/Conns/Clearing.antt =====
-- clear_inactive0 takes only connections without conversations that were not active for the timeout.
use udpspeeder.Base.{
  ℕ, zero, suc, ◌+◌, ◌/◌, ◌^◌, ◌≤◌, ◌<◌, ◌≡◌, ◌≢◌, ◌∙◌, sym, ap, true, false, List, [], ◌∷◌, Option,
  none, some, length, ◌==◌, arith, Bool-cases, Option-cases, inl, inr,
}
use udpspeeder.Dict.{Binding, find, erase}
use udpspeeder.Dict.Laws.{find-erase_self, find-erase_other, erase-absent}
use udpspeeder.Convs.{get_size}
use udpspeeder.Tunnel.{Conn}
use udpspeeder.Conns.{
  Conns, is_kept, at_iterator, next, erase_conn, clear_round, num_to_clean, clear_inactive0,
}

-- What `n` rounds may do to the map.
record Taken (n now : ℕ) (mp mp' : List (Binding Conn)) : Type 0 where
  stays : (k : ℕ) (c : Conn) → find mp k ≡ some c → is_kept now c ≡ true → find mp' k ≡ some c
  nothing_new : (k : ℕ) (c : Conn) → find mp' k ≡ some c → find mp k ≡ some c
  few : length mp ≤ length mp' + n

at_iterator-find :
    (mp : List (Binding Conn)) (it : Option ℕ) (k : ℕ) (c : Conn)
    → at_iterator mp it ≡ some (k, c)
    → find mp k ≡ some c
at_iterator-find mp (some j) k c h = elim (Option-cases (find mp j)) [
  | inl missing ↦ absurd (cc (rw (at_iterator, missing) at h))
  | inr (d, given) ↦
      let e : some (j, d) ≡ some (k, c) = rw (at_iterator, given) at h in
      let same : j ≡ k = cc e in
      let same_conn : d ≡ c = cc e in ap (find mp) (sym same) ∙ given ∙ ap some same_conn
]
at_iterator-find [] none k c h = cc
at_iterator-find (b ∷ m) none k c h =
    let same : b.name ≡ k = cc h in
    let same_conn : b.value ≡ c = cc h in ground (arith, same, same_conn)

-- No key twice.
abbrev pub Distinct : List (Binding Conn) → Type 0
Distinct [] = Unit {0}
Distinct (b ∷ m) = (find m b.name ≡ none) × Distinct m

length-erase : (m : List (Binding Conn)) (k : ℕ) → Distinct m → length m ≤ length (erase m k) + 1
length-erase [] k d = omega arith
length-erase (b ∷ m) k d = elim (Bool-cases (b.name == k)) [
  | inl same ↦
      let e : b.name ≡ k = ground (arith, same) in
      rw same (omega (arith, erase-absent m k (ap (find m) (sym e) ∙ d.0)))
  | inr other ↦ rw other (omega (arith, length-erase m k d.1))
]

erase-Distinct : (m : List (Binding Conn)) (k : ℕ) → Distinct m → Distinct (erase m k)
erase-Distinct [] k d = tt
erase-Distinct (b ∷ m) k d = elim (Bool-cases (b.name == k)) [
  | inl same ↦ rw same (erase-Distinct m k d.1)
  | inr other ↦
      let ne : b.name ≢ k = ground (arith, other) in
      rw other (find-erase_other m k b.name ne ∙ d.0, erase-Distinct m k d.1)
]

untouched-Taken : (n now : ℕ) (mp : List (Binding Conn)) → Taken n now mp mp
untouched-Taken n now mp = record {
  stays = λ k c e kept. e;
  nothing_new = λ k c e. e;
  few = omega arith;
}

-- One round that takes an idle connection, and the rest.
erase-Taken :
    (n now : ℕ) (mp mp' : List (Binding Conn)) (k : ℕ) (c : Conn)
    → Distinct mp
    → find mp k ≡ some c
    → is_kept now c ≡ false
    → Taken n now (erase mp k) mp'
    → Taken (suc n) now mp mp'
erase-Taken n now mp mp' k c d here idle r = record {
  stays = λ k' c' e kept. elim (Bool-cases (k' == k)) [
    | inl hit ↦ absurd (cc (kept, idle, e, here, same k' hit))
    | inr miss ↦ r.stays k' c' (find-erase_other mp k k' (other k' miss) ∙ e) kept
  ];
  nothing_new = λ k' c' e. elim (Bool-cases (k' == k)) [
    | inl hit ↦ absurd (cc (r.nothing_new k' c' e, find-erase_self mp k, same k' hit))
    | inr miss ↦ sym (find-erase_other mp k k' (other k' miss)) ∙ r.nothing_new k' c' e
  ];
  few = omega (arith, r.few, length-erase mp k d);
}
  where
    same : (k' : ℕ) → (k' == k) ≡ true → k' ≡ k
    same k' hit = ground (arith, hit)

    other : (k' : ℕ) → (k' == k) ≡ false → k' ≢ k
    other k' miss = ground (arith, miss)

clear_round-Taken :
    (n now : ℕ) (mp : List (Binding Conn)) (it : Option ℕ)
    → Distinct mp
    → Taken n now mp (clear_round n now mp it).0
unfolding erase_conn
clear_round-Taken zero now mp it d = untouched-Taken 0 now mp
clear_round-Taken (suc n) now mp it d = elim (Option-cases (at_iterator mp it)) [
  | inl done ↦ rw (clear_round, done) (untouched-Taken (suc n) now mp)
  | inr ((k, c), here) ↦ elim (Bool-cases (is_kept now c)) [
    | inl keep ↦
        let r = clear_round-Taken n now mp (next mp k) d in
        rw (clear_round, here, keep)
          (record { stays = r.stays; nothing_new = r.nothing_new; few = omega (arith, r.few) })
    | inr idle ↦
        rw (clear_round, here, idle)
          (erase-Taken n now mp (clear_round n now (erase mp k) (next mp k)).0 k c d
            (at_iterator-find mp it k c here) idle
            (clear_round-Taken n now (erase mp k) (next mp k) (erase-Distinct mp k d)))
  ]
]

-- What is kept, and what is idle, told apart from the code.
kept_with_convs :
    (now : ℕ) (c : Conn) → 1 ≤ length c.conv_manager.conv_to_data → is_kept now c ≡ true
unfolding is_kept get_size
kept_with_convs now c some_conv = ground (arith, some_conv)

kept_active :
    (now : ℕ) (c : Conn)
    → c.last_active_time + 200000 < 2 ^ 64
    → now < c.last_active_time + 200000
    → is_kept now c ≡ true
unfolding is_kept get_size
kept_active now c fits young = ground (arith, fits, young)

not_kept :
    (now : ℕ) (c : Conn)
    → c.conv_manager.conv_to_data ≡ []
    → c.last_active_time + 200000 ≤ now
    → now < 2 ^ 64
    → is_kept now c ≡ false
unfolding is_kept get_size
not_kept now c empty old fits = rw empty (ground (arith, old, fits))

-- The connection at the iterator goes if it is idle.
clear_round-takes :
    (n now : ℕ) (mp : List (Binding Conn)) (k : ℕ) (c : Conn)
    → Distinct mp
    → 1 ≤ n
    → find mp k ≡ some c
    → is_kept now c ≡ false
    → find (clear_round n now mp (some k)).0 k ≡ none
unfolding erase_conn
clear_round-takes zero now mp k c d pos here idle = absurd (omega (arith, pos))
clear_round-takes (suc n) now mp k c d pos here idle =
    let mp' = (clear_round n now (erase mp k) (next mp k)).0 in
    let r = clear_round-Taken n now (erase mp k) (next mp k) (erase-Distinct mp k d) in
    rw (clear_round, at_iterator, here, idle)
      (elim (Option-cases (find mp' k)) [
        | inl gone ↦ gone
        | inr (c', left) ↦ absurd (cc (r.nothing_new k c' left, find-erase_self mp k))
      ])

-- What one clearing at `now` may do to the map of connections, with the iterator at `it`.
pub record Trimmed (now : ℕ) (it : Option ℕ) (mp mp' : List (Binding Conn)) : Type 0 where
  pub with_convs :
      (k : ℕ) (c : Conn)
      → find mp k ≡ some c
      → 1 ≤ length c.conv_manager.conv_to_data
      → find mp' k ≡ some c
  pub active :
      (k : ℕ) (c : Conn)
      → find mp k ≡ some c
      → c.last_active_time + 200000 < 2 ^ 64
      → now < c.last_active_time + 200000
      → find mp' k ≡ some c
  pub takes :
      (k : ℕ) (c : Conn)
      → it ≡ some k
      → find mp k ≡ some c
      → c.conv_manager.conv_to_data ≡ []
      → c.last_active_time + 200000 ≤ now
      → now < 2 ^ 64
      → find mp' k ≡ none
  pub nothing_new : (k : ℕ) (c : Conn) → find mp' k ≡ some c → find mp k ≡ some c
  pub few : length mp ≤ length mp' + (length mp / 50 + 1)

-- Wherever the iterator stands, in a map with no key twice clear_inactive0 keeps, as it is, each connection
-- that has conversations and each that was active in the last 200000 milliseconds; it takes the one at the
-- iterator if that has neither, takes one of every fifty and one more at most, and adds none.
pub clear_inactive0-Trimmed :
    (s : Conns) (now : ℕ) → Distinct s.mp → Trimmed now s.clear_it s.mp (clear_inactive0 s now).mp
unfolding clear_inactive0
clear_inactive0-Trimmed s now d =
    let n = num_to_clean s.mp in
    let r = clear_round-Taken n now s.mp s.clear_it d in
    record {
      with_convs = λ k c e some_conv. r.stays k c e (kept_with_convs now c some_conv);
      active = λ k c e fits young. r.stays k c e (kept_active now c fits young);
      takes = λ k c at here empty old fits. rw at (
          clear_round-takes n now s.mp k c d (some_found s.mp k c here) here
            (not_kept now c empty old fits));
      nothing_new = r.nothing_new;
      few = omega (arith, r.few);
    }
  where
    some_found :
        (mp : List (Binding Conn)) (k : ℕ) (c : Conn) → find mp k ≡ some c → 1 ≤ num_to_clean mp
    some_found [] k c e = cc
    some_found (b ∷ m) k c e = omega arith
