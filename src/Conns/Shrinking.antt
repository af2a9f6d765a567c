-- ===== src/Conns/Shrinking.antt =====
-- The clearing of connections adds none, in any map and wherever the iterator stands.
use udpspeeder.Base.{
  ℕ, zero, suc, ◌≤◌, ◌≡◌, ◌≢◌, ◌∙◌, sym, List, [], ◌∷◌, Option, some, length, ltb, ◌==◌, arith,
  Bool-cases, Option-cases, inl, inr,
}
use udpspeeder.Dict.{Binding, find, erase}
use udpspeeder.Dict.Laws.{find-erase_self, find-erase_other}
use udpspeeder.Convs.{since}
use udpspeeder.Tunnel.{Conn}
use udpspeeder.Conns.{
  Conns, conn_clear_interval, erase_conn, next, is_kept, at_iterator, clear_round, num_to_clean,
  clear_inactive0, clear_inactive,
}

pub record Shrunk (mp mp' : List (Binding Conn)) : Type 0 where
  pub nothing_new : (k : ℕ) (c : Conn) → find mp' k ≡ some c → find mp k ≡ some c
  pub fewer : length mp' ≤ length mp

Shrunk-refl : (mp : List (Binding Conn)) → Shrunk mp mp
Shrunk-refl mp = record { nothing_new = λ k c e. e; fewer = omega arith }

length-erase_le : (m : List (Binding Conn)) (k : ℕ) → length (erase m k) ≤ length m
length-erase_le [] k = omega arith
length-erase_le (b ∷ m) k = ground (arith, length-erase_le m k)

erase_conn-Shrunk :
    (mp mp' : List (Binding Conn)) (k : ℕ) → Shrunk (erase_conn mp k) mp' → Shrunk mp mp'
unfolding erase_conn
erase_conn-Shrunk mp mp' k r = record {
  nothing_new = λ j c e. elim (Bool-cases (j == k)) [
    | inl hit ↦
        let here : j ≡ k = ground (arith, hit) in
        absurd (cc (r.nothing_new j c e, here, find-erase_self mp k))
    | inr miss ↦
        let ne : j ≢ k = ground (arith, miss) in
        sym (find-erase_other mp k j ne) ∙ r.nothing_new j c e
  ];
  fewer = omega (arith, r.fewer, length-erase_le mp k);
}

clear_round-Shrunk :
    (n now : ℕ) (mp : List (Binding Conn)) (it : Option ℕ) → Shrunk mp (clear_round n now mp it).0
clear_round-Shrunk zero now mp it = Shrunk-refl mp
clear_round-Shrunk (suc n) now mp it = elim (Option-cases (at_iterator mp it)) [
  | inl done ↦ rw (clear_round, done) (Shrunk-refl mp)
  | inr ((k, c), here) ↦ elim (Bool-cases (is_kept now c)) [
    | inl keep ↦ rw (clear_round, here, keep) (clear_round-Shrunk n now mp (next mp k))
    | inr idle ↦
        rw (clear_round, here, idle)
          (erase_conn-Shrunk mp (clear_round n now (erase_conn mp k) (next mp k)).0 k
            (clear_round-Shrunk n now (erase_conn mp k) (next mp k)))
  ]
]

pub clear_inactive-Shrunk : (s : Conns) (now : ℕ) → Shrunk s.mp (clear_inactive s now).mp
unfolding clear_inactive clear_inactive0
clear_inactive-Shrunk s now =
    elim (Bool-cases (ltb conn_clear_interval (since now s.last_clear_time))) [
      | inl due ↦
          rw (clear_inactive, due) (clear_round-Shrunk (num_to_clean s.mp) now s.mp s.clear_it)
      | inr early ↦ rw (clear_inactive, early) (Shrunk-refl s.mp)
    ]
