-- ===== src/Convs/Erasing.antt =====
-- What every erasure of a conversation keeps, the clearing of the idle ones keeps.
use udpspeeder.Base.{ℕ, zero, suc, ◌<◌, ◌≡◌, refl, some, ltb, ◌>>=◌, Bool-cases, inl, inr}
use udpspeeder.Lru.{ts_of, is_empty}
use udpspeeder.Dict.{find}
use udpspeeder.Convs.{
  Convs, erase_conv, clear_some, num_to_clean, clear_inactive0, clear_inactive, since, conv_timeout,
  conv_clear_interval,
}
use udpspeeder.Convs.Links.{Kept}
use udpspeeder.Convs.Idle.{peek_back-some, one-Cleared, clear_inactive0-Cleared}

Kept-timed : (s : Convs) (t : ℕ) → Kept s → Kept (record s { last_clear_time = t })
Kept-timed s t k = record {
  there = k.there;
  back = k.back;
  timed = k.timed;
  ordered = k.ordered;
  word = k.word;
}

module _ (P : Convs → Type 0)
    (erased : (s s1 : Convs) (c d : ℕ)
      → Kept s
      → P s
      → find s.conv_to_data c ≡ some d
      → erase_conv s c ≡ some s1
      → P s1) where
  clear_some-keeps :
      (n now : ℕ) (s : Convs)
      → Kept s
      → P s
      → (s' : Convs) × (clear_some n now s ≡ some s') × Kept s' × P s'
  clear_some-keeps zero now s k p = (s, refl, k, p)
  clear_some-keeps (suc n) now s k p = elim (Bool-cases (is_empty s.lru)) [
    | inl done ↦ (s, rw (clear_some, done) refl, k, p)
    | inr more ↦
        let (e, last) = peek_back-some s.lru more in
        elim (Bool-cases (ltb (since now e.ts) conv_timeout)) [
          | inl young ↦ (s, rw (clear_some, more, last, ◌>>=◌, young) refl, k, p)
          | inr idle ↦
              let (d, s1, given, gone, k1, shorter, follow) = one-Cleared n now s e k last idle in
              let (s', run, k', p') =
                clear_some-keeps n now s1 k1 (erased s s1 e.key d k p given gone) in
              (s', rw (clear_some, more, last, ◌>>=◌, idle, gone) run, k', p')
        ]
  ]

  -- The time of the clearing has no part in it.
  pub clear_inactive-keeps :
      (now : ℕ) (s : Convs)
      → ((t : ℕ) → P s → P (record s { last_clear_time = t }))
      → Kept s
      → P s
      → (s' : Convs) × (clear_inactive s now ≡ some s') × Kept s' × P s'
  unfolding clear_inactive clear_inactive0
  clear_inactive-keeps now s timed k p =
      elim (Bool-cases (ltb conv_clear_interval (since now s.last_clear_time))) [
        | inl due ↦
            let t : Convs = record s { last_clear_time = now } in
            let (s', run, k', p') =
              clear_some-keeps (num_to_clean t) now t (Kept-timed s now k) (timed now p) in
            (s', rw (clear_inactive, due, clear_inactive0) run, k', p')
        | inr early ↦ (s, rw (clear_inactive, early) refl, k, p)
      ]

-- A conversation that was used within conv_timeout stays, with its time.
pub clear_inactive-recent :
    (s s' : Convs) (now c t : ℕ)
    → Kept s
    → clear_inactive s now ≡ some s'
    → ts_of s.lru c ≡ some t
    → since now t < conv_timeout
    → ts_of s'.lru c ≡ some t
unfolding clear_inactive
clear_inactive-recent s s' now c t k run known young =
    elim (Bool-cases (ltb conv_clear_interval (since now s.last_clear_time))) [
      | inl due ↦
          let timed : Convs = record s { last_clear_time = now } in
          let (s2, run2, cleared) = clear_inactive0-Cleared timed now (Kept-timed s now k) in
          let same : s' ≡ s2 = cc (rw due at run, run2) in rw same (cleared.recent c t known young)
      | inr early ↦ let same : s' ≡ s = cc (rw early at run) in rw same known
    ]
