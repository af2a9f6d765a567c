-- ===== src/Convs/Idle.antt =====
-- clear_inactive0 clears conversations that have been idle for conv_timeout, the longest idle first, a
-- bounded number at a time.
use udpspeeder.Base.{
  ℕ, zero, suc, ◌+◌, ◌-◌, ◌^◌, ◌≤◌, ◌<◌, ◌≡◌, ◌≢◌, refl, ◌∙◌, sym, ap, false, List, [], ◌∷◌, some,
  arith, Option-cases, Bool-cases, inl, inr, length, All, ltb, ◌==◌, ◌>>=◌,
}
use udpspeeder.Lru.{LruPair, ts_of, remove, peek_back, is_empty, size}
use udpspeeder.Lru.Order.{IsOrdered, peek_back_oldest}
use udpspeeder.Dict.{find}
use udpspeeder.Convs.{
  Convs, is_conv_used, erase_conv, clear_some, num_to_clean, clear_inactive0, since, conv_timeout,
}
use udpspeeder.Convs.Links.{Kept, erase_conv-Kept}

length-remove :
    (q : List LruPair) (k t : ℕ) → ts_of q k ≡ some t → length (remove q k) + 1 ≡ length q
length-remove [] k t e = cc
length-remove (f ∷ q) k t e = ground (arith, length-remove q k t)

peek_back_known :
    (q : List LruPair) (e : LruPair)
    → IsOrdered q
    → peek_back q ≡ some e
    → ts_of q e.key ≡ some e.ts
unfolding peek_back
peek_back_known [] e o h = cc
peek_back_known (f ∷ []) e o h = ground arith
peek_back_known (f ∷ g ∷ q) e o h = ground (arith, peek_back_known (g ∷ q) e o.2 h, o.1)

pub peek_back-some :
    (q : List LruPair) → is_empty q ≡ false → (e : LruPair) × (peek_back q ≡ some e)
unfolding peek_back is_empty
peek_back-some [] h = cc
peek_back-some (f ∷ []) h = (f, refl)
peek_back-some (f ∷ g ∷ q) h = peek_back-some (g ∷ q) refl

-- What a run of the loop with `n` left to clear may do.
pub record Cleared (n now : ℕ) (s s' : Convs) : Type 0 where
  pub kept : Kept s'
  pub few : length s.lru ≤ length s'.lru + n
  pub no_more : length s'.lru ≤ length s.lru
  pub same : (c d : ℕ) → find s'.conv_to_data c ≡ some d → find s.conv_to_data c ≡ some d
  pub recent :
      (c t : ℕ) → ts_of s.lru c ≡ some t → since now t < conv_timeout → ts_of s'.lru c ≡ some t

nothing-Cleared : (n now : ℕ) (s : Convs) → Kept s → Cleared n now s s
nothing-Cleared n now s k = record {
  kept = k;
  few = omega arith;
  no_more = omega arith;
  same = λ c d e. e;
  recent = λ c t e h. e;
}

-- The oldest conversation goes if it is idle, and the rest of the run follows.
pub one-Cleared :
    (n now : ℕ) (s : Convs) (e : LruPair)
    → Kept s
    → peek_back s.lru ≡ some e
    → ltb (since now e.ts) conv_timeout ≡ false
    → (d : ℕ) × (s1 : Convs) × (find s.conv_to_data e.key ≡ some d)
      × (erase_conv s e.key ≡ some s1)
      × Kept s1
      × (length s1.lru + 1 ≡ length s.lru)
      × ((s' : Convs) → Cleared n now s1 s' → Cleared (suc n) now s s')
unfolding is_conv_used
one-Cleared n now s e k last idle =
    let known = peek_back_known s.lru e k.ordered last in
    let (d, given) : (d : ℕ) × (find s.conv_to_data e.key ≡ some d) = held in
    let (s1, erased, k1, unused, free, calls, lru1, others) = erase_conv-Kept s e.key d k given in
    let shorter : length s1.lru + 1 ≡ length s.lru =
      rw lru1 (length-remove s.lru e.key e.ts known) in
    (
      d,
      s1,
      given,
      erased,
      k1,
      shorter,
      λ s' r. record {
        kept = r.kept;
        few = omega (arith, r.few, shorter);
        no_more = omega (arith, r.no_more, shorter);
        same = λ c d' h. elim (Bool-cases (c == e.key)) [
          | inl hit ↦
              let there : c ≡ e.key = ground (arith, hit) in
              absurd (cc (unused, r.same c d' h, there))
          | inr miss ↦
              let ne : c ≢ e.key = ground (arith, miss) in sym (others c ne).0 ∙ r.same c d' h
        ];
        recent = λ c t h young. elim (Bool-cases (c == e.key)) [
          | inl hit ↦
              let there : c ≡ e.key = ground (arith, hit) in
              let old : t ≡ e.ts = cc (h, known, there) in
              let young' : since now e.ts < conv_timeout = rw old at young in
              absurd (ground (arith, idle, young'))
          | inr miss ↦
              let ne : c ≢ e.key = ground (arith, miss) in r.recent c t ((others c ne).1 ∙ h) young
        ];
      },
    )
  where
    held : (d : ℕ) × (find s.conv_to_data e.key ≡ some d)
    held = elim (Option-cases (find s.conv_to_data e.key)) [
      | inl missing ↦ absurd (cc (missing, k.timed e.key, peek_back_known s.lru e k.ordered last))
      | inr found ↦ found
    ]

clear_some-Cleared :
    (n now : ℕ) (s : Convs)
    → Kept s
    → (s' : Convs) × (clear_some n now s ≡ some s') × Cleared n now s s'
clear_some-Cleared zero now s k = (s, refl, nothing-Cleared 0 now s k)
clear_some-Cleared (suc n) now s k = elim (Bool-cases (is_empty s.lru)) [
  | inl done ↦ (s, rw (clear_some, done) refl, nothing-Cleared (suc n) now s k)
  | inr more ↦
      let (e, last) = peek_back-some s.lru more in
      elim (Bool-cases (ltb (since now e.ts) conv_timeout)) [
        | inl young ↦
            (s, rw (clear_some, more, last, ◌>>=◌, young) refl, nothing-Cleared (suc n) now s k)
        | inr idle ↦
            let (d, s1, given, erased, k1, shorter, follow) = one-Cleared n now s e k last idle in
            let (s', run, r) = clear_some-Cleared n now s1 k1 in
            (s', rw (clear_some, more, last, ◌>>=◌, idle, erased) run, follow s' r)
      ]
]

-- From maps that are inverse and an ordered list of last uses, clear_inactive0 returns; it clears no more
-- conversations than num_to_clean, keeps every one that was used within conv_timeout, gives none other
-- data, and keeps the maps inverse.
pub clear_inactive0-Cleared :
    (s : Convs) (now : ℕ)
    → Kept s
    → (s' : Convs) × (clear_inactive0 s now ≡ some s') × Cleared (num_to_clean s) now s s'
unfolding clear_inactive0
clear_inactive0-Cleared s now k = clear_some-Cleared (num_to_clean s) now s k

clear_some-fewer :
    (n now : ℕ) (s : Convs) (e : LruPair)
    → Kept s
    → is_empty s.lru ≡ false
    → peek_back s.lru ≡ some e
    → ltb (since now e.ts) conv_timeout ≡ false
    → (s' : Convs) × (clear_some (suc n) now s ≡ some s') × (length s'.lru < length s.lru)
clear_some-fewer n now s e k more last idle =
    let (d, s1, given, erased, k1, shorter, follow) = one-Cleared n now s e k last idle in
    let (s', run, r) = clear_some-Cleared n now s1 k1 in
    (s', rw (clear_some, more, last, ◌>>=◌, idle, erased) run, omega (arith, r.no_more, shorter))

ts_of-All :
    (q : List LruPair) (c t now : ℕ) → All (λ e. e.ts ≤ now) q → ts_of q c ≡ some t → t ≤ now
ts_of-All [] c t now a h = cc
ts_of-All (e ∷ q) c t now a h = ground (arith, ts_of-All q c t now a.1, a.0)

-- Where some conversation has been idle for conv_timeout and no use is noted after `now`, clear_inactive0
-- returns with fewer conversations than before.
pub clear_inactive0-progress :
    (s : Convs) (now c t : ℕ)
    → Kept s
    → now < 2 ^ 64
    → All (λ e. e.ts ≤ now) s.lru
    → ts_of s.lru c ≡ some t
    → conv_timeout ≤ since now t
    → (s' : Convs) × (clear_inactive0 s now ≡ some s') × (length s'.lru < length s.lru)
unfolding clear_inactive0 size is_empty
clear_inactive0-progress s now c t k small a known old =
    let (n, some_left) : (n : ℕ) × (num_to_clean s ≡ suc n) = at_least_one in
    let more : is_empty s.lru ≡ false = not_empty s.lru known in
    let (e, last) = peek_back-some s.lru more in
    let first : e.ts ≤ t = peek_back_oldest s.lru e c t k.ordered last known in
    let before : t ≤ now = ts_of-All s.lru c t now a known in
    let idle : ltb (since now e.ts) conv_timeout ≡ false = ground (arith, first, before, old) in
    let (s', run, fewer) = clear_some-fewer n now s e k more last idle in
    (s', ap (λ m. clear_some m now s) some_left ∙ run, fewer)
  where
    at_least_one : (n : ℕ) × (num_to_clean s ≡ suc n)
    at_least_one = (num_to_clean s - 1, ground (arith, length-remove s.lru c t known))

    not_empty : (q : List LruPair) → ts_of q c ≡ some t → is_empty q ≡ false
    not_empty [] h = cc
    not_empty (f ∷ q) h = refl
