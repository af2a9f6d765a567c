-- ===== src/Lru/Order.antt =====
-- The keys stand in the order of their last use.
use udpspeeder.Base.{
  ℕ, ◌≤◌, ◌≡◌, ◌≢◌, refl, ◌∙◌, true, false, Option, List, [], ◌∷◌, none, some, ◌==◌, arith, All,
  Bool-cases, inl, inr,
}
use udpspeeder.Lru.{LruPair, ts_of, is_known, remove, not_before_front, update, peek_back}

pub none_of_unknown : (o : Option ℕ) → is_known o ≡ false → o ≡ none
none_of_unknown none e = refl
none_of_unknown (some t) e = cc

abbrev NotAfter : ℕ → LruPair → Type 0
NotAfter t e = e.ts ≤ t

-- No key twice, and nothing used after what stands in front of it.
abbrev pub IsOrdered : List LruPair → Type 0
IsOrdered [] = Unit {0}
IsOrdered (e ∷ q) = All (NotAfter e.ts) q × (ts_of q e.key ≡ none) × IsOrdered q

pub remove-All : (t k : ℕ) (q : List LruPair) → All (NotAfter t) q → All (NotAfter t) (remove q k)
remove-All t k [] a = tt
remove-All t k (e ∷ q) a = elim (Bool-cases (e.key == k)) [
  | inl same ↦ rw same a.1
  | inr other ↦ rw other (a.0, remove-All t k q a.1)
]

pub ts_of-remove_other : (q : List LruPair) (k j : ℕ) → j ≢ k → ts_of (remove q k) j ≡ ts_of q j
ts_of-remove_other [] k j ne = refl
ts_of-remove_other (e ∷ q) k j ne = ground (arith, ts_of-remove_other q k j ne)

pub ts_of-remove_self : (q : List LruPair) (k : ℕ) → IsOrdered q → ts_of (remove q k) k ≡ none
ts_of-remove_self [] k o = refl
ts_of-remove_self (e ∷ q) k o = ground (arith, o.1, ts_of-remove_self q k o.2)

pub remove-IsOrdered : (q : List LruPair) (k : ℕ) → IsOrdered q → IsOrdered (remove q k)
remove-IsOrdered [] k o = tt
remove-IsOrdered (e ∷ q) k o = elim (Bool-cases (e.key == k)) [
  | inl same ↦ rw same o.2
  | inr other ↦
      let ne : e.key ≢ k = ground arith in
      rw other
        (remove-All e.ts k q o.0, ts_of-remove_other q k e.key ne ∙ o.1, remove-IsOrdered q k o.2)
]

pub not_before-All :
    (q : List LruPair) (now : ℕ) → All (NotAfter now) q → not_before_front q now ≡ true
not_before-All [] now a = refl
not_before-All (e ∷ q) now a = ground (arith, a.0)

-- What is not after one time is not after a later one.
pub All-later : (s t : ℕ) (q : List LruPair) → s ≤ t → All (λ e. e.ts ≤ s) q → All (λ e. e.ts ≤ t) q
All-later s t [] h a = tt
All-later s t (e ∷ q) h a = (omega (arith, a.0), All-later s t q h a.1)

-- The list after a known key is used.
pub update-known :
    (q : List LruPair) (k now : ℕ)
    → All (λ e. e.ts ≤ now) q
    → is_known (ts_of q k) ≡ true
    → update q k now ≡ some (record { key = k; ts = now } ∷ remove q k)
unfolding update
update-known q k now a known =
    rw (known, not_before-All (remove q k) now (remove-All now k q a)) refl

pub update-All :
    (q : List LruPair) (k now : ℕ)
    → All (λ e. e.ts ≤ now) q
    → All (λ e. e.ts ≤ now) (record { key = k; ts = now } ∷ remove q k)
update-All q k now a = (omega arith, remove-All now k q a)

-- A known key moves to the front with the time `now`, which is not before any time there; the other
-- keys keep their times, and the order stays.
pub update-IsOrdered :
    (q : List LruPair) (k now : ℕ)
    → IsOrdered q
    → All (λ e. e.ts ≤ now) q
    → is_known (ts_of q k) ≡ true
    → (q' : List LruPair) × (update q k now ≡ some q')
      × IsOrdered q'
      × (ts_of q' k ≡ some now)
      × ((j : ℕ) → j ≢ k → ts_of q' j ≡ ts_of q j)
unfolding update
update-IsOrdered q k now o a known = (
  record { key = k; ts = now } ∷ remove q k,
  rw (known, not_before-All (remove q k) now (remove-All now k q a)) refl,
  (remove-All now k q a, ts_of-remove_self q k o, remove-IsOrdered q k o),
  ground arith,
  λ j ne. ground (arith, ts_of-remove_other q k j ne),
)

-- In an ordered list no key has been used before the one that peek_back finds.
pub peek_back_oldest :
    (q : List LruPair) (e : LruPair) (k t : ℕ)
    → IsOrdered q
    → peek_back q ≡ some e
    → ts_of q k ≡ some t
    → e.ts ≤ t
unfolding peek_back
peek_back_oldest [] e k t o last given = cc
peek_back_oldest (f ∷ []) e k t o last given = ground arith
peek_back_oldest (f ∷ g ∷ q) e k t o last given = elim (Bool-cases (f.key == k)) [
  | inl front ↦
      let oldest : e.ts ≤ g.ts = peek_back_oldest (g ∷ q) e g.key g.ts o.2 last (ground arith) in
      ground (arith, front, given, oldest, o.0.0)
  | inr behind ↦ peek_back_oldest (g ∷ q) e k t o.2 last (ground (arith, behind, given))
]
