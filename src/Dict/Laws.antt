-- ===== src/Dict/Laws.antt =====
-- A map that is written or cut at one key keeps the others.
use udpspeeder.Base.{
  ℕ, suc, ◌≡◌, ◌≢◌, refl, ap, List, [], ◌∷◌, Option, false, none, some, length, ◌==◌, arith,
  Bool-cases, inl, inr,
}
use udpspeeder.Dict.{Binding, find, erase, put, is_found}

module _ {V : Type 0} where
  pub none_of_not_found : (o : Option V) → is_found o ≡ false → o ≡ none
  none_of_not_found none e = refl
  none_of_not_found (some v) e = cc

  pub find-erase_self : (m : List (Binding V)) (k : ℕ) → find (erase m k) k ≡ none
  find-erase_self [] k = refl
  find-erase_self (b ∷ m) k = ground (arith, find-erase_self m k)

  pub find-erase_other : (m : List (Binding V)) (k j : ℕ) → j ≢ k → find (erase m k) j ≡ find m j
  find-erase_other [] k j ne = refl
  find-erase_other (b ∷ m) k j ne = ground (arith, find-erase_other m k j ne)

  pub find-put_self : (m : List (Binding V)) (k : ℕ) (v : V) → find (put m k v) k ≡ some v
  find-put_self m k v = ground arith

  pub find-put_other :
      (m : List (Binding V)) (k j : ℕ) (v : V) → j ≢ k → find (put m k v) j ≡ find m j
  find-put_other m k j v ne = ground (arith, find-erase_other m k j ne)

  pub erase-absent :
      (m : List (Binding V)) (k : ℕ) → find m k ≡ none → length (erase m k) ≡ length m
  erase-absent [] k h = refl
  erase-absent (b ∷ m) k h = elim (Bool-cases (b.name == k)) [
    | inl same ↦ absurd (cc (rw same at h))
    | inr other ↦ rw other (ap suc (erase-absent m k (rw other at h)))
  ]
