-- ===== src/Base/Memory.antt =====
-- A byte buffer of C as a function from offsets: what is not written keeps its old contents.
use udpspeeder.Base.{
  ℕ, zero, suc, ◌+◌, ◌≤◌, ◌<◌, ◌≡◌, refl, ◌∙◌, ap, subst, List, [], ◌∷◌, ◌++◌, arith, length, ◌==◌,
  Bool-cases, inl, inr, if◌then◌else◌,
}

abbrev pub Memory : Type 0
Memory = ℕ → ℕ

abbrev pub store : Memory → ℕ → ℕ → Memory
store m p b q = if q == p then b else m q

-- `memcpy(m + p, xs, length xs)`
unfoldable pub memcpy : Memory → ℕ → List ℕ → Memory
memcpy m p [] = m
memcpy m p (x ∷ xs) = store (memcpy m (p + 1) xs) p x

-- The `n` bytes at `m + p`.
unfoldable pub slice : Memory → ℕ → ℕ → List ℕ
slice m p zero = []
slice m p (suc n) = m p ∷ slice m (p + 1) n

-- The bytes `xs` stand at `m + p`.
abbrev pub Holds : Memory → ℕ → List ℕ → Type 0
Holds m p [] = Unit {0}
Holds m p (x ∷ xs) = (m p ≡ x) × Holds m (p + 1) xs

pub memcpy_below : (m : Memory) (p : ℕ) (xs : List ℕ) (q : ℕ) → q < p → memcpy m p xs q ≡ m q
unfolding memcpy
memcpy_below m p [] q h = refl
memcpy_below m p (x ∷ xs) q h = ground (arith, memcpy_below m (p + 1) xs q)

pub memcpy_above :
    (m : Memory) (p : ℕ) (xs : List ℕ) (q : ℕ) → p + length xs ≤ q → memcpy m p xs q ≡ m q
unfolding memcpy
memcpy_above m p [] q h = refl
memcpy_above m p (x ∷ xs) q h = ground (arith, memcpy_above m (p + 1) xs q)

-- Two buffers that agree on a range hold the same there.
pub Holds-agree :
    (m m' : Memory) (p : ℕ) (xs : List ℕ)
    → ((q : ℕ) → p ≤ q → q < p + length xs → m' q ≡ m q)
    → Holds m p xs
    → Holds m' p xs
Holds-agree m m' p [] e h = tt
Holds-agree m m' p (x ∷ xs) e h = (
  e p (omega arith) (omega arith) ∙ h.0,
  Holds-agree m m' (p + 1) xs (λ q lo hi. e q (omega arith) (omega arith)) h.1,
)

pub Holds-memcpy : (m : Memory) (p : ℕ) (xs : List ℕ) → Holds (memcpy m p xs) p xs
unfolding memcpy
Holds-memcpy m p [] = tt
Holds-memcpy m p (x ∷ xs) = (
  ground arith,
  Holds-agree (memcpy m (p + 1) xs) (memcpy m p (x ∷ xs)) (p + 1) xs (λ q lo hi. ground arith)
      (Holds-memcpy m (p + 1) xs),
)

-- A write before or behind a range keeps what it holds.
pub Holds-memcpy_after :
    (m : Memory) (p q : ℕ) (xs ys : List ℕ)
    → p + length xs ≤ q
    → Holds m p xs
    → Holds (memcpy m q ys) p xs
Holds-memcpy_after m p q xs ys h =
    Holds-agree m (memcpy m q ys) p xs λ r lo hi. memcpy_below m q ys r (omega arith)

pub Holds-memcpy_before :
    (m : Memory) (p q : ℕ) (xs ys : List ℕ)
    → q + length ys ≤ p
    → Holds m p xs
    → Holds (memcpy m q ys) p xs
Holds-memcpy_before m p q xs ys h =
    Holds-agree m (memcpy m q ys) p xs λ r lo hi. memcpy_above m q ys r (omega arith)

pub Holds-append :
    (m : Memory) (p q : ℕ) (xs ys : List ℕ)
    → p + length xs ≡ q
    → Holds m p xs
    → Holds m q ys
    → Holds m p (xs ++ ys)
Holds-append m p q [] ys e h k = let e' : q ≡ p = omega arith in subst (λ r. Holds m r ys) e' k
Holds-append m p q (x ∷ xs) ys e h k = (h.0, Holds-append m (p + 1) q xs ys (omega arith) h.1 k)

pub Holds-append_left : (m : Memory) (p : ℕ) (xs ys : List ℕ) → Holds m p (xs ++ ys) → Holds m p xs
Holds-append_left m p [] ys h = tt
Holds-append_left m p (x ∷ xs) ys h = (h.0, Holds-append_left m (p + 1) xs ys h.1)

pub Holds-append_right :
    (m : Memory) (p q : ℕ) (xs ys : List ℕ)
    → p + length xs ≡ q
    → Holds m p (xs ++ ys)
    → Holds m q ys
Holds-append_right m p q [] ys e h = let e' : p ≡ q = omega arith in subst (λ r. Holds m r ys) e' h
Holds-append_right m p q (x ∷ xs) ys e h = Holds-append_right m (p + 1) q xs ys (omega arith) h.1

pub slice_of_Holds : (m : Memory) (p : ℕ) (xs : List ℕ) → Holds m p xs → slice m p (length xs) ≡ xs
unfolding slice
slice_of_Holds m p [] h = refl
slice_of_Holds m p (x ∷ xs) h = ground (arith, slice_of_Holds m (p + 1) xs h.1)

pub length-slice : (m : Memory) (p n : ℕ) → length (slice m p n) ≡ n
unfolding slice
length-slice m p zero = refl
length-slice m p (suc n) = ap suc (length-slice m (p + 1) n)

-- Two writes side by side are one.
pub memcpy-append :
    (m : Memory) (p r : ℕ) (xs ys : List ℕ) (q : ℕ)
    → p + length xs ≡ r
    → memcpy (memcpy m r ys) p xs q ≡ memcpy m p (xs ++ ys) q
unfolding memcpy
memcpy-append m p r [] ys q e = let e' : r ≡ p = omega arith in rw e'
memcpy-append m p r (x ∷ xs) ys q e = ground (arith, memcpy-append m (p + 1) r xs ys q)

memcpy_cong :
    (m m' : Memory) (r : ℕ) (ys : List ℕ) (q : ℕ) → m q ≡ m' q → memcpy m r ys q ≡ memcpy m' r ys q
unfolding memcpy
memcpy_cong m m' r [] q e = e
memcpy_cong m m' r (y ∷ ys) q e = ground (arith, memcpy_cong m m' (r + 1) ys q e)

-- A byte written in front of a range may as well be written after it.
pub memcpy-store :
    (m : Memory) (p b r : ℕ) (ys : List ℕ) (q : ℕ)
    → p < r
    → memcpy (store m p b) r ys q ≡ store (memcpy m r ys) p b q
memcpy-store m p b r ys q h = elim (Bool-cases (q == p)) [
  | inl hit ↦ rw hit (memcpy_below (store m p b) r ys q (ground arith) ∙ rw hit)
  | inr miss ↦ rw miss (memcpy_cong (store m p b) m r ys q (rw miss))
]

-- Two buffers that agree on a range have the same bytes there.
pub slice-same :
    (m m' : Memory) (p n : ℕ)
    → ((q : ℕ) → p ≤ q → q < p + n → m' q ≡ m q)
    → slice m' p n ≡ slice m p n
unfolding slice
slice-same m m' p zero h = refl
slice-same m m' p (suc n) h =
    rw
      (
        h p (omega arith) (omega arith),
        slice-same m m' (p + 1) n (λ q lo hi. h q (omega arith) (omega arith)),
      )
      refl
