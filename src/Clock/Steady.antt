-- ===== src/Clock/Steady.antt =====
-- The readings of the clock do not go back, whatever the system's clock does.
use native.Mathlib.Nat.{mod-eq_of_lt}
use udpspeeder.Base.{
  ℕ, ◌+◌, ◌-◌, ◌%◌, ◌^◌, ◌≤◌, ◌<◌, ◌≡◌, refl, List, [], ◌∷◌, All, ltb, arith, Bool-cases, inl, inr,
}
use udpspeeder.Clock.{Clock, get_current_time_us}

-- The readings for a list of values of the system's clock.
abbrev pub readings : Clock → List ℕ → List ℕ
readings c [] = []
readings c (raw ∷ raws) = let (c', now) = get_current_time_us c raw in now ∷ readings c' raws

-- Each reading is at least as late as those before it.
abbrev pub Ascending : List ℕ → Type 0
Ascending [] = Unit {0}
Ascending (t ∷ ts) = All (λ u. t ≤ u) ts × Ascending ts

-- No sum of a value of the system's clock and the correction in force passes 64 bits.
abbrev pub NoWrap : Clock → List ℕ → Type 0
NoWrap c [] = Unit {0}
NoWrap c (raw ∷ raws) = (raw + c.value_fix < 2 ^ 64) × NoWrap (get_current_time_us c raw).0 raws

reading :
    (c : Clock) (raw : ℕ)
    → c.largest_value < 2 ^ 64
    → raw + c.value_fix < 2 ^ 64
    → ((get_current_time_us c raw).1 ≡ (get_current_time_us c raw).0.largest_value)
      × (c.largest_value ≤ (get_current_time_us c raw).0.largest_value)
      × ((get_current_time_us c raw).0.largest_value < 2 ^ 64)
unfolding get_current_time_us
reading c raw large small = elim (Bool-cases (ltb ((raw + c.value_fix) % 2 ^ 64) c.largest_value)) [
  | inl back ↦
      let e : (raw + c.value_fix) % 2 ^ 64 ≡ raw + c.value_fix = mod-eq_of_lt small in
      let less : raw + c.value_fix < c.largest_value = ground (arith, rw e at back) in
      let fix : (c.value_fix + (c.largest_value - (raw + c.value_fix))) % 2 ^ 64
          ≡ c.largest_value - raw =
        omega (arith, less, large) in
      rw (back, e, fix) (omega (arith, less, large), omega arith, large)
  | inr on ↦
      let e : (raw + c.value_fix) % 2 ^ 64 ≡ raw + c.value_fix = mod-eq_of_lt small in
      rw (on, e) (refl, ground (arith, rw e at on), small)
]

All-from : (s t : ℕ) (ts : List ℕ) → s ≤ t → All (λ u. t ≤ u) ts → All (λ u. s ≤ u) ts
All-from s t [] h a = tt
All-from s t (u ∷ ts) h a = (omega (arith, a.0), All-from s t ts h a.1)

from_largest :
    (c : Clock) (raws : List ℕ)
    → c.largest_value < 2 ^ 64
    → NoWrap c raws
    → All (λ u. c.largest_value ≤ u) (readings c raws) × Ascending (readings c raws)
from_largest c [] large fits = (tt, tt)
from_largest c (raw ∷ raws) large fits =
    let (now, later, large') = reading c raw large fits.0 in
    let c' = (get_current_time_us c raw).0 in
    let (above, ascending) = from_largest c' raws large' fits.1 in
    (
      (
        omega (arith, now, later),
        All-from c.largest_value c'.largest_value (readings c' raws) later above,
      ),
      (
        All-from (get_current_time_us c raw).1 c'.largest_value (readings c' raws)
            (omega (arith, now)) above,
        ascending,
      ),
    )

-- Whatever the system's clock gives, as long as no sum passes 64 bits, each reading of
-- get_current_time_us is at least as late as all before it.
pub readings-Ascending :
    (c : Clock) (raws : List ℕ)
    → c.largest_value < 2 ^ 64
    → NoWrap c raws
    → Ascending (readings c raws)
readings-Ascending c raws large fits = (from_largest c raws large fits).1
