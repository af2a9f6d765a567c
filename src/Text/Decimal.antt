-- ===== src/Text/Decimal.antt =====
-- A number that is printed and read back.
use mathlib.Core.List.{append_assoc}
use udpspeeder.Base.{
  ℕ, zero, suc, ◌+◌, ◌-◌, ◌*◌, ◌/◌, ◌%◌, ◌≤◌, ◌<◌, ◌≡◌, refl, ◌∙◌, ap, List, [], ◌∷◌, ◌++◌, some,
  true, false, ltb, ◌==◌, ◌>>=◌, arith, All, All-append, Bool-cases, inl, inr,
}
use udpspeeder.Text.{
  ℤ, is_space, is_digit, scan_digits, scan_nat, scan_int, skip_space, digits, print_int,
}

-- The text does not go on with a digit.
abbrev pub Ends : List ℕ → Type 0
Ends [] = Unit {0}
Ends (c ∷ s) = is_digit c ≡ false

scan_digits-Ends : (n : ℕ) (s : List ℕ) → Ends s → scan_digits n s ≡ (n, s)
unfolding scan_digits
scan_digits-Ends n [] e = refl
scan_digits-Ends n (c ∷ s) e = rw e refl

scan_nat-digits :
    (fuel n : ℕ) (rest : List ℕ)
    → n < fuel
    → scan_nat (digits fuel n ++ rest) ≡ some (scan_digits n rest)
unfolding scan_nat digits scan_digits
scan_nat-digits zero n rest h = absurd (omega arith)
scan_nat-digits (suc fuel) n rest h = elim (Bool-cases (ltb n 10)) [
  | inl small ↦ ground arith
  | inr large ↦
      let d = b'0' + n % 10 in
      let front : scan_nat (digits fuel (n / 10) ++ d ∷ rest)
          ≡ some (scan_digits (n / 10) (d ∷ rest)) =
        scan_nat-digits fuel (n / 10) (d ∷ rest) (ground arith) in
      let digit : is_digit d ≡ true = ground arith in
      let whole : n / 10 * 10 + (d - b'0') ≡ n = omega arith in
      rw (large, append_assoc (digits fuel (n / 10)) (d ∷ []) rest) (front ∙ rw (digit, whole) refl)
]

-- Every character of the text is `0` or behind it in the code.
pub digits-All : (fuel n : ℕ) → All (λ c. b'0' ≤ c) (digits fuel n)
unfolding digits
digits-All zero n = tt
digits-All (suc fuel) n = elim (Bool-cases (ltb n 10)) [
  | inl small ↦ rw small (omega arith, tt)
  | inr large ↦ rw large (
      All-append (λ c. b'0' ≤ c) (digits fuel (n / 10)) ((b'0' + n % 10) ∷ [])
        (digits-All fuel (n / 10)) (omega arith, tt))
]

scan_int-scan_nat :
    (s : List ℕ) (n : ℕ) (rest : List ℕ)
    → scan_nat s ≡ some (n, rest)
    → scan_int s ≡ some (ℤ.pos n, rest)
unfolding scan_int scan_nat skip_space
scan_int-scan_nat [] n rest h = cc
scan_int-scan_nat (c ∷ s) n rest h = elim (Bool-cases (is_digit c)) [
  | inr other ↦ absurd (cc (rw other at h))
  | inl digit ↦
      let no_space : is_space c ≡ false = ground (arith, digit) in
      let no_minus : (c == b'-') ≡ false = ground (arith, digit) in
      let no_plus : (c == b'+') ≡ false = ground (arith, digit) in
      rw (no_space, no_minus, no_plus, h, ◌>>=◌) refl
]

-- A number that is printed is read back, with what stands behind it.
pub scan_int-print_int :
    (n : ℕ) (rest : List ℕ) → Ends rest → scan_int (print_int n ++ rest) ≡ some (ℤ.pos n, rest)
unfolding print_int
scan_int-print_int n rest e =
    scan_int-scan_nat (digits (suc n) n ++ rest) n rest
      (scan_nat-digits (suc n) n rest (omega arith) ∙ ap some (scan_digits-Ends n rest e))
