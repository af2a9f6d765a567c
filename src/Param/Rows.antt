-- ===== src/Param/Rows.antt =====
-- What the loops of rs_from_str write into the table, and which rows they leave.
use udpspeeder.Base.{
  ℕ, zero, suc, ◌+◌, ◌-◌, ◌≤◌, ◌<◌, ◌≡◌, ◌≢◌, refl, ◌∙◌, ap, ◌==◌, ◌⊎◌, arith, Bool-cases, inl, inr,
}
use udpspeeder.Param.{RsParameter}
use udpspeeder.Param.Table.{set_par, between, cap_total, fill_between, fill_first}

pub set_par_hit :
    (t : ℕ → RsParameter) (x y l : ℕ) → l ≡ x - 1 → set_par t x y l ≡ record { x = x; y = y }
set_par_hit t x y l e = ground (arith, e)

pub set_par_miss : (t : ℕ → RsParameter) (x y l : ℕ) → l ≢ x - 1 → set_par t x y l ≡ t l
set_par_miss t x y l ne = ground (arith, ne)

fill_first_off :
    (y i left : ℕ) (t : ℕ → RsParameter) (l : ℕ) → l < i - 1 → fill_first y i left t l ≡ t l
unfolding fill_first
fill_first_off y i zero t l low = refl
fill_first_off y i (suc left) t l low =
    fill_first_off y (i + 1) left (set_par t i y) l (omega (arith, low))
    ∙ set_par_miss t i y l (omega (arith, low))

pub fill_first_at :
    (y i left : ℕ) (t : ℕ → RsParameter) (l : ℕ)
    → 1 ≤ i
    → i - 1 ≤ l
    → l < i - 1 + left
    → fill_first y i left t l ≡ record { x = l + 1; y = y }
unfolding fill_first
fill_first_at y i zero t l pos low high = absurd (omega (arith, low, high))
fill_first_at y i (suc left) t l pos low high = elim (Bool-cases (l == i - 1)) [
  | inl here ↦
      let at : l ≡ i - 1 = ground (arith, here) in
      let same : i ≡ l + 1 = omega (arith, at, pos) in
      fill_first_off y (i + 1) left (set_par t i y) l (omega (arith, at, pos))
      ∙ set_par_hit t i y l at
      ∙ rw same refl
  | inr other ↦
      let ne : l ≢ i - 1 = ground (arith, other) in
      fill_first_at y (i + 1) left (set_par t i y) l (omega arith) (omega (arith, ne, low))
        (omega (arith, high, pos))
]

module _ (pre now : RsParameter) where
  -- The row that the loop makes for `j`.
  abbrev pub made : ℕ → RsParameter
  made j = record { x = j; y = cap_total j (between pre now j) }

  pub fill_between_off :
      (j left : ℕ) (t : ℕ → RsParameter) (l : ℕ)
      → 1 ≤ j
      → (l < j - 1) ⊎ (j - 1 + left ≤ l)
      → fill_between pre now j left t l ≡ t l
  unfolding fill_between
  fill_between_off j zero t l pos off = refl
  fill_between_off j (suc left) t l pos off =
      fill_between_off (j + 1) left (set_par t j (cap_total j (between pre now j))) l (omega arith)
        (farther off)
      ∙ set_par_miss t j (cap_total j (between pre now j)) l (elsewhere off)
    where
      farther : (l < j - 1) ⊎ (j - 1 + suc left ≤ l) → (l < j + 1 - 1) ⊎ (j + 1 - 1 + left ≤ l)
      farther (inl low) = inl (omega (arith, low))
      farther (inr high) = inr (omega (arith, high, pos))

      elsewhere : (l < j - 1) ⊎ (j - 1 + suc left ≤ l) → l ≢ j - 1
      elsewhere (inl low) = omega (arith, low)
      elsewhere (inr high) = omega (arith, high)

  pub fill_between_at :
      (j left : ℕ) (t : ℕ → RsParameter) (l : ℕ)
      → 1 ≤ j
      → j - 1 ≤ l
      → l < j - 1 + left
      → fill_between pre now j left t l ≡ made (l + 1)
  unfolding fill_between
  fill_between_at j zero t l pos low high = absurd (omega (arith, low, high))
  fill_between_at j (suc left) t l pos low high = elim (Bool-cases (l == j - 1)) [
    | inl here ↦
        let at : l ≡ j - 1 = ground (arith, here) in
        let same : j ≡ l + 1 = omega (arith, at, pos) in
        fill_between_off (j + 1) left (set_par t j (cap_total j (between pre now j))) l
          (omega arith) (inl (omega (arith, at, pos)))
        ∙ set_par_hit t j (cap_total j (between pre now j)) l at
        ∙ ap made same
    | inr other ↦
        let ne : l ≢ j - 1 = ground (arith, other) in
        fill_between_at (j + 1) left (set_par t j (cap_total j (between pre now j))) l (omega arith)
          (omega (arith, ne, low)) (omega (arith, high, pos))
  ]
