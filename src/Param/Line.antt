-- ===== src/Param/Line.antt =====
-- The table that rs_from_str fills, row by row: it runs on straight lines between the pairs.
use native.Mathlib.Nat.{mul-le-mul_right, lt_of_mul-lt-mul_right}
use udpspeeder.Base.{
  ℕ, ◌+◌, ◌-◌, ◌*◌, ◌%◌, ◌^◌, ◌≤◌, ◌<◌, ◌≡◌, refl, ◌∙◌, ap, List, [], ◌∷◌, some, true, arith, All,
  inl, inr,
}
use udpspeeder.Param.Rows.{
  set_par_hit, set_par_miss, fill_first_at, made, fill_between_off, fill_between_at,
}
use udpspeeder.Text.{ℤ}
use udpspeeder.Param.{RsParameter, FecParameter}
use udpspeeder.Param.Table.{
  is_over, check_pair, check_pairs, ascending, set_par, between, cap_total, fill_between,
  fill_first, fill_rest, last_x, fill, rs_from_pairs,
}
use udpspeeder.Param.Laws.{
  FitsInt, IsPair, ints, check_pairs-IsPair, fill_inv, rs_from_pairs_inv, between_rounds_up,
  fill-IsTable, IsTable,
}

-- Row `row` for `j` data shards is on the line from one pair to the next, rounded up.
abbrev pub OnLine : (pre now : RsParameter) (j : ℕ) → RsParameter → Type 0
OnLine pre now j row =
    let d = now.x - pre.x in
    let line = pre.y * (now.x - j) + now.y * (j - pre.x) in
    (row.x ≡ j) × (line ≤ row.y * d) × (row.y * d < line + d)

-- The rows behind the pair `pre`: each further pair is a row, with a line before it.
abbrev pub Follows : (ℕ → RsParameter) → RsParameter → List RsParameter → Type 0
Follows t pre [] = Unit {0}
Follows t pre (now ∷ rest) =
    (t (now.x - 1) ≡ now)
    × ((j : ℕ) → pre.x < j → j < now.x → OnLine pre now j (t (j - 1)))
    × Follows t now rest

module _ (pre now : RsParameter) where
  -- On a line between good pairs the total stays within 255, so the cap does nothing.
  line_fits :
      (a b q : ℕ)
      → pre.x + b + a ≡ now.x
      → pre.x + pre.y ≤ 255
      → now.x + now.y ≤ 255
      → q * (a + b) < pre.y * a + now.y * b + (a + b)
      → pre.x + b + q ≤ 255
  line_fits a b q span first last below =
      let n : ℕ = 255 - (pre.x + b) in
      let one : pre.y * a ≤ (n + b) * a = mul-le-mul_right a (omega (arith, span, first, last)) in
      let two : (now.y + a) * b ≤ n * b = mul-le-mul_right b (omega (arith, span, last)) in
      let less : q * (a + b) < (n + 1) * (a + b) = grind (arith, one, two, below) in
      let q_small = lt_of_mul-lt-mul_right (a + b) less in omega (arith, q_small, span, last)

  made-OnLine :
      (j : ℕ) → IsPair pre → IsPair now → pre.x < j → j < now.x → OnLine pre now j (made pre now j)
  unfolding cap_total
  made-OnLine j p n lo hi =
      let (low, high) = between_rounds_up pre now j lo hi (omega (arith, n.1)) in
      let whole : now.x - pre.x ≡ now.x - j + (j - pre.x) = omega (arith, lo, hi) in
      let fits : pre.x + (j - pre.x) + between pre now j ≤ 255 =
        line_fits (now.x - j) (j - pre.x) (between pre now j) (omega (arith, lo, hi)) p.1 n.1
          (rw⁻¹ whole high) in
      let same : cap_total j (between pre now j) ≡ between pre now j = ground (arith, fits, lo) in
      rw same (refl, low, high)

-- What one pair adds to the table.
abbrev with_pair : (pre now : RsParameter) → (ℕ → RsParameter) → ℕ → RsParameter
with_pair pre now t = fill_between pre now (pre.x + 1) (now.x - 1 - pre.x) (set_par t now.x now.y)

ascends :
    (pre now : RsParameter) (rest : List RsParameter)
    → ascending pre (now ∷ rest) ≡ true
    → (pre.x < now.x) × (ascending now rest ≡ true)
unfolding ascending
ascends pre now rest asc = (ground (arith, asc), ground (arith, asc))

-- Further pairs leave the rows below.
fill_rest_below :
    (pre : RsParameter) (rest : List RsParameter) (t : ℕ → RsParameter) (l : ℕ)
    → ascending pre rest ≡ true
    → l < pre.x
    → fill_rest pre rest t l ≡ t l
unfolding fill_rest
fill_rest_below pre [] t l asc low = refl
fill_rest_below pre (now ∷ rest) t l asc low =
    let (above, asc') = ascends pre now rest asc in
    fill_rest_below now rest (with_pair pre now t) l asc' (omega (arith, low, above))
    ∙ fill_between_off pre now (pre.x + 1) (now.x - 1 - pre.x) (set_par t now.x now.y) l
        (omega arith) (inl (omega (arith, low)))
    ∙ set_par_miss t now.x now.y l (omega (arith, low, above))

fill_rest-Follows :
    (pre : RsParameter) (rest : List RsParameter) (t : ℕ → RsParameter)
    → IsPair pre
    → All IsPair rest
    → ascending pre rest ≡ true
    → Follows (fill_rest pre rest t) pre rest
unfolding fill_rest
fill_rest-Follows pre [] t p a asc = tt
fill_rest-Follows pre (now ∷ rest) t p a asc = (
  fill_rest_below now rest t' (now.x - 1) asc' (omega (arith, above))
      ∙ fill_between_off pre now (pre.x + 1) (now.x - 1 - pre.x) (set_par t now.x now.y) (now.x - 1)
          (omega arith) (inr (omega (arith, above)))
      ∙ set_par_hit t now.x now.y (now.x - 1) refl,
  λ j lo hi.
      let same : j - 1 + 1 ≡ j = omega (arith, lo) in
      let row : fill_rest now rest t' (j - 1) ≡ made pre now j =
        fill_rest_below now rest t' (j - 1) asc' (omega (arith, hi))
        ∙ fill_between_at pre now (pre.x + 1) (now.x - 1 - pre.x) (set_par t now.x now.y) (j - 1)
            (omega arith) (omega (arith, lo)) (omega (arith, lo, hi))
        ∙ ap (made pre now) same in
      rw row (made-OnLine pre now j p a.0 lo hi),
  fill_rest-Follows now rest t' a.0 a.1 asc',
)
  where
    t' : ℕ → RsParameter
    t' = with_pair pre now t

    above : pre.x < now.x
    above = (ascends pre now rest asc).0

    asc' : ascending now rest ≡ true
    asc' = (ascends pre now rest asc).1

-- Of pairs whose sums are an `int`, what rs_from_str accepts makes this table: the number of the first pair up
-- to its row, the number of each pair at its row, and between two pairs the straight line from one to the
-- other, rounded up; the last pair's row is the last. There is a row for every number of data shards up to
-- that, in order, and none asks for more than 255 shards.
pub rs_from_pairs-Follows :
    (par par' : FecParameter) (pairs : List (ℤ × ℤ))
    → All FitsInt pairs
    → rs_from_pairs par pairs ≡ some par'
    → (p : RsParameter) × (ps : List RsParameter) × (pairs ≡ ints (p ∷ ps))
      × ((l : ℕ) → l < p.x → par'.rs_par l ≡ record { x = l + 1; y = p.y })
      × Follows par'.rs_par p ps
      × (par'.rs_cnt ≡ last_x p ps)
      × IsTable 255 par'
rs_from_pairs-Follows par par' pairs a h =
    let (ps, read, filled) = rs_from_pairs_inv par par' pairs h in
    let (good, same) = check_pairs-IsPair pairs ps a read in
    filled_rows par par' pairs ps good same filled
  where
    filled_rows :
        (par par' : FecParameter) (pairs : List (ℤ × ℤ)) (ps : List RsParameter)
        → All IsPair ps
        → pairs ≡ ints ps
        → fill par ps ≡ some par'
        → (p : RsParameter) × (ps : List RsParameter) × (pairs ≡ ints (p ∷ ps))
          × ((l : ℕ) → l < p.x → par'.rs_par l ≡ record { x = l + 1; y = p.y })
          × Follows par'.rs_par p ps
          × (par'.rs_cnt ≡ last_x p ps)
          × IsTable 255 par'
    filled_rows par par' pairs [] good same filled = unfold fill in cc
    filled_rows par par' pairs (p ∷ ps) good same filled =
        let (asc, rows, cnt) = fill_inv par par' p ps filled in
        (
          p,
          ps,
          same,
          λ l low.
              ap (λ (t : ℕ → RsParameter). t l) rows
              ∙ fill_rest_below p ps (fill_first p.y 1 p.x par.rs_par) l asc low
              ∙ fill_first_at p.y 1 p.x par.rs_par l (omega arith) (omega arith)
                  (omega (arith, low)),
          rw rows (fill_rest-Follows p ps (fill_first p.y 1 p.x par.rs_par) good.0 good.1 asc),
          cnt,
          fill-IsTable par par' (p ∷ ps) good filled,
        )

-- A single pair whose sum is no `int` passes the check, however large it is: the table has the rows for what
-- an `unsigned char` keeps of the two numbers.
pub rs_from_pairs_overflow :
    (par : FecParameter) (x y : ℕ)
    → x < 2 ^ 31
    → y < 2 ^ 31
    → 2 ^ 31 ≤ x + y
    → (par' : FecParameter) × (rs_from_pairs par ((ℤ.pos x, ℤ.pos y) ∷ []) ≡ some par')
      × (par'.rs_cnt ≡ x % 256)
      × ((l : ℕ) → l < x % 256 → par'.rs_par l ≡ record { x = l + 1; y = y % 256 })
unfolding rs_from_pairs check_pairs check_pair is_over fill ascending fill_rest
rs_from_pairs_overflow par x y small_x small_y large =
    let passes : check_pair (ℤ.pos x) (ℤ.pos y) ≡ some (record { x = x % 256; y = y % 256 }) =
      ground (arith, small_x, small_y, large) in
    (
      record par { rs_par = fill_first (y % 256) 1 (x % 256) par.rs_par; rs_cnt = x % 256 },
      rw (rs_from_pairs, check_pairs, passes) refl,
      refl,
      λ l low.
          fill_first_at (y % 256) 1 (x % 256) par.rs_par l (omega arith) (omega arith)
            (omega (arith, low)),
    )
