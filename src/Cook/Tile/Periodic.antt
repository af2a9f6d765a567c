-- ===== src/Cook/Tile/Periodic.antt =====
-- The tile repeats the pattern, and so xor_with_pattern combines byte `q` with byte `q % pat_len`.
use native.Mathlib.Nat.{
  div-add-mod, mod-lt, mod-eq_of_lt, mul-add-mod_self_left, mod-mod_of_dvd, dvd-mul_right,
  div-eq_of_eq-mul_right,
}
use udpspeeder.Base.{
  ℕ, zero, suc, ◌+◌, ◌-◌, ◌*◌, ◌/◌, ◌%◌, ◌≤◌, ◌<◌, ◌≡◌, refl, sym, ◌∙◌, ap, subst, false, some, ltb,
  leb, ◌==◌, ◌||◌, if◌then◌else◌, arith, Bool-cases, lt→ltb, ltb→lt, le→leb, inl, inr,
}
use udpspeeder.Base.Memory.{Memory}
use udpspeeder.Cook.Xor.{Platform, vec_width, xor_tile}
use udpspeeder.Cook.Xor.Wide.{repeated, xor_tile_repeats}
use udpspeeder.Cook.Tile.{
  gcd_on, cook_gcd, cook_lcm, copy, expand_on, expand_tile, xor_with_pattern,
}

-- `n` is `d` times a number.
abbrev pub Times : ℕ → ℕ → Type 0
Times d n = (x : ℕ) × (d * x ≡ n)

Times-add : (g a b x y k : ℕ) → g * x ≡ b → g * y ≡ a % b → b * k + a % b ≡ a → g * (x * k + y) ≡ a
Times-add g a b x y k h h' e =
    let ring : g * (x * k + y) ≡ g * x * k + g * y = grind arith in ring ∙ rw (h, h') e

-- Fuel above `b` is enough, and the result divides both numbers.
gcd_on-Times :
    (fuel a b : ℕ)
    → b < fuel
    → 0 < a
    → (0 < gcd_on fuel a b) × Times (gcd_on fuel a b) a × Times (gcd_on fuel a b) b
unfolding gcd_on
gcd_on-Times zero a b h pos = absurd (omega arith)
gcd_on-Times (suc fuel) a b h pos = elim (Bool-cases (b == 0)) [
  | inl none_left ↦ rw none_left (pos, (1, omega arith), (0, ground arith))
  | inr more ↦
      let bpos : 0 < b = ground arith in
      let (gpos, (x, ex), (y, ey)) =
        gcd_on-Times fuel b (a % b) (omega (arith, mod-lt a bpos)) bpos in
      rw more
        (gpos, (x * (a / b) + y, Times-add _ a b x y (a / b) ex ey (div-add-mod a b)), (x, ex))
]

lcm_swap : (g a b x y : ℕ) → g * x ≡ a → g * y ≡ b → a * y ≡ x * b
lcm_swap g a b x y h h' = rw⁻¹ (h, h') (grind arith)

-- The least common multiple is a whole number of patterns and a whole number of vectors.
pub lcm-Times :
    (a b : ℕ) → 0 < a → 0 < b → (0 < cook_lcm a b) × Times a (cook_lcm a b) × Times b (cook_lcm a b)
unfolding cook_lcm cook_gcd
lcm-Times a b apos bpos =
    let (gpos, (x, ex), (y, ey)) = gcd_on-Times (b + 1) a b (omega arith) apos in
    let quot : a / gcd_on (b + 1) a b ≡ x = div-eq_of_eq-mul_right gpos (sym ex) in
    let xpos : 0 < x = grind (arith, ex) in
    rw quot (
      grind (arith, xpos, bpos),
      (y, lcm_swap (gcd_on (b + 1) a b) a b x y ex ey),
      (x, grind arith),
    )

-- The first `n` bytes of `m` repeat the pattern.
abbrev pub Repeats : Memory → ℕ → ℕ → Memory → Type 0
Repeats pat pat_len n m = (q : ℕ) → q < n → m q ≡ pat (q % pat_len)

mod_shift : (d k r : ℕ) → (d * k + r) % d ≡ r % d
mod_shift d k r = mul-add-mod_self_left d k r

-- How much the loop copies in one round.
abbrev chunk_of : ℕ → ℕ → ℕ
chunk_of filled total = if ltb filled (total - filled) then filled else total - filled

chunk_lem :
    (pat_len b filled k : ℕ)
    → 0 < filled
    → pat_len * k ≡ filled
    → filled < pat_len * b
    → (0 < chunk_of filled (pat_len * b))
      × (chunk_of filled (pat_len * b) ≤ filled)
      × (filled + chunk_of filled (pat_len * b) ≤ pat_len * b)
      × Times pat_len (filled + chunk_of filled (pat_len * b))
chunk_lem pat_len b filled k pos e lt = elim (Bool-cases (ltb filled (pat_len * b - filled))) [
  | inl half ↦ rw half (pos, omega arith, ground arith, (k + k, grind (arith, e)))
  | inr rest ↦ rw rest (omega arith, ground arith, omega arith, (b, omega arith))
]

copy-Repeats :
    (pat tile : Memory) (pat_len k filled chunk : ℕ)
    → pat_len * k ≡ filled
    → chunk ≤ filled
    → Repeats pat pat_len filled tile
    → Repeats pat pat_len (filled + chunk) (copy tile filled tile 0 chunk)
copy-Repeats pat tile pat_len k filled chunk e small r q below = elim (Bool-cases (leb filled q)) [
  | inl new ↦
      let back : pat_len * k + (q - filled) ≡ q = ground (arith, e) in
      let same : (q - filled) % pat_len ≡ q % pat_len =
        sym (mod_shift pat_len k (q - filled)) ∙ ap (λ x. x % pat_len) back in
      let f : q - filled + 0 ≡ q - filled = omega arith in
      rw (new, lt→ltb q (filled + chunk) below, f) (r (q - filled) (ground arith) ∙ ap pat same)
  | inr old ↦ rw old (r q (ground arith))
]

expand_on-Repeats :
    (pat : Memory) (pat_len b fuel filled k : ℕ) (tile : Memory)
    → 0 < filled
    → pat_len * k ≡ filled
    → filled ≤ pat_len * b
    → pat_len * b ≤ filled + fuel
    → Repeats pat pat_len filled tile
    → Repeats pat pat_len (pat_len * b) (expand_on fuel (pat_len * b) filled tile)
unfolding expand_on
expand_on-Repeats pat pat_len b zero filled k tile pos e le enough r = λ q below. r q (omega arith)
expand_on-Repeats pat pat_len b (suc fuel) filled k tile pos e le enough r =
    elim (Bool-cases (ltb filled (pat_len * b))) [
      | inl go ↦
          let (cpos, small, inside, (k', e')) =
            chunk_lem pat_len b filled k pos e (ltb→lt filled (pat_len * b) go) in
          let next =
            copy-Repeats pat tile pat_len k filled (chunk_of filled (pat_len * b)) e small r in
          rw go (
            expand_on-Repeats pat pat_len b fuel (filled + chunk_of filled (pat_len * b)) k' _
              (omega arith) e' inside (omega arith) next)
      | inr stop ↦ rw stop (λ q below. r q (ground arith))
    ]

expand_tile-Repeats :
    (junk pat : Memory) (pat_len b : ℕ)
    → 0 < pat_len
    → 0 < b
    → Repeats pat pat_len (pat_len * b) (expand_tile junk (pat_len * b) pat pat_len)
unfolding expand_tile
expand_tile-Repeats junk pat pat_len b pos bpos =
    expand_on-Repeats pat pat_len b (pat_len * b) pat_len 1 _ pos (omega arith) (grind arith)
      (omega arith) first
  where
    first : Repeats pat pat_len pat_len (copy junk 0 pat 0 pat_len)
    first q h =
        let e : q - 0 + 0 ≡ q = omega arith in
        rw (le→leb 0 q (omega arith), lt→ltb q (0 + pat_len) (omega arith), e)
          (ap pat (sym (mod-eq_of_lt h)))

mul_mod-mod : (a b q : ℕ) → q % (a * b) % a ≡ q % a
mul_mod-mod a b q = mod-mod_of_dvd a q (dvd-mul_right a b)

-- The pattern is a whole number of times in the tile, and the vector behind the tile is not reached.
tile-at :
    (junk pat : Memory) (pat_len b v q : ℕ)
    → 0 < pat_len
    → 0 < b
    → let key_tilelen = pat_len * b in
      let tile = expand_tile junk key_tilelen pat pat_len in
      copy tile key_tilelen tile 0 v (q % key_tilelen) ≡ pat (q % pat_len)
tile-at junk pat pat_len b v q pos bpos =
    let area : 0 < pat_len * b = grind (arith, pos, bpos) in
    let below : q % (pat_len * b) < pat_len * b = mod-lt q area in
    let inside : leb (pat_len * b) (q % (pat_len * b)) ≡ false = ground arith in
    rw inside (
      expand_tile-Repeats junk pat pat_len b pos bpos (q % (pat_len * b)) below
      ∙ ap pat (mul_mod-mod pat_len b q))

-- A pattern that is neither empty nor so long that its tile passes 512 bytes: byte `q` below `len` is
-- combined with byte `q % pat_len` of the pattern, and the others are as they were.
pub xor_with_pattern_repeats :
    (p : Platform) (junk m : Memory) (len : ℕ) (pat : Memory) (pat_len : ℕ)
    → 0 < vec_width p
    → 0 < pat_len
    → cook_lcm pat_len (vec_width p) ≤ 512
    → (m' : Memory) × (xor_with_pattern p junk m len pat pat_len ≡ some m')
      × ((q : ℕ) → m' q ≡ repeated m len pat pat_len q)
unfolding xor_with_pattern
xor_with_pattern_repeats p junk m len pat pat_len wide pos small = elim (Bool-cases (len == 0)) [
  | inl nothing ↦ (m, ground arith, λ q. let off : ltb q len ≡ false = ground arith in rw off refl)
  | inr more ↦ (
    xor_tile p m len key_tile lcm,
    rw (rest pos more, le→leb _ _ small) refl,
    λ q. combined key_tile q ∙ rw (filled q) refl,
  )
]
  where
    lcm : ℕ
    lcm = cook_lcm pat_len (vec_width p)

    key_tile : Memory
    key_tile =
        copy (expand_tile junk lcm pat pat_len) lcm (expand_tile junk lcm pat pat_len) 0
          (vec_width p)

    rest : 0 < pat_len → (len == 0) ≡ false → (pat_len == 0 || len == 0) ≡ false
    rest a h = ground arith

    combined : (tile : Memory) (q : ℕ) → xor_tile p m len tile lcm q ≡ repeated m len tile lcm q
    combined =
        let (lpos, _, (y, ey)) = lcm-Times pat_len (vec_width p) pos wide in
        subst (λ l. (tile : Memory) (q : ℕ) → xor_tile p m len tile l q ≡ repeated m len tile l q)
          ey (λ tile q. xor_tile_repeats p y m tile len q wide (grind (arith, ey, lpos)))

    filled :
        (q : ℕ)
        → copy
            (expand_tile junk lcm pat pat_len)
            lcm
            (expand_tile junk lcm pat pat_len)
            0
            (vec_width p)
            (q % lcm)
          ≡ pat (q % pat_len)
    filled =
        let (lpos, (x, ex), _) = lcm-Times pat_len (vec_width p) pos wide in
        subst
          (λ l.
            (q : ℕ)
            → copy (expand_tile junk l pat pat_len) l (expand_tile junk l pat pat_len) 0
                (vec_width p) (q % l)
              ≡ pat (q % pat_len))
          ex (λ q. tile-at junk pat pat_len x (vec_width p) q pos (grind (arith, ex, lpos)))
