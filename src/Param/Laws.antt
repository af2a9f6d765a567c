-- ===== src/Param/Laws.antt =====
-- The table that rs_from_str builds is one that the encoder's assertions accept.
use udpspeeder.Base.{
  ℕ, zero, suc, ◌+◌, ◌-◌, ◌*◌, ◌/◌, ◌^◌, ◌≤◌, ◌<◌, ◌≡◌, ◌≢◌, refl, sym, ap, List, [], ◌∷◌, some,
  true, ltb, ◌==◌, if◌then◌else◌, arith, All, Bool-cases, le→leb, inl, inr,
}
use native.Mathlib.Nat.{div-mul-le_self, lt-div-mul-add}
use udpspeeder.Param.{RsParameter, FecParameter, clone}
use udpspeeder.Text.{ℤ}
use udpspeeder.Param.Table.{
  is_over, check_pair, check_pairs, ascending, set_par, between, cap_total, fill_between,
  fill_first, fill_rest, last_x, fill, rs_from_pairs,
}

-- Row `i` is for `i + 1` data shards, and asks for at most `max` shards in all.
abbrev pub IsRow : ℕ → (ℕ → RsParameter) → ℕ → Type 0
IsRow max t i = ((t i).x ≡ i + 1) × ((t i).x + (t i).y ≤ max)

pub record IsTable (max : ℕ) (p : FecParameter) : Type 0 where
  pub not_empty : 1 ≤ p.rs_cnt
  pub rows : (i : ℕ) → i < p.rs_cnt → IsRow max p.rs_par i

-- The rows below `n` are good.
abbrev Good : ℕ → (ℕ → RsParameter) → Type 0
Good n t = (i : ℕ) → i < n → IsRow 255 t i

abbrev pub IsPair : RsParameter → Type 0
IsPair p = (1 ≤ p.x) × (p.x + p.y ≤ 255)

-- The sum of a pair is an `int`.
abbrev pub FitsInt : ℤ × ℤ → Type 0
FitsInt (ℤ.pos x, ℤ.pos y) = x + y < 2 ^ 31
FitsInt (ℤ.pos x, ℤ.negsuc y) = Unit {0}
FitsInt (ℤ.negsuc x, y) = Unit {0}

-- An accepted pair is the one that was read.
pub check_pair-IsPair :
    (x y : ℤ) (p : RsParameter)
    → FitsInt (x, y)
    → check_pair x y ≡ some p
    → IsPair p × (x ≡ ℤ.pos p.x) × (y ≡ ℤ.pos p.y)
unfolding check_pair is_over
check_pair-IsPair (ℤ.pos x) (ℤ.pos y) p fits h =
    let (low, high, e, f) = accepted in
    ((omega (arith, low, e), omega (arith, high, e, f)), ap ℤ.pos (sym e), ap ℤ.pos (sym f))
  where
    accepted : (1 ≤ x) × (x + y ≤ 255) × (p.x ≡ x) × (p.y ≡ y)
    accepted = ground (arith, h, fits)
check_pair-IsPair (ℤ.pos x) (ℤ.negsuc y) p fits h = cc
check_pair-IsPair (ℤ.negsuc x) y p fits h = cc

check_pairs_cons :
    (x y : ℤ) (ps : List (ℤ × ℤ)) (qs : List RsParameter)
    → check_pairs ((x, y) ∷ ps) ≡ some qs
    → (p : RsParameter) × (rest : List RsParameter) × (check_pair x y ≡ some p)
      × (check_pairs ps ≡ some rest)
      × (qs ≡ p ∷ rest)
unfolding check_pairs
check_pairs_cons x y ps qs h = ground arith

-- Pairs of numbers as integers.
abbrev pub ints : List RsParameter → List (ℤ × ℤ)
ints [] = []
ints (p ∷ ps) = (ℤ.pos p.x, ℤ.pos p.y) ∷ ints ps

pub check_pairs-IsPair :
    (ps : List (ℤ × ℤ)) (qs : List RsParameter)
    → All FitsInt ps
    → check_pairs ps ≡ some qs
    → All IsPair qs × (ps ≡ ints qs)
unfolding check_pairs
check_pairs-IsPair [] [] a h = (tt, refl)
check_pairs-IsPair [] (q ∷ qs) a h = cc
check_pairs-IsPair ((x, y) ∷ ps) qs a h =
    let (p, rest, e, f, g) = check_pairs_cons x y ps qs h in
    let (good, ex, ey) = check_pair-IsPair x y p a.0 e in
    let (others, same) = check_pairs-IsPair ps rest a.1 f in
    rw g ((good, others), cc (ex, ey, same))

set_par-Good :
    (n x y : ℕ) (t : ℕ → RsParameter)
    → Good n t
    → x ≡ n + 1
    → x + y ≤ 255
    → Good (n + 1) (set_par t x y)
set_par-Good n x y t g e h i b = ground (arith, g i)

fill_first-Good :
    (y i left : ℕ) (t : ℕ → RsParameter)
    → Good (i - 1) t
    → 1 ≤ i
    → i - 1 + left + y ≤ 255
    → Good (i - 1 + left) (fill_first y i left t)
unfolding fill_first
fill_first-Good y i zero t g pos h = λ j b. g j (omega arith)
fill_first-Good y i (suc left) t g pos h = λ j b.
    fill_first-Good y (i + 1) left (set_par t i y)
      (λ l c. set_par-Good (i - 1) i y t g (omega arith) (omega arith) l (omega arith))
      (omega arith) (omega arith) j (omega arith)

-- The rows below `n` are good, and so is the row for `x`.
fill_between-Good :
    (pre now : RsParameter) (j left : ℕ) (t : ℕ → RsParameter)
    → Good (j - 1) t
    → 1 ≤ j
    → j - 1 + left + 1 ≡ now.x
    → now.x ≤ 255
    → IsRow 255 t (now.x - 1)
    → Good now.x (fill_between pre now j left t)
unfolding fill_between cap_total
fill_between-Good pre now j zero t g pos e top row = λ l b. elim (Bool-cases (l == now.x - 1)) [
  | inl last ↦ let e' : l ≡ now.x - 1 = ground arith in rw e' row
  | inr other ↦ g l (ground arith)
]
fill_between-Good pre now j (suc left) t g pos e top row =
    fill_between-Good pre now (j + 1) left (set_par t j (cap_total j (between pre now j)))
      (λ l c.
        set_par-Good (j - 1) j (cap_total j (between pre now j)) t g (omega arith) (ground arith) l
          (omega arith))
      (omega arith) (omega arith) top (ground (arith, row))

fill_rest-Good :
    (pre : RsParameter) (rest : List RsParameter) (t : ℕ → RsParameter)
    → IsPair pre
    → All IsPair rest
    → ascending pre rest ≡ true
    → Good pre.x t
    → Good (last_x pre rest) (fill_rest pre rest t)
unfolding fill_rest ascending
fill_rest-Good pre [] t p a asc g = g
fill_rest-Good pre (now ∷ rest) t p a asc g =
    fill_rest-Good now rest
      (fill_between pre now (pre.x + 1) (now.x - 1 - pre.x) (set_par t now.x now.y)) a.0 a.1
      (ground arith)
      (fill_between-Good pre now (pre.x + 1) (now.x - 1 - pre.x) (set_par t now.x now.y)
        (λ i b. let c : i ≢ now.x - 1 = omega (arith, above) in ground (arith, g i)) (omega arith)
        (omega (arith, above)) (omega (arith, a.0)) (ground (arith, a.0)))
  where
    above : pre.x < now.x
    above = ground arith

pub fill_inv :
    (par par' : FecParameter) (p : RsParameter) (ps : List RsParameter)
    → fill par (p ∷ ps) ≡ some par'
    → (ascending p ps ≡ true)
      × (par'.rs_par ≡ fill_rest p ps (fill_first p.y 1 p.x par.rs_par))
      × (par'.rs_cnt ≡ last_x p ps)
unfolding fill
fill_inv par par' p ps h = ground arith

last_x-pos : (p : RsParameter) (ps : List RsParameter) → IsPair p → All IsPair ps → 1 ≤ last_x p ps
last_x-pos p [] h a = h.0
last_x-pos p (q ∷ qs) h a = last_x-pos q qs a.0 a.1

pub fill-IsTable :
    (par par' : FecParameter) (ps : List RsParameter)
    → All IsPair ps
    → fill par ps ≡ some par'
    → IsTable 255 par'
fill-IsTable par par' [] a h = unfold fill in cc
fill-IsTable par par' (p ∷ ps) a h =
    let (asc, rows, cnt) = fill_inv par par' p ps h in
    record {
      not_empty = rw cnt (last_x-pos p ps a.0 a.1);
      rows =
          rw (rows, cnt)
            (fill_rest-Good p ps (fill_first p.y 1 p.x par.rs_par) a.0 a.1 asc (λ i b.
              fill_first-Good p.y 1 p.x par.rs_par (λ j c. elim c [ ]) (omega arith)
                (omega (arith, a.0)) i (omega arith)));
    }

pub rs_from_pairs_inv :
    (par par' : FecParameter) (pairs : List (ℤ × ℤ))
    → rs_from_pairs par pairs ≡ some par'
    → (ps : List RsParameter) × (check_pairs pairs ≡ some ps) × (fill par ps ≡ some par')
unfolding rs_from_pairs
rs_from_pairs_inv par par' pairs h = ground arith

-- Of pairs whose sums are an `int`, what rs_from_str accepts has a row for every number of data shards up to
-- the last pair's, in order, and no row asks for more than 255 shards.
pub rs_from_pairs-IsTable :
    (par par' : FecParameter) (pairs : List (ℤ × ℤ))
    → All FitsInt pairs
    → rs_from_pairs par pairs ≡ some par'
    → IsTable 255 par'
rs_from_pairs-IsTable par par' pairs a h =
    let (ps, read, filled) = rs_from_pairs_inv par par' pairs h in
    fill-IsTable par par' ps (check_pairs-IsPair pairs ps a read).0 filled

-- Of parameters with a good table `clone` makes a copy with a good table, whatever stood there
-- before, and with the same version and mode.
pub clone-IsTable :
    (p other : FecParameter) (max : ℕ)
    → IsTable max other
    → (p' : FecParameter) × (clone p other ≡ some p')
      × IsTable max p'
      × (p'.version ≡ other.version)
      × (p'.mode ≡ other.mode)
unfolding clone
clone-IsTable p other max h = (
  record other { rs_par = λ i. if ltb i other.rs_cnt then other.rs_par i else p.rs_par i },
  rw (le→leb _ _ h.not_empty) refl,
  record { not_empty = h.not_empty; rows = λ i b. ground (arith, h.rows i) },
  refl,
  refl,
)

-- The number between two pairs is on the straight line from one to the other, rounded up.
pub between_rounds_up :
    (pre now : RsParameter) (j : ℕ)
    → pre.x < j
    → j < now.x
    → now.x ≤ 255
    → let d = now.x - pre.x in
      let line = pre.y * (now.x - j) + now.y * (j - pre.x) in
      (line ≤ between pre now j * d) × (between pre now j * d < line + d)
unfolding between
between_rounds_up pre now j lo hi top = (omega (arith, below, above), omega (arith, below, above))
  where
    d : ℕ
    d = now.x - pre.x

    n : ℕ
    n = pre.y * (now.x - j) * 10000 + now.y * (j - pre.x) * 10000 + 9999 * d

    below : n / (10000 * d) * (10000 * d) ≤ n
    below = div-mul-le_self n (10000 * d)

    above : n < n / (10000 * d) * (10000 * d) + 10000 * d
    above = lt-div-mul-add (omega arith)
