-- ===== src/Param/Table.antt =====
-- How rs_from_str fills the table from the pairs `x:y` that it has read.
use udpspeeder.Base.{
  ℕ, zero, suc, ◌+◌, ◌-◌, ◌*◌, ◌/◌, ◌%◌, ◌^◌, List, [], ◌∷◌, Option, none, some, Bool, true, leb,
  ltb, ◌==◌, ◌&&◌, ◌||◌, not, if◌then◌else◌,
}
use udpspeeder.Blob.{max_fec_packet_num}
use udpspeeder.Text.{ℤ}
use udpspeeder.Param.{RsParameter, FecParameter}

-- `x + y > max_fec_packet_num` for an `int` sum, which wraps to a negative number where it passes 2^31 - 1:
-- C leaves that open, and compilers do so.
unfoldable pub is_over : (x y : ℕ) → Bool
is_over x y = let sum = (x + y) % 2 ^ 32 in ltb sum (2 ^ 31) && ltb max_fec_packet_num sum

-- `x < 1 || y < 0 || x + y > max_fec_packet_num`; the numbers are then cut to an `unsigned char`.
unfoldable pub check_pair : ℤ → ℤ → Option RsParameter
unfolding is_over
check_pair (ℤ.pos x) (ℤ.pos y) =
    if ltb x 1 || is_over x y then none else some (record { x = x % 256; y = y % 256 })
check_pair (ℤ.negsuc x) y = none
check_pair (ℤ.pos x) (ℤ.negsuc y) = none

-- The loop over the pairs; `none` is the return of -1, with the table untouched.
unfoldable pub check_pairs : List (ℤ × ℤ) → Option (List RsParameter)
check_pairs [] = some []
check_pairs ((x, y) ∷ ps) = elim (check_pair x y) [
  | none ↦ none
  | some p ↦ elim (check_pairs ps) [ none ↦ none | some rest ↦ some (p ∷ rest) ]
]

-- Each `x` is above the one before it.
unfoldable pub ascending : RsParameter → List RsParameter → Bool
ascending p [] = true
ascending p (q ∷ qs) = not (leb q.x p.x) && ascending q qs

abbrev pub set_par : (ℕ → RsParameter) → ℕ → ℕ → ℕ → RsParameter
set_par t x y i = if i == x - 1 then record { x = x; y = y } else t i

-- `int in_y = pre_y + (now_y - pre_y) * (in_x - pre_x) / distance + 0.9999;`, cut to an integer. The
-- quotient is a fraction over `distance`; all terms are scaled by `10000 * distance`, and the `double`
-- is taken as exact: its error is far below the gap of 1 / 254 - 0.0001 at which the cut could change.
unfoldable pub between : RsParameter → RsParameter → ℕ → ℕ
between pre now j =
    let distance = now.x - pre.x in
    (pre.y * (now.x - j) * 10000 + now.y * (j - pre.x) * 10000 + 9999 * distance)
    / (10000 * distance)

-- `if (in_x + in_y > max_fec_packet_num) in_y = max_fec_packet_num - in_x;`
unfoldable pub cap_total : ℕ → ℕ → ℕ
cap_total j in_y = if ltb max_fec_packet_num (j + in_y) then max_fec_packet_num - j else in_y

-- `for (j = pre_x + 1; j <= now_x - 1; j++)`, with `left` rounds to go.
unfoldable pub fill_between :
    RsParameter → RsParameter → (j left : ℕ) → (ℕ → RsParameter) → ℕ → RsParameter
fill_between pre now j zero t = t
fill_between pre now j (suc left) t =
    fill_between pre now (j + 1) left (set_par t j (cap_total j (between pre now j)))

-- `for (i = 1; i <= x; i++)` of the first pair.
unfoldable pub fill_first : (y i left : ℕ) → (ℕ → RsParameter) → ℕ → RsParameter
fill_first y i zero t = t
fill_first y i (suc left) t = fill_first y (i + 1) left (set_par t i y)

unfoldable pub fill_rest : RsParameter → List RsParameter → (ℕ → RsParameter) → ℕ → RsParameter
fill_rest pre [] t = t
fill_rest pre (now ∷ rest) t =
    fill_rest now rest
      (fill_between pre now (pre.x + 1) (now.x - 1 - pre.x) (set_par t now.x now.y))

abbrev pub last_x : RsParameter → List RsParameter → ℕ
last_x p [] = p.x
last_x p (q ∷ qs) = last_x q qs

unfoldable pub fill : FecParameter → List RsParameter → Option FecParameter
fill par [] = none
fill par (p ∷ ps) =
    if ascending p ps
    then some (record par {
      rs_par = fill_rest p ps (fill_first p.y 1 p.x par.rs_par);
      rs_cnt = last_x p ps;
    })
    else none

unfoldable pub rs_from_pairs : FecParameter → List (ℤ × ℤ) → Option FecParameter
unfolding fill
rs_from_pairs par pairs = elim (check_pairs pairs) [ none ↦ none | some ps ↦ fill par ps ]
