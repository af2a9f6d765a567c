-- ===== src/Param/Str.antt =====
-- rs_from_str and rs_to_str of fec_parameter_t (fec_manager.h): the table as a text, `x:y` after `x:y`.
use udpspeeder.Base.{
  ℕ, zero, suc, List, [], ◌∷◌, ◌++◌, Option, some, leb, ◌==◌, if◌then◌else◌, assert, ◌>>=◌, ◌>>◌,
}
use udpspeeder.Text.{ℤ, scan_int, expect, string_to_vec, print_int}
use udpspeeder.Param.{RsParameter, FecParameter}
use udpspeeder.Param.Table.{rs_from_pairs}

-- `sscanf(s, "%d:%d", &x, &y) == 2`
unfoldable pub scan_pair : List ℕ → Option (ℤ × ℤ)
scan_pair s = do (x, r) ← scan_int s; r' ← expect b':' r; (y, rest) ← scan_int r'; some (x, y)

unfoldable pub scan_pairs : List (List ℕ) → Option (List (ℤ × ℤ))
scan_pairs [] = some []
scan_pairs (t ∷ ts) = scan_pair t >>= λ p. scan_pairs ts >>= λ ps. some (p ∷ ps)

-- `none` is the return of -1, with the table untouched.
unfoldable pub rs_from_str : FecParameter → List ℕ → Option FecParameter
rs_from_str par s = scan_pairs (string_to_vec s b',') >>= λ ps. rs_from_pairs par ps

unfoldable pub pair_text : RsParameter → List ℕ
pair_text p = print_int p.x ++ b':' ∷ print_int p.y

-- The rows from `i` on, `left` of them.
unfoldable pub rows_text : (ℕ → RsParameter) → (i left : ℕ) → List ℕ
rows_text t i zero = []
rows_text t i (suc left) =
    let rest = pair_text (t i) ++ rows_text t (suc i) left in if i == 0 then rest else b',' ∷ rest

unfoldable pub rs_to_str : FecParameter → Option (List ℕ)
rs_to_str p = do assert (leb 1 p.rs_cnt); some (rows_text p.rs_par 0 p.rs_cnt)
