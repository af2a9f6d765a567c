-- ===== src/Param/Printed.antt =====
-- The table that rs_to_str prints is the table that rs_from_str reads.
use mathlib.Core.List.{append_assoc, append-nil}
use udpspeeder.Base.{
  ℕ, zero, suc, ◌+◌, ◌-◌, ◌≤◌, ◌<◌, ◌≡◌, refl, ◌∙◌, sym, ap, true, false, List, [], ◌∷◌, ◌++◌, some,
  ◌==◌, ◌>>=◌, All, All-append, arith, Bool-cases, inl, inr, le→leb,
}
use udpspeeder.Text.{ℤ, scan_int, split, with_token, string_to_vec, print_int}
use udpspeeder.Text.Decimal.{scan_int-print_int, digits-All}
use udpspeeder.Param.{RsParameter, FecParameter}
use udpspeeder.Param.Table.{
  is_over, check_pair, check_pairs, ascending, set_par, fill_between, fill_first, fill_rest, last_x,
  fill, rs_from_pairs,
}
use udpspeeder.Param.Laws.{IsRow, IsTable, ints}
use udpspeeder.Param.Str.{scan_pair, scan_pairs, rs_from_str, pair_text, rows_text, rs_to_str}

print_int-All : (n : ℕ) → All (λ c. b'0' ≤ c) (print_int n)
unfolding print_int
print_int-All n = digits-All (suc n) n

pair_text-All : (p : RsParameter) → All (λ c. b'0' ≤ c) (pair_text p)
unfolding pair_text
pair_text-All p =
    All-append (λ c. b'0' ≤ c) (print_int p.x) (b':' ∷ print_int p.y) (print_int-All p.x)
      (omega arith, print_int-All p.y)

scan_pair-pair_text : (p : RsParameter) → scan_pair (pair_text p) ≡ some (ℤ.pos p.x, ℤ.pos p.y)
unfolding scan_pair pair_text
scan_pair-pair_text p =
    let first = scan_int-print_int p.x (b':' ∷ print_int p.y) refl in
    let second : scan_int (print_int p.y) ≡ some (ℤ.pos p.y, []) =
      ap scan_int (sym (append-nil (print_int p.y))) ∙ scan_int-print_int p.y [] tt in
    rw (first, ◌>>=◌, second) refl

-- A piece without a comma is read on to what was read before.
split-piece :
    (cur piece rest : List ℕ)
    → All (λ c. b'0' ≤ c) piece
    → split b',' cur (piece ++ rest) ≡ split b',' (cur ++ piece) rest
unfolding split
split-piece cur [] rest a = ap (λ s. split b',' s rest) (sym (append-nil cur))
split-piece cur (c ∷ piece) rest a =
    let other : (c == b',') ≡ false = ground (arith, a.0) in
    rw other (
      split-piece (cur ++ c ∷ []) piece rest a.1
      ∙ ap (λ s. split b',' s rest) (append_assoc cur (c ∷ []) piece))

abbrev table_rows : (ℕ → RsParameter) → (i left : ℕ) → List RsParameter
table_rows t i zero = []
table_rows t i (suc left) = t i ∷ table_rows t (suc i) left

abbrev texts : List RsParameter → List (List ℕ)
texts [] = []
texts (p ∷ ps) = pair_text p ∷ texts ps

with_token-append :
    (xs ys : List ℕ) (c : ℕ) (ts : List (List ℕ))
    → with_token (xs ++ c ∷ ys) ts ≡ (xs ++ c ∷ ys) ∷ ts
with_token-append [] ys c ts = refl
with_token-append (x ∷ xs) ys c ts = refl

with_token-pair_text :
    (p : RsParameter) (ts : List (List ℕ)) → with_token (pair_text p) ts ≡ pair_text p ∷ ts
unfolding pair_text
with_token-pair_text p ts = with_token-append (print_int p.x) (print_int p.y) b':' ts

-- Behind a row.
split-rows_text :
    (t : ℕ → RsParameter) (i left : ℕ) (cur : List ℕ)
    → split b',' cur (rows_text t (suc i) left) ≡ with_token cur (texts (table_rows t (suc i) left))
unfolding split rows_text
split-rows_text t i zero cur = refl
split-rows_text t i (suc left) cur =
    let not_first : (suc i == 0) ≡ false = ground arith in
    rw not_first (
      ap (with_token cur) (
        split-piece [] (pair_text (t (suc i))) (rows_text t (suc (suc i)) left)
          (pair_text-All (t (suc i)))
        ∙ split-rows_text t (suc i) left (pair_text (t (suc i)))
        ∙ with_token-pair_text (t (suc i)) (texts (table_rows t (suc (suc i)) left))))

scan_pairs-texts : (ps : List RsParameter) → scan_pairs (texts ps) ≡ some (ints ps)
unfolding scan_pairs
scan_pairs-texts [] = refl
scan_pairs-texts (p ∷ ps) = rw (scan_pair-pair_text p, ◌>>=◌, scan_pairs-texts ps) refl

check_pair-good :
    (p : RsParameter) → 1 ≤ p.x → p.x + p.y ≤ 255 → check_pair (ℤ.pos p.x) (ℤ.pos p.y) ≡ some p
unfolding check_pair is_over
check_pair-good p low high = ground arith

-- Rows of a good table pass the checks.
check_pairs-table_rows :
    (t : ℕ → RsParameter) (i left : ℕ)
    → ((j : ℕ) → j < i + left → IsRow 255 t j)
    → check_pairs (ints (table_rows t i left)) ≡ some (table_rows t i left)
unfolding check_pairs
check_pairs-table_rows t i zero good = refl
check_pairs-table_rows t i (suc left) good =
    let (at, fits) = good i (omega arith) in
    let here : check_pair (ℤ.pos (t i).x) (ℤ.pos (t i).y) ≡ some (t i) =
      check_pair-good (t i) (omega (arith, at)) fits in
    rw (check_pairs, here, check_pairs-table_rows t (suc i) left (λ j h. good j (omega arith))) refl

ascending-table_rows :
    (t : ℕ → RsParameter) (i left : ℕ)
    → ((j : ℕ) → j ≤ i + left → IsRow 255 t j)
    → ascending (t i) (table_rows t (suc i) left) ≡ true
unfolding ascending
ascending-table_rows t i zero good = refl
ascending-table_rows t i (suc left) good =
    let here = (good i (omega arith)).0 in
    let next = (good (suc i) (omega arith)).0 in
    ground (arith, here, next, ascending-table_rows t (suc i) left (λ j h. good j (omega arith)))

last_x-table_rows :
    (t : ℕ → RsParameter) (i left : ℕ)
    → ((j : ℕ) → j ≤ i + left → IsRow 255 t j)
    → last_x (t i) (table_rows t (suc i) left) ≡ i + left + 1
last_x-table_rows t i zero good = omega (arith, (good i (omega arith)).0)
last_x-table_rows t i (suc left) good =
    omega (arith, last_x-table_rows t (suc i) left (λ j h. good j (omega arith)))

set_par-row :
    (t u : ℕ → RsParameter) (i k : ℕ)
    → (t (suc i)).x ≡ suc i + 1
    → (k ≤ i → u k ≡ t k)
    → k ≤ suc i
    → set_par u (t (suc i)).x (t (suc i)).y k ≡ t k
set_par-row t u i k next same b = elim (Bool-cases (k == suc i)) [
  | inl hit ↦
      let here : k ≡ suc i = ground (arith, hit) in
      let there : (suc i == (t (suc i)).x - 1) ≡ true = ground (arith, next) in
      rw here (rw there refl)
  | inr miss ↦
      let off : (k == (t (suc i)).x - 1) ≡ false = ground (arith, next, miss) in
      rw off (same (ground (arith, miss, b)))
]

-- Rows that follow one another leave no gap to fill.
fill_rest-table_rows :
    (t u : ℕ → RsParameter) (i left : ℕ)
    → ((j : ℕ) → j ≤ i + left → IsRow 255 t j)
    → ((j : ℕ) → j ≤ i → u j ≡ t j)
    → (j : ℕ) → j ≤ i + left
    → fill_rest (t i) (table_rows t (suc i) left) u j ≡ t j
unfolding fill_rest fill_between
fill_rest-table_rows t u i zero good same j h = same j (omega (arith, h))
fill_rest-table_rows t u i (suc left) good same j h =
    let here = (good i (omega arith)).0 in
    let next = (good (suc i) (omega arith)).0 in
    let no_gap : (t (suc i)).x - 1 - (t i).x ≡ 0 = omega (arith, here, next) in
    let set : (k : ℕ) → k ≤ suc i → set_par u (t (suc i)).x (t (suc i)).y k ≡ t k =
      λ k b. set_par-row t u i k next (same k) b in
    rw (fill_rest, no_gap)
      (fill_rest-table_rows t (set_par u (t (suc i)).x (t (suc i)).y) (suc i) left
        (λ k b. good k (omega (arith, b))) set j (omega (arith, h)))

fill_first-row :
    (t u : ℕ → RsParameter)
    → (t 0).x ≡ 0 + 1
    → (j : ℕ) → j ≤ 0
    → fill_first (t 0).y 1 (t 0).x u j ≡ t j
unfolding fill_first
fill_first-row t u one j b =
    let here : j ≡ 0 = omega (arith, b) in rw here (rw one (ground (arith, one)))

string_to_vec-rows_text :
    (t : ℕ → RsParameter) (n : ℕ)
    → string_to_vec (rows_text t 0 (suc n)) b',' ≡ texts (table_rows t 0 (suc n))
unfolding string_to_vec rows_text
string_to_vec-rows_text t n =
    split-piece [] (pair_text (t 0)) (rows_text t 1 n) (pair_text-All (t 0))
    ∙ split-rows_text t 0 n (pair_text (t 0))
    ∙ with_token-pair_text (t 0) (texts (table_rows t 1 n))

-- The text of a good table is read back: whatever the parameters were, they get the same rows and as many,
-- and their other fields stay.
pub rs_from_str-rs_to_str :
    (p par : FecParameter)
    → IsTable 255 p
    → (s : List ℕ) × (par' : FecParameter) × (rs_to_str p ≡ some s)
      × (rs_from_str par s ≡ some par')
      × (par'.rs_cnt ≡ p.rs_cnt)
      × ((i : ℕ) → i < p.rs_cnt → par'.rs_par i ≡ p.rs_par i)
      × (par' ≡ record par { rs_cnt = par'.rs_cnt; rs_par = par'.rs_par })
unfolding rs_to_str rs_from_str rs_from_pairs fill
rs_from_str-rs_to_str p par h =
    let n = p.rs_cnt - 1 in
    let t = p.rs_par in
    let cnt : p.rs_cnt ≡ suc n = omega (arith, h.not_empty) in
    let good : (j : ℕ) → j ≤ 0 + n → IsRow 255 t j = λ j b. h.rows j (omega (arith, cnt, b)) in
    let tokens : string_to_vec (rows_text t 0 p.rs_cnt) b',' ≡ texts (table_rows t 0 (suc n)) =
      ap (λ (k : ℕ). string_to_vec (rows_text t 0 k) b',') cnt ∙ string_to_vec-rows_text t n in
    let read = check_pairs-table_rows t 0 (suc n) (λ j b. good j (omega (arith, b))) in
    (
      rows_text t 0 p.rs_cnt,
      record par {
        rs_par = fill_rest (t 0) (table_rows t 1 n) (fill_first (t 0).y 1 (t 0).x par.rs_par);
        rs_cnt = last_x (t 0) (table_rows t 1 n);
      },
      rw (le→leb 1 p.rs_cnt h.not_empty) refl,
      rw
          (
            rs_from_str,
            tokens,
            scan_pairs-texts (table_rows t 0 (suc n)),
            ◌>>=◌,
            rs_from_pairs,
            read,
            fill,
            ascending-table_rows t 0 n good,
          )
          refl,
      omega (arith, cnt, last_x-table_rows t 0 n good),
      λ i b.
          fill_rest-table_rows t (fill_first (t 0).y 1 (t 0).x par.rs_par) 0 n good
            (fill_first-row t par.rs_par (good 0 (omega arith)).0) i (omega (arith, cnt, b)),
      refl,
    )
