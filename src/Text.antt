-- ===== src/Text.antt =====
-- Texts as lists of bytes without the 0 at their end, and what the source uses of the C library on them:
-- sscanf with %d and %s, strtok with one separator, snprintf with %d, strncmp. An `int` that sscanf reads is
-- not bounded here; outside of the range of `int` C gives no meaning to the call.
pub mod Decimal
use udpspeeder.Base.{
  ℕ, zero, suc, ◌+◌, ◌-◌, ◌*◌, ◌/◌, ◌%◌, List, [], ◌∷◌, ◌++◌, Option, none, some, Bool, true, false,
  ltb, leb, ◌==◌, ◌&&◌, ◌||◌, if◌then◌else◌, ◌>>=◌,
}

-- An `int`; `negsuc n` is -(n + 1).
pub data ℤ : Type 0 where
  pos negsuc : ℕ → ℤ

abbrev pub is_space : ℕ → Bool
is_space c = c == b' ' || (leb 9 c && leb c 13)

abbrev pub is_digit : ℕ → Bool
is_digit c = leb b'0' c && leb c b'9'

unfoldable pub skip_space : List ℕ → List ℕ
skip_space [] = []
skip_space (c ∷ s) = let rest = skip_space s in if is_space c then rest else c ∷ s

unfoldable pub scan_digits : ℕ → List ℕ → ℕ × List ℕ
scan_digits n [] = (n, [])
scan_digits n (c ∷ s) =
    let more = scan_digits (n * 10 + (c - b'0')) s in if is_digit c then more else (n, c ∷ s)

unfoldable pub scan_nat : List ℕ → Option (ℕ × List ℕ)
scan_nat [] = none
scan_nat (c ∷ s) = if is_digit c then some (scan_digits (c - b'0') s) else none

abbrev pub negated : ℕ → ℤ
negated zero = ℤ.pos zero
negated (suc n) = ℤ.negsuc n

-- The sign, and what it makes of the number behind it.
abbrev pub scan_signed : List ℕ → Option (ℤ × List ℕ)
scan_signed [] = none
scan_signed (c ∷ s) =
    if c == b'-'
    then scan_nat s >>= (λ (n, rest). some (negated n, rest))
    else if c == b'+'
    then scan_nat s >>= (λ (n, rest). some (ℤ.pos n, rest))
    else scan_nat (c ∷ s) >>= (λ (n, rest). some (ℤ.pos n, rest))

-- `%d`: the number and the rest of the text.
unfoldable pub scan_int : List ℕ → Option (ℤ × List ℕ)
unfolding skip_space
scan_int s = scan_signed (skip_space s)

-- A character of the format that is no white space.
abbrev pub expect : ℕ → List ℕ → Option (List ℕ)
expect c [] = none
expect c (d ∷ s) = if d == c then some s else none

-- strncmp(s, word, strlen(word)) == 0, with what stands behind the word.
abbrev pub after : List ℕ → List ℕ → Option (List ℕ)
after [] s = some s
after (c ∷ word) [] = none
after (c ∷ word) (d ∷ s) = let rest = after word s in if d == c then rest else none

-- The characters up to a space.
abbrev pub until_space : List ℕ → List ℕ
until_space [] = []
until_space (c ∷ s) = let rest = until_space s in if is_space c then [] else c ∷ rest

-- `%s` wants one character at least.
abbrev pub scan_word : List ℕ → Option (List ℕ)
scan_word s = elim (until_space (skip_space s)) [ [] ↦ none | c ∷ w ↦ some (c ∷ w) ]

-- The tokens that strtok gives, one after the other; `cur` was read of the present one. An empty token
-- is passed over.
abbrev pub with_token : List ℕ → List (List ℕ) → List (List ℕ)
with_token [] ts = ts
with_token (c ∷ cur) ts = (c ∷ cur) ∷ ts

unfoldable pub split : (sep : ℕ) → (cur : List ℕ) → List ℕ → List (List ℕ)
split sep cur [] = with_token cur []
split sep cur (c ∷ s) =
    let ts = split sep (if c == sep then [] else cur ++ c ∷ []) s in
    if c == sep then with_token cur ts else ts

-- string_to_vec of common.cpp.
unfoldable pub string_to_vec : List ℕ → (sep : ℕ) → List (List ℕ)
unfolding split
string_to_vec s sep = split sep [] s

-- `%d` of snprintf, for a number that is not negative, with `fuel` above the number.
unfoldable pub digits : (fuel : ℕ) → ℕ → List ℕ
digits zero n = []
digits (suc fuel) n =
    let front = digits fuel (n / 10) in
    if ltb n 10 then (b'0' + n) ∷ [] else front ++ (b'0' + n % 10) ∷ []

unfoldable pub print_int : ℕ → List ℕ
unfolding digits
print_int n = digits (suc n) n
