-- ===== src/Tests/Codecs.antt =====
-- A code that meets what rs.h promises for two data shards and one redundant: the third shard is the
-- sum of the two, number by number.
use udpspeeder.Base.{
  ℕ, zero, suc, ◌+◌, ◌-◌, ◌≤◌, ◌≡◌, refl, ap, List, [], ◌∷◌, map, Option, none, some, length,
  get_or, ◌==◌, ◌&&◌, if◌then◌else◌, arith, All,
}
use udpspeeder.Rs.{Codec, Corrects, shard, Rising}

abbrev pub sum : List ℕ → List ℕ → List ℕ
sum [] ys = []
sum (x ∷ xs) [] = []
sum (x ∷ xs) (y ∷ ys) = (x + y) ∷ sum xs ys

abbrev pub difference : List ℕ → List ℕ → List ℕ
difference [] ys = []
difference (x ∷ xs) [] = []
difference (x ∷ xs) (y ∷ ys) = (x - y) ∷ difference xs ys

abbrev pub sum_decode : List (List ℕ) → List ℕ → Option (List (List ℕ))
sum_decode [] is = none
sum_decode (p ∷ []) is = none
sum_decode (p ∷ q ∷ ps) is =
    if get_or is 0 0 == 0 && get_or is 1 0 == 1
    then some (p ∷ q ∷ [])
    else if get_or is 0 0 == 0
    then some (p ∷ difference q p ∷ [])
    else some (difference q p ∷ p ∷ [])

abbrev pub sum_codec : Codec
sum_codec = record {
  fec_encode = λ k n src index sz. sum (get_or src 0 []) (get_or src 1 []);
  fec_decode = λ k n pkt index sz. sum_decode pkt index;
}

length-sum : (xs ys : List ℕ) (n : ℕ) → length xs ≡ n → length ys ≡ n → length (sum xs ys) ≡ n
length-sum [] ys n h k = h
length-sum (x ∷ xs) [] n h k = absurd (omega arith)
length-sum (x ∷ xs) (y ∷ ys) zero h k = absurd (omega arith)
length-sum (x ∷ xs) (y ∷ ys) (suc n) h k = ap suc (length-sum xs ys n (omega arith) (omega arith))

difference_left : (xs ys : List ℕ) → length xs ≡ length ys → difference (sum xs ys) xs ≡ ys
difference_left [] [] h = refl
difference_left [] (y ∷ ys) h = absurd (omega arith)
difference_left (x ∷ xs) [] h = absurd (omega arith)
difference_left (x ∷ xs) (y ∷ ys) h =
    let e : x + y - x ≡ y = omega arith in rw (e, difference_left xs ys (omega arith)) refl

difference_right : (xs ys : List ℕ) → length xs ≡ length ys → difference (sum xs ys) ys ≡ xs
difference_right [] [] h = refl
difference_right [] (y ∷ ys) h = absurd (omega arith)
difference_right (x ∷ xs) [] h = absurd (omega arith)
difference_right (x ∷ xs) (y ∷ ys) h =
    let e : x + y - y ≡ x = omega arith in rw (e, difference_right xs ys (omega arith)) refl

sum_recovers :
    (a b : List ℕ) (is : List ℕ) (size : ℕ)
    → length a ≡ length b
    → Rising 0 3 is
    → 2 ≤ length is
    → sum_decode (map (shard sum_codec 2 3 (a ∷ b ∷ []) size) is) is ≡ some (a ∷ b ∷ [])
sum_recovers a b [] size h r two = absurd (omega arith)
sum_recovers a b (i ∷ []) size h r two = absurd (omega arith)
sum_recovers a b (zero ∷ zero ∷ is) size h r two = absurd (omega (arith, r.2.0))
sum_recovers a b (zero ∷ suc zero ∷ is) size h r two = refl
sum_recovers a b (zero ∷ suc (suc zero) ∷ is) size h r two = rw (difference_left a b h) refl
sum_recovers a b (zero ∷ suc (suc (suc j)) ∷ is) size h r two = absurd (omega (arith, r.2.1))
sum_recovers a b (suc zero ∷ zero ∷ is) size h r two = absurd (omega (arith, r.2.0))
sum_recovers a b (suc zero ∷ suc zero ∷ is) size h r two = absurd (omega (arith, r.2.0))
sum_recovers a b (suc zero ∷ suc (suc zero) ∷ is) size h r two = rw (difference_right a b h) refl
sum_recovers a b (suc zero ∷ suc (suc (suc j)) ∷ is) size h r two = absurd (omega (arith, r.2.1))
sum_recovers a b (suc (suc i) ∷ j ∷ is) size h r two = absurd (omega (arith, r.2.0, r.2.1))

sum_recovers_any :
    (src : List (List ℕ)) (is : List ℕ) (size : ℕ)
    → length src ≡ 2
    → All (λ s. length s ≡ size) src
    → Rising 0 3 is
    → 2 ≤ length is
    → sum_decode (map (shard sum_codec 2 3 src size) is) is ≡ some src
sum_recovers_any [] is size two same r enough = absurd (omega arith)
sum_recovers_any (a ∷ []) is size two same r enough = absurd (omega arith)
sum_recovers_any (a ∷ b ∷ []) is size two same r enough =
    sum_recovers a b is size (omega (arith, same.0, same.1.0)) r enough
sum_recovers_any (a ∷ b ∷ c ∷ src) is size two same r enough = absurd (omega arith)

length-sum_any :
    (src : List (List ℕ)) (size : ℕ)
    → length src ≡ 2
    → All (λ s. length s ≡ size) src
    → length (sum (get_or src 0 []) (get_or src 1 [])) ≡ size
length-sum_any [] size two same = absurd (omega arith)
length-sum_any (a ∷ []) size two same = absurd (omega arith)
length-sum_any (a ∷ b ∷ src) size two same = length-sum a b size same.0 same.1.0

pub sum_codec-Corrects : Corrects sum_codec 2 3
sum_codec-Corrects = record {
  encoded_length = λ src i size. length-sum_any src size;
  recovers = sum_recovers_any;
}
