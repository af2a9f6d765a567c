-- ===== src/Base/Xor.antt =====
-- The exclusive or of words: an abelian group, which shifts and cuts respect.
use Prim.Native.Nat.{differ}
use udpspeeder.Base.{ℕ, zero, suc, ◌+◌, ◌*◌, ◌/◌, ◌%◌, ◌≤◌, ◌<◌, ◌≡◌, refl, ◌∙◌, sym, ap, arith}
use udpspeeder.Base.Bits.{
  bit_xor, bit_or, max, bit_xor_halves, bit_or_halves, pow2, pow2-pos, half_mod,
}

differ_digit : (x y : ℕ) → x < 2 → y < 2 → differ x y ≡ (x + y) % 2
differ_digit zero zero h k = refl
differ_digit zero (suc zero) h k = refl
differ_digit (suc zero) zero h k = refl
differ_digit (suc zero) (suc zero) h k = refl
differ_digit zero (suc (suc y)) h k = absurd (omega (arith, k))
differ_digit (suc zero) (suc (suc y)) h k = absurd (omega (arith, k))
differ_digit (suc (suc x)) y h k = absurd (omega (arith, h))

pub bit_xor-low : (a b : ℕ) → bit_xor a b % 2 ≡ (a + b) % 2
bit_xor-low a b =
    omega (arith, bit_xor_halves a b, differ_digit (a % 2) (b % 2) (omega arith) (omega arith))

pub bit_xor-half : (a b : ℕ) → bit_xor a b / 2 ≡ bit_xor (a / 2) (b / 2)
bit_xor-half a b =
    omega (arith, bit_xor_halves a b, differ_digit (a % 2) (b % 2) (omega arith) (omega arith))

by_halves : (a b : ℕ) → a % 2 ≡ b % 2 → a / 2 ≡ b / 2 → a ≡ b
by_halves a b low half = omega (arith, low, half)

comm_below : (n a b : ℕ) → a ≤ n → b ≤ n → bit_xor a b ≡ bit_xor b a
comm_below zero zero zero h k = refl
comm_below zero (suc a) b h k = absurd (omega (arith, h))
comm_below zero zero (suc b) h k = absurd (omega (arith, k))
comm_below (suc n) a b h k =
    by_halves (bit_xor a b) (bit_xor b a) (omega (arith, bit_xor-low a b, bit_xor-low b a)) (
      bit_xor-half a b
      ∙ comm_below n (a / 2) (b / 2) (omega (arith, h)) (omega (arith, k))
      ∙ sym (bit_xor-half b a))

pub bit_xor_comm : (a b : ℕ) → bit_xor a b ≡ bit_xor b a
bit_xor_comm a b = comm_below (a + b) a b (omega arith) (omega arith)

assoc_below :
    (n a b c : ℕ) → a ≤ n → b ≤ n → c ≤ n → bit_xor (bit_xor a b) c ≡ bit_xor a (bit_xor b c)
assoc_below zero zero zero zero h k l = refl
assoc_below zero (suc a) b c h k l = absurd (omega (arith, h))
assoc_below zero zero (suc b) c h k l = absurd (omega (arith, k))
assoc_below zero zero zero (suc c) h k l = absurd (omega (arith, l))
assoc_below (suc n) a b c h k l =
    by_halves (bit_xor (bit_xor a b) c) (bit_xor a (bit_xor b c))
      (omega (
        arith,
        bit_xor-low (bit_xor a b) c,
        bit_xor-low a b,
        bit_xor-low a (bit_xor b c),
        bit_xor-low b c,
      ))
      (bit_xor-half (bit_xor a b) c
        ∙ ap (λ x. bit_xor x (c / 2)) (bit_xor-half a b)
        ∙ assoc_below n (a / 2) (b / 2) (c / 2) (omega (arith, h)) (omega (arith, k))
            (omega (arith, l))
        ∙ ap (bit_xor (a / 2)) (sym (bit_xor-half b c))
        ∙ sym (bit_xor-half a (bit_xor b c)))

pub bit_xor_assoc : (a b c : ℕ) → bit_xor (bit_xor a b) c ≡ bit_xor a (bit_xor b c)
bit_xor_assoc a b c = assoc_below (a + b + c) a b c (omega arith) (omega arith) (omega arith)

zero_below : (n a : ℕ) → a ≤ n → bit_xor a 0 ≡ a
zero_below zero zero h = refl
zero_below zero (suc a) h = absurd (omega (arith, h))
zero_below (suc n) a h =
    by_halves (bit_xor a 0) a (omega (arith, bit_xor-low a 0))
      (bit_xor-half a 0 ∙ zero_below n (a / 2) (omega (arith, h)))

pub bit_xor_zero : (a : ℕ) → bit_xor a 0 ≡ a
bit_xor_zero a = zero_below a a (omega arith)

-- The middle two of four change places.
pub bit_xor_swap :
    (a b c d : ℕ) → bit_xor (bit_xor a b) (bit_xor c d) ≡ bit_xor (bit_xor a c) (bit_xor b d)
bit_xor_swap a b c d =
    bit_xor_assoc a b (bit_xor c d)
    ∙ ap (bit_xor a)
        (sym (bit_xor_assoc b c d) ∙ ap (λ x. bit_xor x d) (bit_xor_comm b c) ∙ bit_xor_assoc c b d)
    ∙ sym (bit_xor_assoc a c (bit_xor b d))

-- A shifted word and one below the shift have no digit in common.
pub bit_xor_shift : (k a b : ℕ) → a < pow2 k → bit_xor a (b * pow2 k) ≡ a + b * pow2 k
bit_xor_shift zero a b h =
    let a0 : a ≡ 0 = omega (arith, h) in
    let b1 : b * 1 ≡ b = omega arith in
    rw (a0, b1) (bit_xor_comm 0 b ∙ bit_xor_zero b ∙ omega arith)
bit_xor_shift (suc k) a b h =
    let half : b * (pow2 k * 2) / 2 ≡ b * pow2 k = omega arith in
    by_halves (bit_xor a (b * (pow2 k * 2))) (a + b * (pow2 k * 2))
      (bit_xor-low a (b * (pow2 k * 2)))
      (bit_xor-half a (b * (pow2 k * 2))
        ∙ ap (bit_xor (a / 2)) half
        ∙ bit_xor_shift k (a / 2) b (omega (arith, h))
        ∙ omega arith)

or_low_half :
    (a b : ℕ) → (bit_or a b % 2 ≡ max (a % 2) (b % 2)) × (bit_or a b / 2 ≡ bit_or (a / 2) (b / 2))
or_low_half a b = (omega (arith, bit_or_halves a b), omega (arith, bit_or_halves a b))

or_zero : (n b : ℕ) → b ≤ n → bit_or 0 b ≡ b
or_zero zero zero h = refl
or_zero zero (suc b) h = absurd (omega (arith, h))
or_zero (suc n) b h =
    by_halves (bit_or 0 b) b (omega (arith, (or_low_half 0 b).0))
      ((or_low_half 0 b).1 ∙ or_zero n (b / 2) (omega (arith, h)))

pub bit_or_shift : (k a b : ℕ) → a < pow2 k → bit_or a (b * pow2 k) ≡ a + b * pow2 k
bit_or_shift zero a b h =
    let a0 : a ≡ 0 = omega (arith, h) in
    let b1 : b * 1 ≡ b = omega arith in rw (a0, b1) (or_zero b b (omega arith) ∙ omega arith)
bit_or_shift (suc k) a b h =
    let half : b * (pow2 k * 2) / 2 ≡ b * pow2 k = omega arith in
    by_halves (bit_or a (b * (pow2 k * 2))) (a + b * (pow2 k * 2))
      (omega (arith, (or_low_half a (b * (pow2 k * 2))).0))
      ((or_low_half a (b * (pow2 k * 2))).1
        ∙ ap (bit_or (a / 2)) half
        ∙ bit_or_shift k (a / 2) b (omega (arith, h))
        ∙ omega arith)

half_div : (a p : ℕ) → 0 < p → a / (p * 2) ≡ a / 2 / p
half_div a p h = grind arith

pub bit_xor-div : (k a b : ℕ) → bit_xor a b / pow2 k ≡ bit_xor (a / pow2 k) (b / pow2 k)
bit_xor-div zero a b =
    let e : (x : ℕ) → x / 1 ≡ x = λ x. omega arith in rw (e (bit_xor a b), e a, e b) refl
bit_xor-div (suc k) a b =
    half_div (bit_xor a b) (pow2 k) (pow2-pos k)
    ∙ ap (λ x. x / pow2 k) (bit_xor-half a b)
    ∙ bit_xor-div k (a / 2) (b / 2)
    ∙ rw (half_div a (pow2 k) (pow2-pos k), half_div b (pow2 k) (pow2-pos k)) refl

mod_half : (a p : ℕ) → 0 < p → (a % (p * 2) / 2 ≡ a / 2 % p) × (a % (p * 2) % 2 ≡ a % 2)
mod_half a p h = (omega (arith, half_mod a p h), omega (arith, half_mod a p h))

pub bit_xor-mod : (k a b : ℕ) → bit_xor a b % pow2 k ≡ bit_xor (a % pow2 k) (b % pow2 k)
bit_xor-mod zero a b =
    let e : (x : ℕ) → x % 1 ≡ 0 = λ x. omega arith in rw (e (bit_xor a b), e a, e b) refl
bit_xor-mod (suc k) a b =
    let (half, low) = mod_half (bit_xor a b) (pow2 k) (pow2-pos k) in
    let (half_a, low_a) = mod_half a (pow2 k) (pow2-pos k) in
    let (half_b, low_b) = mod_half b (pow2 k) (pow2-pos k) in
    let p = pow2 k * 2 in
    by_halves (bit_xor a b % p) (bit_xor (a % p) (b % p))
      (omega (arith, low, low_a, low_b, bit_xor-low a b, bit_xor-low (a % p) (b % p)))
      (half
        ∙ ap (λ x. x % pow2 k) (bit_xor-half a b)
        ∙ bit_xor-mod k (a / 2) (b / 2)
        ∙ sym (bit_xor-half (a % p) (b % p) ∙ rw (half_a, half_b) refl))
