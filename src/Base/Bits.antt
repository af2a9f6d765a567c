-- ===== src/Base/Bits.antt =====
-- Masks, shifts and single bits of machine words. The native bit operations stand for a recursion on
-- binary digits; here each gets one law for its lowest digit, and from that the laws in use.
pub use Prim.Native.Nat.{bit_and, bit_or, bit_xor, max}
use Prim.Native.Nat.{digits, bitwise, bit_and-bitwise, bit_or-bitwise, bit_xor-bitwise, differ}
use udpspeeder.Base.{
  ℕ, zero, suc, ◌+◌, ◌*◌, ◌/◌, ◌%◌, ◌≤◌, ◌<◌, min, ◌≡◌, refl, ◌∙◌, arith, ◌==◌, if◌then◌else◌,
}

module _ (rest : ℕ → ℕ) (op : ℕ → ℕ → ℕ) where
  -- The fuel of the recursion does not matter once it covers the first number.
  enough : (k : ℕ) (l a b : ℕ) → a ≤ k → a ≤ l → digits rest op k a b ≡ digits rest op l a b
  enough zero zero a b p q = refl
  enough (suc k) (suc l) (suc a) b p q =
      rw (enough k l (suc a / 2) (b / 2) (omega arith) (omega arith))
  enough zero (suc l) (suc a) b p q = elim p [ ]
  enough (suc k) zero (suc a) b p q = elim q [ ]
  enough zero (suc l) zero b p q = refl
  enough (suc k) zero zero b p q = refl
  enough (suc k) (suc l) zero b p q = refl

  lowest :
      (m n : ℕ)
      → op (suc m % 2) (n % 2) + 2 * bitwise rest op (suc m / 2) (n / 2) ≡ bitwise rest op (suc m) n
  lowest m n = omega (arith, enough m (suc m / 2) (suc m / 2) (n / 2) (omega arith) (omega arith))

pub bit_and_halves : (m n : ℕ) → min (m % 2) (n % 2) + 2 * bit_and (m / 2) (n / 2) ≡ bit_and m n
bit_and_halves zero n = simp bit_and-bitwise (omega arith)
bit_and_halves (suc m) n = simp bit_and-bitwise (lowest (λ k. 0) min m n)

pub bit_or_halves : (m n : ℕ) → max (m % 2) (n % 2) + 2 * bit_or (m / 2) (n / 2) ≡ bit_or m n
bit_or_halves zero n = simp bit_or-bitwise (omega arith)
bit_or_halves (suc m) n = simp bit_or-bitwise (lowest (λ k. k) max m n)

pub bit_xor_halves : (m n : ℕ) → differ (m % 2) (n % 2) + 2 * bit_xor (m / 2) (n / 2) ≡ bit_xor m n
bit_xor_halves zero n = simp bit_xor-bitwise (omega arith)
bit_xor_halves (suc m) n = simp bit_xor-bitwise (lowest (λ k. k) differ m n)

-- `a & (2 ^ k - 1)`
abbrev pub mask : ℕ → ℕ
mask zero = 0
mask (suc k) = mask k * 2 + 1

abbrev pub pow2 : ℕ → ℕ
pow2 zero = 1
pow2 (suc k) = pow2 k * 2

bit_and-zero_below : (n a : ℕ) → a ≤ n → bit_and a 0 ≡ 0
bit_and-zero_below n zero h = refl
bit_and-zero_below zero (suc a) h = elim h [ ]
bit_and-zero_below (suc n) (suc a) h =
    omega (arith, bit_and_halves (suc a) 0, bit_and-zero_below n (suc a / 2) (omega arith))

-- The bit at place `k`.
abbrev pub bit : ℕ → ℕ → ℕ
bit a zero = a % 2
bit a (suc k) = bit (a / 2) k

pub bit-bit_or : (k a b : ℕ) → bit (bit_or a b) k ≡ max (bit a k) (bit b k)
bit-bit_or zero a b = omega (arith, bit_or_halves a b)
bit-bit_or (suc k) a b =
    let e : bit_or a b / 2 ≡ bit_or (a / 2) (b / 2) = omega (arith, bit_or_halves a b) in
    rw e (bit-bit_or k (a / 2) (b / 2))

pub bit-zero : (k : ℕ) → bit 0 k ≡ 0
bit-zero zero = refl
bit-zero (suc k) = bit-zero k

-- `1 << i` has the bit at place `i` alone.
pub bit-pow2 : (i k : ℕ) → bit (pow2 i) k ≡ (if i == k then 1 else 0)
bit-pow2 zero zero = refl
bit-pow2 zero (suc k) = bit-zero k ∙ ground arith
bit-pow2 (suc i) zero = ground arith
bit-pow2 (suc i) (suc k) =
    let e : pow2 i * 2 / 2 ≡ pow2 i = omega arith in rw e (bit-pow2 i k ∙ ground arith)

pub pow2-pos : (k : ℕ) → 0 < pow2 k
pow2-pos zero = omega arith
pow2-pos (suc k) = omega (arith, pow2-pos k)

pub half_mod : (a p : ℕ) → 0 < p → a / 2 % p * 2 + a % 2 ≡ a % (p * 2)
half_mod a p h = grind arith

pub bit_and-mask : (k a : ℕ) → bit_and a (mask k) ≡ a % pow2 k
bit_and-mask zero a = omega (arith, bit_and-zero_below a a (omega arith))
bit_and-mask (suc k) a = omega (
  arith,
  bit_and_halves a (mask k * 2 + 1),
  (let e : (mask k * 2 + 1) / 2 ≡ mask k = omega arith in
      let f : bit_and (a / 2) ((mask k * 2 + 1) / 2) ≡ a / 2 % pow2 k =
        rw e (bit_and-mask k (a / 2)) in
      f),
  half_mod a (pow2 k) (pow2-pos k),
)

differ_digits : (x y : ℕ) → x < 2 → y < 2 → (differ x y < 2) × (differ (differ x y) y ≡ x)
differ_digits zero zero h k = omega arith
differ_digits zero (suc zero) h k = omega arith
differ_digits (suc zero) zero h k = omega arith
differ_digits (suc zero) (suc zero) h k = omega arith
differ_digits zero (suc (suc y)) h k = absurd (omega arith)
differ_digits (suc zero) (suc (suc y)) h k = absurd (omega arith)
differ_digits (suc (suc x)) y h k = absurd (omega arith)

bit_xor_cancel_below : (n a b : ℕ) → a ≤ n → b ≤ n → bit_xor (bit_xor a b) b ≡ a
bit_xor_cancel_below zero zero zero h k = refl
bit_xor_cancel_below zero zero (suc b) h k = absurd (omega arith)
bit_xor_cancel_below zero (suc a) b h k = absurd (omega arith)
bit_xor_cancel_below (suc n) a b h k =
    let (small, back) = differ_digits (a % 2) (b % 2) (omega arith) (omega arith) in
    let low : bit_xor a b % 2 ≡ differ (a % 2) (b % 2) = omega (arith, small, bit_xor_halves a b) in
    let high : bit_xor a b / 2 ≡ bit_xor (a / 2) (b / 2) =
      omega (arith, small, bit_xor_halves a b) in
    let rest = bit_xor_cancel_below n (a / 2) (b / 2) (omega arith) (omega arith) in
    let whole = bit_xor_halves (bit_xor a b) b in
    let whole' = rw (low, high, back, rest) at whole in omega (arith, whole')

pub bit_xor_cancel : (a b : ℕ) → bit_xor (bit_xor a b) b ≡ a
bit_xor_cancel a b = bit_xor_cancel_below (a + b) a b (omega arith) (omega arith)
