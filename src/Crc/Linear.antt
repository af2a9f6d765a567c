-- ===== src/Crc/Linear.antt =====
-- A step of the checksum is linear over the exclusive or, and the tables are its powers.
use udpspeeder.Base.{ℕ, zero, suc, ◌+◌, ◌-◌, ◌/◌, ◌%◌, ◌^◌, ◌<◌, ◌≡◌, refl, ◌∙◌, sym, ap, arith}
use udpspeeder.Base.Bits.{bit_and, bit_xor}
use udpspeeder.Base.Xor.{
  bit_xor-low, bit_xor-half, bit_xor_zero, bit_xor_swap, bit_xor-div, bit_xor-mod,
}
use udpspeeder.Crc.{poly, bit_step, bit_steps, crc32c_table, byte_step}

abbrev pub tap : ℕ → ℕ
tap d = bit_and poly ((2 ^ 32 - d) % 2 ^ 32)

tap-bit_xor : (x y : ℕ) → x < 2 → y < 2 → tap ((x + y) % 2) ≡ bit_xor (tap x) (tap y)
tap-bit_xor zero zero h k = refl
tap-bit_xor zero (suc zero) h k = refl
tap-bit_xor (suc zero) zero h k = refl
tap-bit_xor (suc zero) (suc zero) h k = refl
tap-bit_xor zero (suc (suc y)) h k = absurd (omega (arith, k))
tap-bit_xor (suc zero) (suc (suc y)) h k = absurd (omega (arith, k))
tap-bit_xor (suc (suc x)) y h k = absurd (omega (arith, h))

bit_step-bit_xor : (a b : ℕ) → bit_step (bit_xor a b) ≡ bit_xor (bit_step a) (bit_step b)
unfolding bit_step
bit_step-bit_xor a b =
    let digit : bit_xor a b % 2 ≡ (a % 2 + b % 2) % 2 = omega (arith, bit_xor-low a b) in
    ap (λ x. bit_xor x (tap (bit_xor a b % 2))) (bit_xor-half a b)
    ∙ ap (bit_xor (bit_xor (a / 2) (b / 2)))
        (ap tap digit ∙ tap-bit_xor (a % 2) (b % 2) (omega arith) (omega arith))
    ∙ bit_xor_swap (a / 2) (b / 2) (tap (a % 2)) (tap (b % 2))

pub bit_steps-bit_xor :
    (n a b : ℕ) → bit_steps n (bit_xor a b) ≡ bit_xor (bit_steps n a) (bit_steps n b)
bit_steps-bit_xor zero a b = refl
bit_steps-bit_xor (suc n) a b =
    ap (bit_steps n) (bit_step-bit_xor a b) ∙ bit_steps-bit_xor n (bit_step a) (bit_step b)

-- A whole byte goes through.
unfoldable pub turn : ℕ → ℕ
turn x = bit_xor (bit_steps 8 (x % 256)) (x / 2 ^ 8)

pub turn-bit_xor : (a b : ℕ) → turn (bit_xor a b) ≡ bit_xor (turn a) (turn b)
unfolding turn
turn-bit_xor a b =
    ap (λ x. bit_xor (bit_steps 8 x) (bit_xor a b / 2 ^ 8)) (bit_xor-mod 8 a b)
    ∙ ap (λ x. bit_xor x (bit_xor a b / 2 ^ 8)) (bit_steps-bit_xor 8 (a % 256) (b % 256))
    ∙ ap (bit_xor (bit_xor (bit_steps 8 (a % 256)) (bit_steps 8 (b % 256)))) (bit_xor-div 8 a b)
    ∙ bit_xor_swap (bit_steps 8 (a % 256)) (bit_steps 8 (b % 256)) (a / 2 ^ 8) (b / 2 ^ 8)

unfoldable pub turns : ℕ → ℕ → ℕ
turns zero x = x
turns (suc n) x = turn (turns n x)

pub turns-bit_xor : (n a b : ℕ) → turns n (bit_xor a b) ≡ bit_xor (turns n a) (turns n b)
unfolding turns
turns-bit_xor zero a b = refl
turns-bit_xor (suc n) a b = ap turn (turns-bit_xor n a b) ∙ turn-bit_xor (turns n a) (turns n b)

pub turns-turn : (n x : ℕ) → turns n (turn x) ≡ turns (suc n) x
unfolding turns
turns-turn zero x = refl
turns-turn (suc n) x = ap turn (turns-turn n x)

pub turns_zero : (n : ℕ) → turns n 0 ≡ 0
unfolding bit_step turn turns
turns_zero zero = refl
turns_zero (suc n) = ap turn (turns_zero n)

turn_byte : (x : ℕ) → x < 256 → turn x ≡ bit_steps 8 x
unfolding turn
turn_byte x h =
    let low : x % 256 ≡ x = omega (arith, h) in
    let high : x / 256 ≡ 0 = omega (arith, h) in rw (low, high) (bit_xor_zero (bit_steps 8 x))

-- The lowest byte and the rest go through apart.
pub turns_split :
    (n x : ℕ) → turns (suc n) x ≡ bit_xor (turns (suc n) (x % 256)) (turns n (x / 256))
unfolding turn turns
turns_split n x =
    sym (turns-turn n x)
    ∙ turns-bit_xor n (bit_steps 8 (x % 256)) (x / 256)
    ∙ ap (λ y. bit_xor (turns n y) (turns n (x / 256))) (sym (turn_byte (x % 256) (omega arith)))
    ∙ ap (λ y. bit_xor y (turns n (x / 256))) (turns-turn n (x % 256))

-- The tables are the powers of a turn, on bytes.
pub crc32c_table-turns : (s i : ℕ) → i < 256 → crc32c_table s i ≡ turns (suc s) i
unfolding crc32c_table turn turns
crc32c_table-turns zero i h = sym (turn_byte i h)
crc32c_table-turns (suc s) i h = ap turn (crc32c_table-turns s i h)

pub byte_step-turn : (crc p : ℕ) → p < 256 → byte_step crc p ≡ bit_xor (turn crc) (turn p)
unfolding byte_step crc32c_table turn
byte_step-turn crc p h =
    let high : p / 256 ≡ 0 = omega (arith, h) in
    let rest : bit_xor crc p / 256 ≡ crc / 256 =
      bit_xor-div 8 crc p ∙ ap (bit_xor (crc / 256)) high ∙ bit_xor_zero (crc / 256) in
    ap (bit_xor (bit_steps 8 (bit_xor crc p % 256))) (sym rest) ∙ turn-bit_xor crc p
