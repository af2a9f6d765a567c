-- ===== src/Crc/Bitwise.antt =====
-- The checksum is the one that is defined bit by bit.
use udpspeeder.Base.{
  ℕ, zero, suc, ◌-◌, ◌*◌, ◌/◌, ◌%◌, ◌^◌, ◌<◌, ◌≡◌, refl, ◌∙◌, sym, ap, List, [], ◌∷◌, All, arith,
}
use udpspeeder.Base.Bits.{bit_xor, pow2}
use udpspeeder.Base.Xor.{bit_xor_zero, bit_xor_shift, bit_xor-div}
use udpspeeder.Crc.{bit_step, bit_steps, byte_step, byte_steps, sw_loops, crc32c_sw}
use udpspeeder.Crc.Linear.{tap, turn, bit_steps-bit_xor, turn-bit_xor, byte_step-turn}
use udpspeeder.Crc.Slices.{slice_step-byte_steps}

-- The checksum told apart from the tables: each byte is mixed in at the low end, and eight bits leave.
abbrev pub crc_bits : ℕ → List ℕ → ℕ
crc_bits crc [] = crc
crc_bits crc (p ∷ ps) = crc_bits (bit_steps 8 (bit_xor crc p)) ps

bit_step-even : (y : ℕ) → bit_step (y * 2) ≡ y
unfolding bit_step
bit_step-even y =
    let half : y * 2 / 2 ≡ y = omega arith in
    let digit : y * 2 % 2 ≡ 0 = omega arith in rw (half, digit) (bit_xor_zero y)

bit_steps-shifted : (n y : ℕ) → bit_steps n (y * pow2 n) ≡ y
bit_steps-shifted zero y = omega arith
bit_steps-shifted (suc n) y =
    let e : y * (pow2 n * 2) ≡ y * pow2 n * 2 = omega arith in
    ap (bit_steps n) (ap bit_step e ∙ bit_step-even (y * pow2 n)) ∙ bit_steps-shifted n y

turn-bits : (x : ℕ) → turn x ≡ bit_steps 8 x
unfolding turn
turn-bits x =
    let parts : bit_xor (x % 256) (x / 256 * 256) ≡ x =
      bit_xor_shift 8 (x % 256) (x / 256) (omega arith) ∙ omega arith in
    ap (bit_xor (bit_steps 8 (x % 256))) (sym (bit_steps-shifted 8 (x / 256)))
    ∙ sym (bit_steps-bit_xor 8 (x % 256) (x / 256 * 256))
    ∙ ap (bit_steps 8) parts

byte_steps-bits :
    (crc : ℕ) (ps : List ℕ) → All (λ p. p < 256) ps → byte_steps crc ps ≡ crc_bits crc ps
byte_steps-bits crc [] small = refl
byte_steps-bits crc (p ∷ ps) small =
    byte_steps-bits (byte_step crc p) ps small.1
    ∙ ap (λ x. crc_bits x ps)
        (byte_step-turn crc p small.0 ∙ sym (turn-bit_xor crc p) ∙ turn-bits (bit_xor crc p))

tap-word : (d : ℕ) → d < 2 → tap d / 2 ^ 32 ≡ 0
tap-word zero h = refl
tap-word (suc zero) h = refl
tap-word (suc (suc d)) h = absurd (omega (arith, h))

bit_xor-word : (a b : ℕ) → a / 2 ^ 32 ≡ 0 → b / 2 ^ 32 ≡ 0 → bit_xor a b / 2 ^ 32 ≡ 0
bit_xor-word a b ha hb = bit_xor-div 32 a b ∙ rw (ha, hb) refl

-- A word stays a word.
bit_step-word : (c : ℕ) → c / 2 ^ 32 ≡ 0 → bit_step c / 2 ^ 32 ≡ 0
unfolding bit_step
bit_step-word c word =
    bit_xor-word (c / 2) (tap (c % 2)) (omega (arith, word)) (tap-word (c % 2) (omega arith))

bit_steps-word : (n c : ℕ) → c / 2 ^ 32 ≡ 0 → bit_steps n c / 2 ^ 32 ≡ 0
bit_steps-word zero c word = word
bit_steps-word (suc n) c word = bit_steps-word n (bit_step c) (bit_step-word c word)

pub crc_bits-word :
    (crc : ℕ) (ps : List ℕ)
    → crc / 2 ^ 32 ≡ 0
    → All (λ p. p < 256) ps
    → crc_bits crc ps / 2 ^ 32 ≡ 0
crc_bits-word crc [] word small = word
crc_bits-word crc (p ∷ ps) word small =
    crc_bits-word (bit_steps 8 (bit_xor crc p)) ps
      (bit_steps-word 8 (bit_xor crc p)
        (bit_xor-word crc p word (let h : p < 256 = small.0 in omega (arith, h))))
      small.1

sw_loops-bits :
    (crc : ℕ) (ps : List ℕ)
    → crc / 2 ^ 32 ≡ 0
    → All (λ p. p < 256) ps
    → sw_loops crc ps ≡ crc_bits crc ps
sw_loops-bits crc [] word small = refl
sw_loops-bits crc (p0 ∷ []) word small = byte_steps-bits crc (p0 ∷ []) small
sw_loops-bits crc (p0 ∷ p1 ∷ []) word small = byte_steps-bits crc (p0 ∷ p1 ∷ []) small
sw_loops-bits crc (p0 ∷ p1 ∷ p2 ∷ []) word small = byte_steps-bits crc (p0 ∷ p1 ∷ p2 ∷ []) small
sw_loops-bits crc (p0 ∷ p1 ∷ p2 ∷ p3 ∷ []) word small =
    byte_steps-bits crc (p0 ∷ p1 ∷ p2 ∷ p3 ∷ []) small
sw_loops-bits crc (p0 ∷ p1 ∷ p2 ∷ p3 ∷ p4 ∷ []) word small =
    byte_steps-bits crc (p0 ∷ p1 ∷ p2 ∷ p3 ∷ p4 ∷ []) small
sw_loops-bits crc (p0 ∷ p1 ∷ p2 ∷ p3 ∷ p4 ∷ p5 ∷ []) word small =
    byte_steps-bits crc (p0 ∷ p1 ∷ p2 ∷ p3 ∷ p4 ∷ p5 ∷ []) small
sw_loops-bits crc (p0 ∷ p1 ∷ p2 ∷ p3 ∷ p4 ∷ p5 ∷ p6 ∷ []) word small =
    byte_steps-bits crc (p0 ∷ p1 ∷ p2 ∷ p3 ∷ p4 ∷ p5 ∷ p6 ∷ []) small
sw_loops-bits crc (p0 ∷ p1 ∷ p2 ∷ p3 ∷ p4 ∷ p5 ∷ p6 ∷ p7 ∷ ps) word small =
    let (h0, (h1, (h2, (h3, (h4, (h5, (h6, (h7, rest)))))))) = small in
    let eight : All (λ p. p < 256) (p0 ∷ p1 ∷ p2 ∷ p3 ∷ p4 ∷ p5 ∷ p6 ∷ p7 ∷ []) =
      (h0, (h1, (h2, (h3, (h4, (h5, (h6, (h7, tt)))))))) in
    let bytes = p0 ∷ p1 ∷ p2 ∷ p3 ∷ p4 ∷ p5 ∷ p6 ∷ p7 ∷ [] in
    ap (λ x. sw_loops x ps)
      (slice_step-byte_steps crc p0 p1 p2 p3 p4 p5 p6 p7 word eight
        ∙ byte_steps-bits crc bytes eight)
    ∙ sw_loops-bits (crc_bits crc bytes) ps (crc_bits-word crc bytes word eight) rest

-- For bytes and a previous checksum of 32 bits, crc32c_sw, with its tables and eight bytes at a time, gives
-- the checksum that is defined bit by bit from the polynomial, from the complement and back.
pub crc32c_sw-bits :
    (ps : List ℕ) (previous : ℕ)
    → All (λ p. p < 256) ps
    → previous < 2 ^ 32
    → crc32c_sw ps previous ≡ 2 ^ 32 - 1 - crc_bits (2 ^ 32 - 1 - previous) ps
unfolding crc32c_sw
crc32c_sw-bits ps previous small word =
    ap (λ x. 2 ^ 32 - 1 - x) (sw_loops-bits (2 ^ 32 - 1 - previous) ps (omega (arith, word)) small)
