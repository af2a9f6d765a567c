-- ===== src/Crc.antt =====
-- crc32c.h: the checksum CRC32C in software, eight bytes at a time, and the choice between it and the
-- instructions of the processor. A word has 32 bits: a shift to the right divides, `~` subtracts from the
-- greatest word. The instructions are an argument.
pub mod Linear
pub mod Slices
pub mod Bitwise
pub mod Hardware
use udpspeeder.Base.{
  ℕ, zero, suc, ◌+◌, ◌-◌, ◌*◌, ◌/◌, ◌%◌, ◌^◌, Bool, true, false, List, [], ◌∷◌, if◌then◌else◌,
}
use udpspeeder.Base.Bits.{bit_and, bit_or, bit_xor}

abbrev pub poly : ℕ
poly = 0x82f6_3b78

-- `crc = (crc >> 1) ^ (poly & (-(int32_t)(crc & 1)));`
unfoldable pub bit_step : ℕ → ℕ
bit_step crc = bit_xor (crc / 2) (bit_and poly ((2 ^ 32 - crc % 2) % 2 ^ 32))

abbrev pub bit_steps : ℕ → ℕ → ℕ
bit_steps zero crc = crc
bit_steps (suc n) crc = bit_steps n (bit_step crc)

-- `crc32c_table[s][i]`, for `i` below 256.
unfoldable pub crc32c_table : ℕ → ℕ → ℕ
crc32c_table zero i = bit_steps 8 i
crc32c_table (suc s) i =
    let crc = crc32c_table s i in bit_xor (bit_steps 8 (crc % 256)) (crc / 2 ^ 8)

-- One byte of the loop for the rest.
unfoldable pub byte_step : ℕ → ℕ → ℕ
byte_step crc p = bit_xor (crc32c_table 0 (bit_xor crc p % 256)) (crc / 2 ^ 8)

abbrev pub byte_steps : ℕ → List ℕ → ℕ
byte_steps crc [] = crc
byte_steps crc (p ∷ ps) = byte_steps (byte_step crc p) ps

-- Eight bytes of the main loop.
unfoldable pub slice_step : ℕ → (p0 p1 p2 p3 p4 p5 p6 p7 : ℕ) → ℕ
slice_step crc p0 p1 p2 p3 p4 p5 p6 p7 =
    let x = bit_xor crc (bit_or (bit_or (bit_or p0 (p1 * 2 ^ 8)) (p2 * 2 ^ 16)) (p3 * 2 ^ 24)) in
    bit_xor
      (bit_xor
        (bit_xor
          (bit_xor
            (bit_xor
              (bit_xor (bit_xor (crc32c_table 7 (x % 256)) (crc32c_table 6 (x / 2 ^ 8 % 256)))
                (crc32c_table 5 (x / 2 ^ 16 % 256)))
              (crc32c_table 4 (x / 2 ^ 24 % 256)))
            (crc32c_table 3 p4))
          (crc32c_table 2 p5))
        (crc32c_table 1 p6))
      (crc32c_table 0 p7)

-- Both loops.
abbrev pub sw_loops : ℕ → List ℕ → ℕ
sw_loops crc (p0 ∷ p1 ∷ p2 ∷ p3 ∷ p4 ∷ p5 ∷ p6 ∷ p7 ∷ ps) =
    sw_loops (slice_step crc p0 p1 p2 p3 p4 p5 p6 p7) ps
sw_loops crc ps = byte_steps crc ps

unfoldable pub crc32c_sw : List ℕ → (previous : ℕ) → ℕ
crc32c_sw ps previous = 2 ^ 32 - 1 - sw_loops (2 ^ 32 - 1 - previous) ps

-- What crc32c_resolve chooses: the routine of the processor, if it has one.
unfoldable pub crc32c :
    (crc32c_has_hw : Bool) → (crc32c_hw : List ℕ → ℕ → ℕ) → List ℕ → (previous : ℕ) → ℕ
crc32c crc32c_has_hw crc32c_hw ps previous =
    if crc32c_has_hw then crc32c_hw ps previous else crc32c_sw ps previous
