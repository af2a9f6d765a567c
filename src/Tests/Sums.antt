-- ===== src/Tests/Sums.antt =====
-- The bytes of the text "123456789", whose checksum is 0xE3069283.
use udpspeeder.Base.{ℕ, ◌/◌, ◌%◌, true, ◌-◌, ◌^◌, ◌≡◌, refl, List, [], ◌∷◌, arith}
use udpspeeder.Crc.{crc32c, crc32c_sw, slice_step, byte_step, bit_step, crc32c_table}
use udpspeeder.Crc.Bitwise.{crc_bits}
use udpspeeder.Crc.Hardware.{Instructions, value4, value8, crc32c_hw}
use udpspeeder.Crc.Hardware.Agree.{AsDocumented, crc32c-bits}

abbrev digits : List ℕ
digits = 49 ∷ 50 ∷ 51 ∷ 52 ∷ 53 ∷ 54 ∷ 55 ∷ 56 ∷ 57 ∷ []

known_sum : crc32c_sw digits 0 ≡ 0xe306_9283
unfolding crc32c_sw slice_step byte_step bit_step crc32c_table
known_sum = refl

abbrev by_bits : Instructions
by_bits = record {
  wide = true;
  crc32_u8 = λ crc p. crc_bits crc (p ∷ []);
  crc32_u32 =
      λ crc v. crc_bits crc (v % 256 ∷ v / 2 ^ 8 % 256 ∷ v / 2 ^ 16 % 256 ∷ v / 2 ^ 24 % 256 ∷ []);
  crc32_u64 = λ crc v. crc_bits (crc % 2 ^ 32) (
      v % 256
      ∷ v / 2 ^ 8 % 256
      ∷ v / 2 ^ 16 % 256
      ∷ v / 2 ^ 24 % 256
      ∷ v / 2 ^ 32 % 256
      ∷ v / 2 ^ 40 % 256
      ∷ v / 2 ^ 48 % 256
      ∷ v / 2 ^ 56 % 256
      ∷ []);
}

by_bits-AsDocumented : AsDocumented by_bits
by_bits-AsDocumented = record {
  u8 = λ crc p h. refl;
  u32 = λ crc p0 p1 p2 p3 (h0, (h1, (h2, (h3, _)))).
      let v = value4 p0 p1 p2 p3 in
      let e0 : v % 256 ≡ p0 = omega arith in
      let e1 : v / 2 ^ 8 % 256 ≡ p1 = omega arith in
      let e2 : v / 2 ^ 16 % 256 ≡ p2 = omega arith in
      let e3 : v / 2 ^ 24 % 256 ≡ p3 = omega arith in rw (e0, e1, e2, e3) refl;
  u64 = λ crc p0 p1 p2 p3 p4 p5 p6 p7 (h0, (h1, (h2, (h3, (h4, (h5, (h6, (h7, _)))))))).
      let v = value8 p0 p1 p2 p3 p4 p5 p6 p7 in
      let e0 : v % 256 ≡ p0 = omega arith in
      let e1 : v / 2 ^ 8 % 256 ≡ p1 = omega arith in
      let e2 : v / 2 ^ 16 % 256 ≡ p2 = omega arith in
      let e3 : v / 2 ^ 24 % 256 ≡ p3 = omega arith in
      let e4 : v / 2 ^ 32 % 256 ≡ p4 = omega arith in
      let e5 : v / 2 ^ 40 % 256 ≡ p5 = omega arith in
      let e6 : v / 2 ^ 48 % 256 ≡ p6 = omega arith in
      let e7 : v / 2 ^ 56 % 256 ≡ p7 = omega arith in rw (e0, e1, e2, e3, e4, e5, e6, e7) refl;
}

crc32c-bits_example :
    crc32c true (crc32c_hw by_bits) digits 0 ≡ 2 ^ 32 - 1 - crc_bits (2 ^ 32 - 1 - 0) digits
crc32c-bits_example =
    crc32c-bits by_bits by_bits-AsDocumented true digits 0
      (
        omega arith,
        (
          omega arith,
          (
            omega arith,
            (
              omega arith,
              (omega arith, (omega arith, (omega arith, (omega arith, (omega arith, tt))))),
            ),
          ),
        ),
      )
      (omega arith)
