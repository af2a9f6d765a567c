-- ===== src/Crc/Hardware.antt =====
-- crc32c_hw of crc32c.h for x86: the loops around the instructions of the processor, which are arguments.
-- `wide` is whether it has the one for eight bytes (x86_64); a value of several bytes is read with the
-- lowest byte first. The checksum starts as a complement of 64 bits and is cut to 32. The routine for ARM
-- is not modelled.
pub mod Agree
use udpspeeder.Base.{ℕ, ◌+◌, ◌-◌, ◌*◌, ◌%◌, ◌^◌, Bool, true, false, List, [], ◌∷◌, if◌then◌else◌}

-- What the instructions do to a checksum and a value.
pub record Instructions : Type 0 where
  pub wide : Bool
  pub crc32_u64 : ℕ → ℕ → ℕ
  pub crc32_u32 : ℕ → ℕ → ℕ
  pub crc32_u8 : ℕ → ℕ → ℕ

abbrev pub value4 : (p0 p1 p2 p3 : ℕ) → ℕ
value4 p0 p1 p2 p3 = p0 + p1 * 2 ^ 8 + p2 * 2 ^ 16 + p3 * 2 ^ 24

abbrev pub value8 : (p0 p1 p2 p3 p4 p5 p6 p7 : ℕ) → ℕ
value8 p0 p1 p2 p3 p4 p5 p6 p7 = value4 p0 p1 p2 p3 + value4 p4 p5 p6 p7 * 2 ^ 32

module _ (h : Instructions) where
  abbrev pub loop1 : ℕ → List ℕ → ℕ
  loop1 crc [] = crc
  loop1 crc (p ∷ ps) = loop1 (h.crc32_u8 crc p) ps

  abbrev pub loop4 : ℕ → List ℕ → ℕ
  loop4 crc (p0 ∷ p1 ∷ p2 ∷ p3 ∷ ps) = loop4 (h.crc32_u32 crc (value4 p0 p1 p2 p3)) ps
  loop4 crc ps = loop1 crc ps

  abbrev pub loop8 : ℕ → List ℕ → ℕ
  loop8 crc (p0 ∷ p1 ∷ p2 ∷ p3 ∷ p4 ∷ p5 ∷ p6 ∷ p7 ∷ ps) =
      loop8 (h.crc32_u64 crc (value8 p0 p1 p2 p3 p4 p5 p6 p7)) ps
  loop8 crc ps = loop4 (crc % 2 ^ 32) ps

  unfoldable pub crc32c_hw : List ℕ → (previous : ℕ) → ℕ
  crc32c_hw ps previous =
      let crc = 2 ^ 64 - 1 - previous in
      2 ^ 32 - 1 - (if h.wide then loop8 crc ps else loop4 (crc % 2 ^ 32) ps)
