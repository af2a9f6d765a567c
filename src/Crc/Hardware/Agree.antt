-- ===== src/Crc/Hardware/Agree.antt =====
-- Both routines give the same checksum.
use udpspeeder.Base.{
  ℕ, ◌-◌, ◌/◌, ◌%◌, ◌^◌, ◌<◌, ◌≡◌, refl, ◌∙◌, ap, Bool, true, false, List, [], ◌∷◌, All, arith,
  Bool-cases, inl, inr,
}
use udpspeeder.Crc.{crc32c}
use udpspeeder.Crc.Bitwise.{crc_bits, crc_bits-word, crc32c_sw-bits}
use udpspeeder.Crc.Hardware.{Instructions, value4, value8, loop1, loop4, loop8, crc32c_hw}

-- What the manuals say of the instructions: they take in the bytes of the value, lowest first, by the
-- polynomial of CRC32C; the one for eight bytes reads the lower half of the checksum.
pub record AsDocumented (h : Instructions) : Type 0 where
  pub u8 : (crc p : ℕ) → p < 256 → h.crc32_u8 crc p ≡ crc_bits crc (p ∷ [])
  pub u32 :
      (crc p0 p1 p2 p3 : ℕ)
      → All (λ p. p < 256) (p0 ∷ p1 ∷ p2 ∷ p3 ∷ [])
      → h.crc32_u32 crc (value4 p0 p1 p2 p3) ≡ crc_bits crc (p0 ∷ p1 ∷ p2 ∷ p3 ∷ [])
  pub u64 :
      (crc p0 p1 p2 p3 p4 p5 p6 p7 : ℕ)
      → All (λ p. p < 256) (p0 ∷ p1 ∷ p2 ∷ p3 ∷ p4 ∷ p5 ∷ p6 ∷ p7 ∷ [])
      → h.crc32_u64 crc (value8 p0 p1 p2 p3 p4 p5 p6 p7)
        ≡ crc_bits (crc % 2 ^ 32) (p0 ∷ p1 ∷ p2 ∷ p3 ∷ p4 ∷ p5 ∷ p6 ∷ p7 ∷ [])

module _ (h : Instructions) (d : AsDocumented h) where
  loop1-bits : (crc : ℕ) (ps : List ℕ) → All (λ p. p < 256) ps → loop1 h crc ps ≡ crc_bits crc ps
  loop1-bits crc [] small = refl
  loop1-bits crc (p ∷ ps) small =
      ap (λ x. loop1 h x ps) (d.u8 crc p small.0) ∙ loop1-bits (crc_bits crc (p ∷ [])) ps small.1

  loop4-bits : (crc : ℕ) (ps : List ℕ) → All (λ p. p < 256) ps → loop4 h crc ps ≡ crc_bits crc ps
  loop4-bits crc [] small = refl
  loop4-bits crc (p0 ∷ []) small = loop1-bits crc (p0 ∷ []) small
  loop4-bits crc (p0 ∷ p1 ∷ []) small = loop1-bits crc (p0 ∷ p1 ∷ []) small
  loop4-bits crc (p0 ∷ p1 ∷ p2 ∷ []) small = loop1-bits crc (p0 ∷ p1 ∷ p2 ∷ []) small
  loop4-bits crc (p0 ∷ p1 ∷ p2 ∷ p3 ∷ ps) small =
      let (h0, (h1, (h2, (h3, rest)))) = small in
      ap (λ x. loop4 h x ps) (d.u32 crc p0 p1 p2 p3 (h0, (h1, (h2, (h3, tt)))))
      ∙ loop4-bits (crc_bits crc (p0 ∷ p1 ∷ p2 ∷ p3 ∷ [])) ps rest

  loop8-bits :
      (crc : ℕ) (ps : List ℕ) → All (λ p. p < 256) ps → loop8 h crc ps ≡ crc_bits (crc % 2 ^ 32) ps
  loop8-bits crc [] small = refl
  loop8-bits crc (p0 ∷ []) small = loop4-bits (crc % 2 ^ 32) (p0 ∷ []) small
  loop8-bits crc (p0 ∷ p1 ∷ []) small = loop4-bits (crc % 2 ^ 32) (p0 ∷ p1 ∷ []) small
  loop8-bits crc (p0 ∷ p1 ∷ p2 ∷ []) small = loop4-bits (crc % 2 ^ 32) (p0 ∷ p1 ∷ p2 ∷ []) small
  loop8-bits crc (p0 ∷ p1 ∷ p2 ∷ p3 ∷ []) small =
      loop4-bits (crc % 2 ^ 32) (p0 ∷ p1 ∷ p2 ∷ p3 ∷ []) small
  loop8-bits crc (p0 ∷ p1 ∷ p2 ∷ p3 ∷ p4 ∷ []) small =
      loop4-bits (crc % 2 ^ 32) (p0 ∷ p1 ∷ p2 ∷ p3 ∷ p4 ∷ []) small
  loop8-bits crc (p0 ∷ p1 ∷ p2 ∷ p3 ∷ p4 ∷ p5 ∷ []) small =
      loop4-bits (crc % 2 ^ 32) (p0 ∷ p1 ∷ p2 ∷ p3 ∷ p4 ∷ p5 ∷ []) small
  loop8-bits crc (p0 ∷ p1 ∷ p2 ∷ p3 ∷ p4 ∷ p5 ∷ p6 ∷ []) small =
      loop4-bits (crc % 2 ^ 32) (p0 ∷ p1 ∷ p2 ∷ p3 ∷ p4 ∷ p5 ∷ p6 ∷ []) small
  loop8-bits crc (p0 ∷ p1 ∷ p2 ∷ p3 ∷ p4 ∷ p5 ∷ p6 ∷ p7 ∷ ps) small =
      let (h0, (h1, (h2, (h3, (h4, (h5, (h6, (h7, rest)))))))) = small in
      let eight : All (λ p. p < 256) (p0 ∷ p1 ∷ p2 ∷ p3 ∷ p4 ∷ p5 ∷ p6 ∷ p7 ∷ []) =
        (h0, (h1, (h2, (h3, (h4, (h5, (h6, (h7, tt)))))))) in
      let next = crc_bits (crc % 2 ^ 32) (p0 ∷ p1 ∷ p2 ∷ p3 ∷ p4 ∷ p5 ∷ p6 ∷ p7 ∷ []) in
      let word : next / 2 ^ 32 ≡ 0 =
        crc_bits-word (crc % 2 ^ 32) (p0 ∷ p1 ∷ p2 ∷ p3 ∷ p4 ∷ p5 ∷ p6 ∷ p7 ∷ []) (omega arith)
          eight in
      let same : next % 2 ^ 32 ≡ next = omega (arith, word) in
      ap (λ x. loop8 h x ps) (d.u64 crc p0 p1 p2 p3 p4 p5 p6 p7 eight)
      ∙ loop8-bits next ps rest
      ∙ ap (λ x. crc_bits x ps) same

  crc32c_hw-bits :
      (ps : List ℕ) (previous : ℕ)
      → All (λ p. p < 256) ps
      → previous < 2 ^ 32
      → crc32c_hw h ps previous ≡ 2 ^ 32 - 1 - crc_bits (2 ^ 32 - 1 - previous) ps
  unfolding crc32c_hw
  crc32c_hw-bits ps previous small word =
      let start : (2 ^ 64 - 1 - previous) % 2 ^ 32 ≡ 2 ^ 32 - 1 - previous = omega (arith, word) in
      elim (Bool-cases h.wide) [
        | inl wide ↦ rw wide (
            ap (λ x. 2 ^ 32 - 1 - x)
              (loop8-bits (2 ^ 64 - 1 - previous) ps small ∙ ap (λ x. crc_bits x ps) start))
        | inr narrow ↦ rw narrow (
            ap (λ x. 2 ^ 32 - 1 - x)
              (loop4-bits ((2 ^ 64 - 1 - previous) % 2 ^ 32) ps small
                ∙ ap (λ x. crc_bits x ps) start))
      ]

  -- Where the instructions do what their manuals say: for bytes and a previous checksum of 32 bits,
  -- crc32c gives the checksum that is defined bit by bit, whether the processor has the instructions or
  -- not.
  pub crc32c-bits :
      (has_hw : Bool) (ps : List ℕ) (previous : ℕ)
      → All (λ p. p < 256) ps
      → previous < 2 ^ 32
      → crc32c has_hw (crc32c_hw h) ps previous ≡ 2 ^ 32 - 1 - crc_bits (2 ^ 32 - 1 - previous) ps
  unfolding crc32c
  crc32c-bits true ps previous small word = crc32c_hw-bits ps previous small word
  crc32c-bits false ps previous small word = crc32c_sw-bits ps previous small word
