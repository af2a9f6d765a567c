-- ===== src/Crc/Slices.antt =====
-- Eight bytes at a time give the checksum of one byte at a time.
use udpspeeder.Base.{
  ℕ, suc, ◌+◌, ◌*◌, ◌/◌, ◌%◌, ◌^◌, ◌<◌, ◌≡◌, refl, ◌∙◌, sym, ap, List, [], ◌∷◌, length, All, arith,
}
use udpspeeder.Base.Bits.{bit_or, bit_xor}
use udpspeeder.Base.Xor.{bit_xor_assoc, bit_xor_zero, bit_xor-div, bit_or_shift}
use udpspeeder.Crc.{byte_step, byte_steps, slice_step}
use udpspeeder.Crc.Linear.{
  turn, turns, turns-turn, turns-bit_xor, turns_split, turns_zero, crc32c_table-turns,
  byte_step-turn,
}

-- What the bytes add, apart from the checksum before them.
abbrev added : List ℕ → ℕ
added [] = 0
added (p ∷ ps) = bit_xor (turns (suc (length ps)) p) (added ps)

byte_steps-turns :
    (crc : ℕ) (ps : List ℕ)
    → All (λ p. p < 256) ps
    → byte_steps crc ps ≡ bit_xor (turns (length ps) crc) (added ps)
unfolding turns
byte_steps-turns crc [] small = sym (bit_xor_zero crc)
byte_steps-turns crc (p ∷ ps) small =
    byte_steps-turns (byte_step crc p) ps small.1
    ∙ ap (λ x. bit_xor (turns (length ps) x) (added ps)) (byte_step-turn crc p small.0)
    ∙ ap (λ x. bit_xor x (added ps)) (turns-bit_xor (length ps) (turn crc) (turn p))
    ∙ ap (λ x. bit_xor (bit_xor x (turns (length ps) (turn p))) (added ps))
        (turns-turn (length ps) crc)
    ∙ ap (λ x. bit_xor (bit_xor (turns (suc (length ps)) crc) x) (added ps))
        (turns-turn (length ps) p)
    ∙ bit_xor_assoc (turns (suc (length ps)) crc) (turns (suc (length ps)) p) (added ps)

-- The four bytes of a word.
word_split :
    (x : ℕ)
    → x / 2 ^ 32 ≡ 0
    → turns 8 x
      ≡ bit_xor (turns 8 (x % 256)) (
          bit_xor
            (turns 7 (x / 2 ^ 8 % 256))
            (bit_xor (turns 6 (x / 2 ^ 16 % 256)) (turns 5 (x / 2 ^ 24 % 256))))
word_split x word =
    let e2 : x / 256 / 256 ≡ x / 2 ^ 16 = omega arith in
    let e3 : x / 2 ^ 16 / 256 ≡ x / 2 ^ 24 = omega arith in
    let e4 : x / 2 ^ 24 / 256 ≡ 0 = omega (arith, word) in
    turns_split 7 x
    ∙ ap (bit_xor (turns 8 (x % 256))) (
        turns_split 6 (x / 256)
        ∙ ap (bit_xor (turns 7 (x / 256 % 256))) (
            ap (turns 6) e2
            ∙ turns_split 5 (x / 2 ^ 16)
            ∙ ap (bit_xor (turns 6 (x / 2 ^ 16 % 256))) (
                ap (turns 5) e3
                ∙ turns_split 4 (x / 2 ^ 24)
                ∙ ap (bit_xor (turns 5 (x / 2 ^ 24 % 256))) (ap (turns 4) e4 ∙ turns_zero 4)
                ∙ bit_xor_zero (turns 5 (x / 2 ^ 24 % 256)))))

regroup :
    (a0 a1 a2 a3 b4 b5 b6 b7 c q0 q1 q2 q3 : ℕ)
    → bit_xor a0 (bit_xor a1 (bit_xor a2 a3)) ≡ bit_xor c (bit_xor q0 (bit_xor q1 (bit_xor q2 q3)))
    → bit_xor (bit_xor (bit_xor (bit_xor (bit_xor (bit_xor (bit_xor a0 a1) a2) a3) b4) b5) b6) b7
      ≡ bit_xor c (
          bit_xor q0 (
            bit_xor q1
              (bit_xor q2 (bit_xor q3 (bit_xor b4 (bit_xor b5 (bit_xor b6 (bit_xor b7 0))))))))
regroup a0 a1 a2 a3 b4 b5 b6 b7 c q0 q1 q2 q3 e =
    let rest = bit_xor b4 (bit_xor b5 (bit_xor b6 b7)) in
    let left : bit_xor
          (bit_xor (bit_xor (bit_xor (bit_xor (bit_xor (bit_xor a0 a1) a2) a3) b4) b5) b6) b7
        ≡ bit_xor (bit_xor a0 (bit_xor a1 (bit_xor a2 a3))) rest =
      simp bit_xor_assoc in
    left ∙ ap (λ x. bit_xor x rest) e ∙ simp (bit_xor_assoc, bit_xor_zero)

-- The word of four bytes.
word_of :
    (p0 p1 p2 p3 : ℕ)
    → p0 < 256
    → p1 < 256
    → p2 < 256
    → bit_or (bit_or (bit_or p0 (p1 * 2 ^ 8)) (p2 * 2 ^ 16)) (p3 * 2 ^ 24)
      ≡ p0 + p1 * 2 ^ 8 + p2 * 2 ^ 16 + p3 * 2 ^ 24
word_of p0 p1 p2 p3 h0 h1 h2 =
    ap (λ x. bit_or (bit_or x (p2 * 2 ^ 16)) (p3 * 2 ^ 24)) (bit_or_shift 8 p0 p1 h0)
    ∙ ap (λ x. bit_or x (p3 * 2 ^ 24))
        (bit_or_shift 16 (p0 + p1 * 2 ^ 8) p2 (omega (arith, h0, h1)))
    ∙ bit_or_shift 24 (p0 + p1 * 2 ^ 8 + p2 * 2 ^ 16) p3 (omega (arith, h0, h1, h2))

-- The four bytes of the word that the main loop reads.
word_bytes :
    (w p0 p1 p2 p3 : ℕ)
    → All (λ p. p < 256) (p0 ∷ p1 ∷ p2 ∷ p3 ∷ [])
    → w ≡ p0 + p1 * 2 ^ 8 + p2 * 2 ^ 16 + p3 * 2 ^ 24
    → (w % 256 ≡ p0)
      × (w / 2 ^ 8 % 256 ≡ p1)
      × (w / 2 ^ 16 % 256 ≡ p2)
      × (w / 2 ^ 24 % 256 ≡ p3)
      × (w / 2 ^ 32 ≡ 0)
word_bytes w p0 p1 p2 p3 small e =
    let (h0, (h1, (h2, (h3, _)))) = small in
    (
      omega (arith, e, h0, h1, h2, h3),
      omega (arith, e, h0, h1, h2, h3),
      omega (arith, e, h0, h1, h2, h3),
      omega (arith, e, h0, h1, h2, h3),
      omega (arith, e, h0, h1, h2, h3),
    )

module _ (crc p0 p1 p2 p3 : ℕ) (word : crc / 2 ^ 32 ≡ 0)
    (small : All (λ p. p < 256) (p0 ∷ p1 ∷ p2 ∷ p3 ∷ [])) where
  abbrev read : ℕ
  read = bit_or (bit_or (bit_or p0 (p1 * 2 ^ 8)) (p2 * 2 ^ 16)) (p3 * 2 ^ 24)

  abbrev mixed : ℕ
  mixed = bit_xor crc read

  slices :
      bit_xor (turns 8 (mixed % 256)) (
        bit_xor
          (turns 7 (mixed / 2 ^ 8 % 256))
          (bit_xor (turns 6 (mixed / 2 ^ 16 % 256)) (turns 5 (mixed / 2 ^ 24 % 256))))
      ≡ bit_xor
          (turns 8 crc)
          (bit_xor (turns 8 p0) (bit_xor (turns 7 p1) (bit_xor (turns 6 p2) (turns 5 p3))))
  slices =
      let (b0, b1, b2, b3, w32) =
        word_bytes read p0 p1 p2 p3 small (word_of p0 p1 p2 p3 small.0 small.1.0 small.1.1.0) in
      let x32 : mixed / 2 ^ 32 ≡ 0 = bit_xor-div 32 crc read ∙ rw (word, w32) refl in
      sym (word_split mixed x32)
      ∙ turns-bit_xor 8 crc read
      ∙ ap (bit_xor (turns 8 crc)) (word_split read w32 ∙ rw (b0, b1, b2, b3) refl)

pub slice_step-byte_steps :
    (crc p0 p1 p2 p3 p4 p5 p6 p7 : ℕ)
    → crc / 2 ^ 32 ≡ 0
    → All (λ p. p < 256) (p0 ∷ p1 ∷ p2 ∷ p3 ∷ p4 ∷ p5 ∷ p6 ∷ p7 ∷ [])
    → slice_step crc p0 p1 p2 p3 p4 p5 p6 p7
      ≡ byte_steps crc (p0 ∷ p1 ∷ p2 ∷ p3 ∷ p4 ∷ p5 ∷ p6 ∷ p7 ∷ [])
unfolding slice_step
slice_step-byte_steps crc p0 p1 p2 p3 p4 p5 p6 p7 word small =
    let (h0, (h1, (h2, (h3, (h4, (h5, (h6, (h7, _)))))))) = small in
    let x = mixed crc p0 p1 p2 p3 word (h0, (h1, (h2, (h3, tt)))) in
    let t0 = crc32c_table-turns 7 (x % 256) (omega arith) in
    let t1 = crc32c_table-turns 6 (x / 2 ^ 8 % 256) (omega arith) in
    let t2 = crc32c_table-turns 5 (x / 2 ^ 16 % 256) (omega arith) in
    let t3 = crc32c_table-turns 4 (x / 2 ^ 24 % 256) (omega arith) in
    rw
      (
        t0,
        t1,
        t2,
        t3,
        crc32c_table-turns 3 p4 h4,
        crc32c_table-turns 2 p5 h5,
        crc32c_table-turns 1 p6 h6,
        crc32c_table-turns 0 p7 h7,
      )
      (regroup (turns 8 (x % 256)) (turns 7 (x / 2 ^ 8 % 256)) (turns 6 (x / 2 ^ 16 % 256))
          (turns 5 (x / 2 ^ 24 % 256)) (turns 4 p4) (turns 3 p5) (turns 2 p6) (turns 1 p7)
          (turns 8 crc) (turns 8 p0) (turns 7 p1) (turns 6 p2) (turns 5 p3)
          (slices crc p0 p1 p2 p3 word (h0, (h1, (h2, (h3, tt)))))
        ∙ sym (byte_steps-turns crc (p0 ∷ p1 ∷ p2 ∷ p3 ∷ p4 ∷ p5 ∷ p6 ∷ p7 ∷ []) small))
