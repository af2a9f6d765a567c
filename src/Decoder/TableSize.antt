-- ===== src/Decoder/TableSize.antt =====
-- The size of the group table that the constructor chooses.
use udpspeeder.Base.{
  ℕ, zero, suc, ◌*◌, ◌%◌, ◌^◌, ◌≤◌, ◌≡◌, refl, false, ltb, arith, Bool-cases, inl, inr,
}
use udpspeeder.Base.Bits.{pow2}
use udpspeeder.Decoder.State.{grow_table, table_size}

pow2-grows : (d : ℕ) → 1 ≤ pow2 d
pow2-grows zero = omega arith
pow2-grows (suc d) = omega (arith, pow2-grows d)

doubled_fits : (p q : ℕ) → 1 ≤ q → p * (q * 2) ≡ 0x80000000 → p * 2 ≤ 0x80000000
doubled_fits p q pos e = grind (arith, p * q)

grow_table-reaches :
    (fuel d k want size : ℕ)
    → size ≡ pow2 k
    → size * pow2 d ≡ 0x80000000
    → d ≤ fuel
    → want ≤ 0x80000000
    → (j : ℕ) × (grow_table fuel want size ≡ pow2 j) × (want ≤ grow_table fuel want size)
unfolding grow_table
grow_table-reaches zero zero k want size e whole le small = (k, e, omega (arith, whole))
grow_table-reaches zero (suc d) k want size e whole le small = absurd (omega arith)
grow_table-reaches (suc fuel) zero k want size e whole le small =
    let stop : ltb size want ≡ false = ground (arith, whole) in rw stop (k, e, omega (arith, whole))
grow_table-reaches (suc fuel) (suc d) k want size e whole le small =
    elim (Bool-cases (ltb size want)) [
      | inl go ↦
          let fits = doubled_fits size (pow2 d) (pow2-grows d) whole in
          let cut : size * 2 % 2 ^ 32 ≡ size * 2 = omega arith in
          rw (go, cut)
            (grow_table-reaches fuel d (suc k) want (size * 2) (omega arith) (grind (arith, whole))
              (omega arith) small)
      | inr stop ↦ rw stop (k, e, ground arith)
    ]

-- For a buffer of up to 2 ^ 30 entries the loop ends in a power of two that is at least twice their
-- number.
pub table_size-covers :
    (fec_buff_num : ℕ)
    → fec_buff_num ≤ 2 ^ 30
    → (j : ℕ) × (table_size fec_buff_num ≡ pow2 j) × (fec_buff_num * 2 ≤ table_size fec_buff_num)
unfolding table_size
table_size-covers fec_buff_num small =
    let cut : fec_buff_num * 2 % 2 ^ 32 ≡ fec_buff_num * 2 = omega arith in
    rw cut (grow_table-reaches 32 31 0 (fec_buff_num * 2) 1 refl refl (omega arith) (omega arith))
