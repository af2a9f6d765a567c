-- ===== src/Link/Full.antt =====
-- Groups of 255 shards: the parameter check lets them pass, and the decoder does not.
use udpspeeder.Base.{
  ℕ, ◌+◌, ◌-◌, ◌≤◌, ◌<◌, ◌≡◌, ◌∙◌, refl, inr, List, [], ◌∷◌, ◌++◌, some, length, arith, All,
}
use udpspeeder.Blob.{buf_len}
use udpspeeder.Rs.{Codec}
use udpspeeder.Text.{ℤ}
use udpspeeder.Param.{FecParameter}
use udpspeeder.Param.Table.{
  is_over, check_pair, check_pairs, ascending, fill, fill_first, fill_rest, rs_from_pairs,
}
use udpspeeder.Param.Rows.{fill_first_at}
use udpspeeder.Encoder.Flush.{header_bytes, with_headers}
use udpspeeder.Decoder.State.{Decoder, fail}
use udpspeeder.Decoder.Wire.{parse_header}
use udpspeeder.Decoder.Refusal.{input_refuses}
use udpspeeder.Decoder

-- A setting of one pair of 255 shards.
full_pair :
    (par : FecParameter) (k : ℕ)
    → 1 ≤ k
    → k ≤ 255
    → (par' : FecParameter) × (rs_from_pairs par ((ℤ.pos k, ℤ.pos (255 - k)) ∷ []) ≡ some par')
      × (par'.rs_cnt ≡ k)
      × (par'.rs_par (k - 1) ≡ record { x = k; y = 255 - k })
unfolding rs_from_pairs check_pairs check_pair is_over fill ascending fill_rest
full_pair par k low high =
    let passes : check_pair (ℤ.pos k) (ℤ.pos (255 - k)) ≡ some (record { x = k; y = 255 - k }) =
      ground (arith, low, high) in
    let last : k - 1 + 1 ≡ k = omega (arith, low) in
    (
      record par { rs_par = fill_first (255 - k) 1 k par.rs_par; rs_cnt = k },
      rw (rs_from_pairs, check_pairs, passes) refl,
      refl,
      fill_first_at (255 - k) 1 k par.rs_par (k - 1) (omega arith) (omega arith)
            (omega (arith, low))
          ∙ rw last refl,
    )

abbrev pub Short : List (List ℕ) → Type 0
Short ss = All (λ (s : List ℕ). length s + 108 < buf_len) ss

with_headers_refused :
    (codec : Codec) (d : Decoder) (seq type k i : ℕ) (ss : List (List ℕ))
    → k ≤ 255
    → Short ss
    → All
        (λ (p : List ℕ). Decoder.input codec d p ≡ some (fail, d))
        (with_headers seq type k (255 - k) i ss)
unfolding with_headers parse_header
with_headers_refused codec d seq type k i [] high short = tt
with_headers_refused codec d seq type k i (s ∷ ss) high short = (
  input_refuses codec d (header_bytes seq type k (255 - k) i ++ s) (omega (arith, short.0))
      (inr (omega (arith, high))),
  with_headers_refused codec d seq type k (i + 1) ss high short.1,
)

-- For each number `k` of data shards up to 255, rs_from_str accepts the pair `k:255-k` and makes it the row for
-- `k`; and every packet that the encoder makes of such a group, with its header in front of a shard that
-- fits, is refused by every decoder, which it leaves as it was.
pub full_group_refused :
    (codec : Codec) (d : Decoder) (par : FecParameter) (k : ℕ)
    → 1 ≤ k
    → k ≤ 255
    → (par' : FecParameter) × (rs_from_pairs par ((ℤ.pos k, ℤ.pos (255 - k)) ∷ []) ≡ some par')
      × (par'.rs_cnt ≡ k)
      × (par'.rs_par (k - 1) ≡ record { x = k; y = 255 - k })
      × ((seq type : ℕ) (ss : List (List ℕ))
          → Short ss
          → (let row = par'.rs_par (k - 1) in
              All
                (λ (p : List ℕ). Decoder.input codec d p ≡ some (fail, d))
                (with_headers seq type row.x row.y 0 ss)))
full_group_refused codec d par k low high =
    let (par', accepted, cnt, row) = full_pair par k low high in
    (
      par',
      accepted,
      cnt,
      row,
      λ seq type ss short. rw row (with_headers_refused codec d seq type k 0 ss high short),
    )
