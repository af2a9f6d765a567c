-- ===== src/Convs/Fresh.antt =====
-- get_new_conv draws until a number is not in use.
use udpspeeder.Base.{
  All, ◌<◌, ◌^◌, ℕ, zero, suc, ◌+◌, ◌≤◌, ◌≡◌, ◌≢◌, refl, false, List, [], ◌∷◌, ◌++◌, some, arith,
  length, ◌==◌, ◌>>=◌, Bool-cases, inl, inr, length-append,
}
use udpspeeder.Convs.{Convs, is_conv_used, draw_nz, draw_unused, get_new_conv}

draw_unused_ends :
    (fuel : ℕ) (s : Convs) (before : List ℕ) (c : ℕ) (after : List ℕ)
    → length before + 1 ≤ fuel
    → c ≢ 0
    → is_conv_used s c ≡ false
    → All (λ r. r < 2 ^ 32) (before ++ c ∷ after)
    → (conv : ℕ) × (rest : List ℕ) × (draw_unused fuel s (before ++ c ∷ after) ≡ some (conv, rest))
      × (conv ≢ 0)
      × (is_conv_used s conv ≡ false)
      × (conv < 2 ^ 32)
draw_unused_ends zero s before c after enough nz fresh words = absurd (omega (arith, enough))
draw_unused_ends (suc fuel) s [] c after enough nz fresh words =
    (c, after, rw (draw_unused, nonzero, ◌>>=◌, fresh) refl, nz, fresh, words.0)
  where
    nonzero : draw_nz (c ∷ after) ≡ some (c, after)
    nonzero = ground arith
draw_unused_ends (suc fuel) s (r ∷ before) c after enough nz fresh words =
    elim (Bool-cases (r == 0)) [
      | inl zero_drawn ↦
          let (conv, rest, drawn, not_zero, not_used, word) =
            draw_unused_ends (suc fuel) s before c after (omega (arith, enough)) nz fresh words.1 in
          (conv, rest, rw (draw_unused, draw_nz, zero_drawn) drawn, not_zero, not_used, word)
      | inr nonzero ↦ elim (Bool-cases (is_conv_used s r)) [
        | inl used ↦
            let (conv, rest, drawn, not_zero, not_used, word) =
              draw_unused_ends fuel s before c after (omega (arith, enough)) nz fresh words.1 in
            (
              conv,
              rest,
              rw (draw_unused, draw_nz, nonzero, ◌>>=◌, used) drawn,
              not_zero,
              not_used,
              word,
            )
        | inr unused ↦ (
          r,
          before ++ c ∷ after,
          rw (draw_unused, draw_nz, nonzero, ◌>>=◌, unused) refl,
          (λ e. ground (arith, nonzero, e)),
          unused,
          words.0,
        )
      ]
    ]

-- Where the numbers that are drawn have 32 bits and hold one that is not 0 and not in use, get_new_conv returns, with a
-- number of 32 bits that is not 0 and not in use.
pub get_new_conv_returns :
    (s : Convs) (before : List ℕ) (c : ℕ) (after : List ℕ)
    → c ≢ 0
    → is_conv_used s c ≡ false
    → All (λ r. r < 2 ^ 32) (before ++ c ∷ after)
    → (conv : ℕ) × (rest : List ℕ) × (get_new_conv s (before ++ c ∷ after) ≡ some (conv, rest))
      × (conv ≢ 0)
      × (is_conv_used s conv ≡ false)
      × (conv < 2 ^ 32)
unfolding get_new_conv
get_new_conv_returns s before c after =
    draw_unused_ends (length (before ++ c ∷ after)) s before c after
      (omega (arith, length-append before (c ∷ after)))
