-- ===== src/Cook/Obscure.antt =====
-- de_obscure undoes do_obscure.
use udpspeeder.Base.{
  ℕ, zero, suc, ◌+◌, ◌-◌, ◌%◌, ◌≤◌, ◌<◌, ◌≡◌, refl, ◌∙◌, false, List, some, length, ltb, ◌==◌, ◌||◌,
  if◌then◌else◌, arith, Bool-cases, inl, inr, lt→ltb,
}
use udpspeeder.Base.Bits.{bit_xor_cancel}
use udpspeeder.Base.Memory.{Memory, memcpy, memcpy_below, store}
use udpspeeder.Cook.Xor.{Platform, vec_width}
use udpspeeder.Cook.Xor.Wide.{repeated}
use udpspeeder.Cook.Tile.{cook_lcm, xor_with_pattern}
use udpspeeder.Cook.Tile.Periodic.{xor_with_pattern_repeats}
use udpspeeder.Cook.{CookCtx, cook_buf_len, do_obscure, de_obscure}

-- The random bytes, as many as the settings allow.
pub record Allowed (p : Platform) (ctx : CookCtx) (iv : List ℕ) : Type 0 where
  pub wide : 0 < vec_width p
  pub at_least : ctx.iv_min ≤ length iv
  pub at_most : length iv ≤ ctx.iv_max
  pub byte : length iv < 256
  pub tile : cook_lcm (length iv) (vec_width p) ≤ 512

abbrev mixed_with : Memory → ℕ → Memory → ℕ → Memory
mixed_with m len pat n q = if n == 0 then m q else repeated m len pat n q

xor_with_pattern_any :
    (p : Platform) (junk m : Memory) (len : ℕ) (pat : Memory) (n : ℕ)
    → 0 < vec_width p
    → cook_lcm n (vec_width p) ≤ 512
    → (m' : Memory) × (xor_with_pattern p junk m len pat n ≡ some m')
      × ((q : ℕ) → m' q ≡ mixed_with m len pat n q)
xor_with_pattern_any p junk m len pat zero wide small =
    (m, (unfold xor_with_pattern in refl), λ q. refl)
xor_with_pattern_any p junk m len pat (suc n) wide small =
    let (m', run, made) =
      xor_with_pattern_repeats p junk m len pat (suc n) wide (omega arith) small in
    (m', run, λ q. made q ∙ ground arith)

de_obscure_runs :
    (p : Platform) (junk' m2 m4 iv_at : Memory) (ctx : CookCtx) (iv : List ℕ) (len : ℕ)
    → Allowed p ctx iv
    → m2 (len + length iv) % 256 ≡ length iv
    → (λ j. m2 (len + j)) ≡ iv_at
    → xor_with_pattern p junk' m2 len iv_at (length iv) ≡ some m4
    → de_obscure p junk' ctx m2 (len + length iv + 1) ≡ some (some (m4, len))
unfolding de_obscure
de_obscure_runs p junk' m2 m4 iv_at ctx iv len a last same back =
    let e : len + length iv + 1 - 1 ≡ len + length iv = omega arith in
    let f : len + length iv - length iv ≡ len = omega arith in
    let accepted : (ltb (len + length iv + 1) 1
          || ((ltb (length iv) ctx.iv_min || ltb ctx.iv_max (length iv))
              || ltb (len + length iv + 1) (1 + length iv)))
        ≡ false =
      ground (arith, a.at_least, a.at_most) in
    rw (e, last, f, accepted, same, back) refl

module _ (p : Platform) (junk junk' : Memory) (ctx : CookCtx) (iv : List ℕ) (m : Memory)
    (len : ℕ) where
  abbrev mixed : Memory
  mixed = store (memcpy m len iv) (length iv + len) (length iv % 256)

  abbrev iv_at : Memory
  iv_at j = mixed (len + j)

  -- Behind `len` nothing changes, so that de_obscure finds the same bytes.
  kept :
      (m2 : Memory)
      → ((q : ℕ) → m2 q ≡ mixed_with mixed len iv_at (length iv) q)
      → (q : ℕ) → len ≤ q
      → m2 q ≡ mixed q
  kept m2 h q le = ground (arith, h q)

  same_iv :
      (m2 : Memory)
      → ((q : ℕ) → m2 q ≡ mixed_with mixed len iv_at (length iv) q)
      → (λ j. m2 (len + j)) ≡ iv_at
  same_iv m2 h = λ i j. kept m2 h (len + j) (omega arith) i

  mixed_below : (q : ℕ) → q < len → mixed q ≡ m q
  mixed_below q h = ground (arith, memcpy_below m len iv q h)

  undone :
      (m2 m4 : Memory)
      → ((q : ℕ) → m2 q ≡ mixed_with mixed len iv_at (length iv) q)
      → ((q : ℕ) → m4 q ≡ mixed_with m2 len iv_at (length iv) q)
      → (q : ℕ) → q < len
      → m4 q ≡ m q
  undone m2 m4 h h' q below = elim (Bool-cases (length iv == 0)) [
    | inl empty ↦ ground (arith, empty, h q, h' q, mixed_below q below)
    | inr full ↦ ground (
      arith,
      full,
      h q,
      h' q,
      mixed_below q below,
      bit_xor_cancel (mixed q) (iv_at (q % length iv)),
    )
  ]

  pub obscure_undone :
      Allowed p ctx iv
      → len < cook_buf_len
      → (m2 : Memory) × (m4 : Memory) × (do_obscure p junk iv m len
          ≡ some (m2, len + length iv + 1))
        × (de_obscure p junk' ctx m2 (len + length iv + 1) ≡ some (some (m4, len)))
        × ((q : ℕ) → q < len → m4 q ≡ m q)
  unfolding do_obscure
  obscure_undone a room =
      let (m2, run, made) = xor_with_pattern_any p junk mixed len iv_at (length iv) a.wide a.tile in
      let (m4, back, found) = xor_with_pattern_any p junk' m2 len iv_at (length iv) a.wide a.tile in
      let last : m2 (len + length iv) % 256 ≡ length iv =
        ground (arith, kept m2 made (len + length iv) (omega arith), a.byte) in
      (
        m2,
        m4,
        rw (lt→ltb len cook_buf_len room, run) refl,
        de_obscure_runs p junk' m2 m4 iv_at ctx iv len a last (same_iv m2 made) back,
        undone m2 m4 made found,
      )
