-- ===== src/Cook/RoundTrip.antt =====
-- de_cook undoes do_cook.
use udpspeeder.Base.{
  ℕ, ◌+◌, ◌*◌, ◌%◌, ◌≤◌, ◌<◌, ◌≡◌, refl, ◌∙◌, ap, subst, Bool, true, false, List, some, length, ltb,
  ◌==◌, if◌then◌else◌, arith, Bool-cases, inl, inr, le→leb, get_or,
}
use udpspeeder.Base.Bits.{bit_xor_cancel}
use udpspeeder.Base.Memory.{Memory}
use udpspeeder.Cook.Xor.{Platform, vec_width, xor_tile}
use udpspeeder.Cook.Xor.Wide.{repeated, xor_tile_repeats}
use udpspeeder.Cook.Tile.{cook_lcm, expand_tile, copy}
use udpspeeder.Cook.Tile.Periodic.{lcm-Times}
use udpspeeder.Cook.{
  CookCtx, cook_buf_len, prepare_key, encrypt_0, xor_step, obscure_step, de_obscure_step,
  do_obscure, de_obscure, put_crc32, rm_crc32, do_cook, de_cook, check_crc, decooked,
}
use udpspeeder.Cook.Obscure.{Allowed, obscure_undone}
use udpspeeder.Cook.Checksum.{rm-put}

repeated_twice :
    (m : Memory) (len : ℕ) (tile : Memory) (l : ℕ) → repeated (repeated m len tile l) len tile l ≡ m
repeated_twice m len tile l = λ i q. go q i
  where
    go : (q : ℕ) → repeated (repeated m len tile l) len tile l q ≡ m q
    go q = elim (Bool-cases (ltb q len)) [
      | inl below ↦ rw below (bit_xor_cancel (m q) (tile (q % l)))
      | inr above ↦ rw above refl
    ]

-- The tile of the key is a whole number of vectors.
pub record Prepared (p : Platform) (ctx : CookCtx) : Type 0 where
  pub vectors : ℕ
  pub whole : vec_width p * vectors ≡ ctx.key_tile_len
  pub wide : 0 < vec_width p

xor_tile-repeated :
    (p : Platform) (m tile : Memory) (len b : ℕ)
    → 0 < vec_width p
    → 0 < b
    → xor_tile p m len tile (vec_width p * b) ≡ repeated m len tile (vec_width p * b)
xor_tile-repeated p m tile len b wide pos = λ i q. xor_tile_repeats p b m tile len q wide pos i

encrypt_0_twice :
    (p : Platform) (ctx : CookCtx) (m : Memory) (len : ℕ)
    → Prepared p ctx
    → encrypt_0 p ctx (encrypt_0 p ctx m len) len ≡ m
unfolding encrypt_0
encrypt_0_twice p ctx m len h = elim (Bool-cases (ctx.key_tile_len == 0)) [
  | inl empty ↦ rw empty refl
  | inr full ↦
      let pos : 0 < h.vectors = grind (arith, full, h.whole) in
      let once = λ (x : Memory).
        subst (λ l. xor_tile p x len ctx.key_tile l ≡ repeated x len ctx.key_tile l) h.whole
          (xor_tile-repeated p x ctx.key_tile len h.vectors h.wide pos) in
      rw full (
        once _
        ∙ ap (λ x. repeated x len ctx.key_tile ctx.key_tile_len) (once m)
        ∙ repeated_twice m len ctx.key_tile ctx.key_tile_len)
]

xor_step_twice :
    (p : Platform) (ctx : CookCtx) (m : Memory) (len : ℕ)
    → Prepared p ctx
    → xor_step p ctx (xor_step p ctx m len) len ≡ m
unfolding xor_step
xor_step_twice p ctx m len h = go ctx.disable_xor
  where
    go :
        (off : Bool)
        → (if off
            then (if off then m else encrypt_0 p ctx m len)
            else encrypt_0 p ctx (if off then m else encrypt_0 p ctx m len) len)
          ≡ m
    go true = refl
    go false = encrypt_0_twice p ctx m len h

obscure_step-undone :
    (p : Platform) (junk junk' : Memory) (ctx : CookCtx) (iv : List ℕ) (m : Memory) (len : ℕ)
    → Allowed p ctx iv
    → len < cook_buf_len
    → (m2 : Memory) × (len2 : ℕ) × (m4 : Memory) × (obscure_step p junk ctx iv m len
        ≡ some (m2, len2))
      × (de_obscure_step p junk' ctx m2 len2 ≡ some (some (m4, len)))
      × ((q : ℕ) → q < len → m4 q ≡ m q)
unfolding obscure_step de_obscure_step
obscure_step-undone p junk junk' ctx iv m len a room = go ctx.disable_obscure
  where
    go :
        (off : Bool)
        → (m2 : Memory) × (len2 : ℕ) × (m4 : Memory) × ((if off
              then some (m, len)
              else do_obscure p junk iv m len)
            ≡ some (m2, len2))
          × ((if off then some (some (m2, len2)) else de_obscure p junk' ctx m2 len2)
              ≡ some (some (m4, len)))
          × ((q : ℕ) → q < len → m4 q ≡ m q)
    go true = (m, len, m, refl, refl, λ q below. refl)
    go false =
        let (m2, m4, run, back, kept) = obscure_undone p junk junk' ctx iv m len a room in
        (m2, len + length iv + 1, m4, run, back, kept)

put_crc32-le :
    (p : Platform) (crc32c : List ℕ → ℕ) (ctx : CookCtx) (m : Memory) (len : ℕ)
    → (put_crc32 p crc32c ctx m len).1 ≤ len + 4
unfolding put_crc32
put_crc32-le p crc32c ctx m len = grind arith

check_crc_accepts :
    (p : Platform) (crc32c : List ℕ → ℕ) (ctx : CookCtx) (m : Memory) (len n : ℕ)
    → rm_crc32 p crc32c ctx m len ≡ some n
    → check_crc p crc32c ctx m len ≡ decooked m n
unfolding check_crc
check_crc_accepts p crc32c ctx m len n h = rw (check_crc, h) refl

-- With a key that is prepared, random bytes as the settings allow and a length that leaves room for
-- the checksum, on every platform and for each choice of the three steps: what do_cook makes of a
-- packet, de_cook takes back to the packet's length and bytes, whatever stood on the stack.
pub cook_round_trip :
    (p : Platform) (crc32c : List ℕ → ℕ) (junk junk' : Memory) (ctx : CookCtx) (iv : List ℕ)
    (m : Memory) (len : ℕ)
    → Prepared p ctx
    → Allowed p ctx iv
    → len + 4 < cook_buf_len
    → (cooked : Memory) × (cooked_len : ℕ) × (out : Memory) × (do_cook p crc32c junk ctx iv m len
        ≡ some (cooked, cooked_len))
      × (de_cook p crc32c junk' ctx cooked cooked_len ≡ some (decooked out len))
      × ((q : ℕ) → q < len → out q ≡ m q)
unfolding do_cook de_cook
cook_round_trip p crc32c junk junk' ctx iv m len h a room =
    let (m1, len1) = put_crc32 p crc32c ctx m len in
    let (m2, len2, m4, run, back, kept) =
      obscure_step-undone p junk junk' ctx iv m1 len1 a
        (omega (arith, put_crc32-le p crc32c ctx m len)) in
    let (sum, same) = rm-put p crc32c ctx m m4 len kept in
    (
      xor_step p ctx m2 len2,
      len2,
      m4,
      rw run refl,
      rw (xor_step_twice p ctx m2 len2 h, back)
          (ap some (check_crc_accepts p crc32c ctx m4 len1 len sum)),
      same,
    )

-- A key whose tile fits the buffer is prepared, and no switch is touched.
pub prepare_key-Prepared :
    (p : Platform) (ctx : CookCtx)
    → 0 < vec_width p
    → cook_lcm (length ctx.key) (vec_width p) + vec_width p ≤ 16000
    → (ctx' : CookCtx) × (prepare_key p ctx ≡ some ctx')
      × Prepared p ctx'
      × (ctx'.disable_checksum ≡ ctx.disable_checksum)
      × (ctx'.disable_obscure ≡ ctx.disable_obscure)
      × (ctx'.disable_xor ≡ ctx.disable_xor)
unfolding prepare_key
prepare_key-Prepared p ctx wide fits = elim (Bool-cases (length ctx.key == 0)) [
  | inl empty ↦ (
    record ctx { key_len = 0; key_tile_len = 0 },
    rw empty refl,
    record { vectors = 0; whole = omega arith; wide = wide },
    refl,
    refl,
    refl,
  )
  | inr full ↦
      let tile_len = cook_lcm (length ctx.key) (vec_width p) in
      let tile = expand_tile ctx.key_tile tile_len (λ i. get_or ctx.key i 0) (length ctx.key) in
      let (_, _, (y, whole)) =
        lcm-Times (length ctx.key) (vec_width p) (ground (arith, full)) wide in
      (
        record ctx {
          key_len = length ctx.key;
          key_tile_len = tile_len;
          key_tile = copy tile tile_len tile 0 (vec_width p);
        },
        rw (full, le→leb _ _ fits) refl,
        record { vectors = y; whole = whole; wide = wide },
        refl,
        refl,
        refl,
      )
]
