-- ===== src/Cook.antt =====
-- packet_cook.cpp and packet_cook.h: a packet gets a checksum, is mixed with random bytes that go along
-- with it, and is combined with the key; and the way back. crc32c of crc32c.h is an argument, from the
-- bytes it reads to the sum. `none` is a failed `assert`.
pub mod Xor
pub mod Tile
pub mod Obscure
pub mod Checksum
pub mod RoundTrip
use udpspeeder.Base.{
  ℕ, zero, suc, ◌+◌, ◌-◌, ◌*◌, ◌/◌, ◌%◌, ◌^◌, Bool, true, false, not, List, [], ◌∷◌, Option, none,
  some, length, get_or, ltb, leb, ◌==◌, ◌||◌, ◌&&◌, if◌then◌else◌, assert, ◌>>=◌, ◌>>◌,
}
use udpspeeder.Base.Memory.{Memory, memcpy, slice, store}
use udpspeeder.Bytes.{write_u32, read_u32}
use Xor.{Platform, vec_width, xor_tile}
use Tile.{cook_lcm, expand_tile, copy, xor_with_pattern}

-- `key` is the text in front of its zero.
pub record CookCtx : Type 0 where
  pub key : List ℕ
  pub key_len : ℕ
  pub key_tile_len : ℕ
  pub key_tile : Memory
  pub iv_min : ℕ
  pub iv_max : ℕ
  pub disable_checksum : Bool
  pub disable_obscure : Bool
  pub disable_xor : Bool

abbrev pub cook_buf_len : ℕ
cook_buf_len = 3800

module _ (p : Platform) where
  unfoldable pub prepare_key : CookCtx → Option CookCtx
  prepare_key ctx =
      if length ctx.key == 0 then some (record ctx { key_len = 0; key_tile_len = 0 }) else (do
        let tile_len = cook_lcm (length ctx.key) (vec_width p)
        assert (leb (tile_len + vec_width p) 16000)
        let tile = expand_tile ctx.key_tile tile_len (λ i. get_or ctx.key i 0) (length ctx.key)
        some (record ctx {
          key_len = length ctx.key;
          key_tile_len = tile_len;
          key_tile = copy tile tile_len tile 0 (vec_width p);
        }))

  unfoldable pub encrypt_0 : CookCtx → Memory → ℕ → Memory
  encrypt_0 ctx m len =
      if ctx.key_tile_len == 0 then m else xor_tile p m len ctx.key_tile ctx.key_tile_len

  -- `iv` is the random bytes, as many as `random_between` has chosen.
  unfoldable pub do_obscure : (junk : Memory) → List ℕ → Memory → ℕ → Option (Memory × ℕ)
  do_obscure junk iv m len = do
    assert (ltb len cook_buf_len)
    let mixed = store (memcpy m len iv) (length iv + len) (length iv % 256)
    m' ← xor_with_pattern p junk mixed len (λ j. mixed (len + j)) (length iv)
    some (m', len + length iv + 1)

  -- The inner `none` is the return of -1.
  unfoldable pub de_obscure : (junk : Memory) → CookCtx → Memory → ℕ → Option (Option (Memory × ℕ))
  de_obscure junk ctx m len =
      let iv_len = m (len - 1) % 256 in
      let len' = len - 1 - iv_len in
      if ltb len 1 || ((ltb iv_len ctx.iv_min || ltb ctx.iv_max iv_len) || ltb len (1 + iv_len))
      then some none
      else (do
        m' ← xor_with_pattern p junk m len' (λ j. m (len' + j)) iv_len
        some (some (m', len')))

  -- The steps under their switches.
  unfoldable pub xor_step : CookCtx → Memory → ℕ → Memory
  xor_step ctx m len = if ctx.disable_xor then m else encrypt_0 ctx m len

  unfoldable pub obscure_step :
      (junk : Memory) → CookCtx → List ℕ → Memory → ℕ → Option (Memory × ℕ)
  obscure_step junk ctx iv m len =
      if ctx.disable_obscure then some (m, len) else do_obscure junk iv m len

  unfoldable pub de_obscure_step :
      (junk : Memory) → CookCtx → Memory → ℕ → Option (Option (Memory × ℕ))
  de_obscure_step junk ctx m len =
      if ctx.disable_obscure then some (some (m, len)) else de_obscure junk ctx m len

  module _ (crc32c : List ℕ → ℕ) where
    abbrev pub crc_of : Memory → ℕ → ℕ
    crc_of m len = crc32c (slice m 0 len) % 2 ^ 32

    unfoldable pub put_crc32 : CookCtx → Memory → ℕ → Memory × ℕ
    put_crc32 ctx m len =
        if ctx.disable_checksum then (m, len) else (write_u32 m len (crc_of m len), len + 4)

    -- `none` is the return of -1; the result is the new length.
    unfoldable pub rm_crc32 : CookCtx → Memory → ℕ → Option ℕ
    rm_crc32 ctx m len =
        if ctx.disable_checksum
        then some len
        else if ltb len 4
        then none
        else if crc_of m (len - 4) == read_u32 m (len - 4)
        then some (len - 4)
        else none

    unfoldable pub do_cook : (junk : Memory) → CookCtx → List ℕ → Memory → ℕ → Option (Memory × ℕ)
    do_cook junk ctx iv m len =
        let (m1, len1) = put_crc32 ctx m len in
        obscure_step junk ctx iv m1 len1 >>= λ (m2, len2). some (xor_step ctx m2 len2, len2)

-- 0, -1 and -2.
pub data Decooked : Type 0 where
  decooked : Memory → ℕ → Decooked
  bad_obscure bad_checksum : Decooked

unfoldable pub check_crc : Platform → (List ℕ → ℕ) → CookCtx → Memory → ℕ → Decooked
check_crc p crc32c ctx m len = elim (rm_crc32 p crc32c ctx m len) [
  | none ↦ bad_checksum
  | some len' ↦ decooked m len'
]

unfoldable pub de_cook :
    Platform → (List ℕ → ℕ) → (junk : Memory) → CookCtx → Memory → ℕ → Option Decooked
de_cook p crc32c junk ctx m len = do
  r ← de_obscure_step p junk ctx (xor_step p ctx m len) len
  some (elim r [ none ↦ bad_obscure | some (m2, len2) ↦ check_crc p crc32c ctx m2 len2 ])
