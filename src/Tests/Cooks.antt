-- ===== src/Tests/Cooks.antt =====
-- A packet of two bytes, with a key of three, three random bytes and the number of bytes for a checksum.
use udpspeeder.Base.{
  ℕ, ◌+◌, ◌*◌, ◌%◌, ◌<◌, ◌≡◌, refl, false, List, [], ◌∷◌, some, length, get_or, arith,
}
use udpspeeder.Base.Memory.{Memory}
use udpspeeder.Cook.Xor.{Platform, vec_width, xor_tile, xor_tile_avx512}
use udpspeeder.Cook.Xor.Wide.{repeated, xor_tile_repeats, xor_tile_avx512_repeats}
use udpspeeder.Cook.Tile.{cook_lcm, cook_gcd, gcd_on, xor_with_pattern}
use udpspeeder.Cook.Tile.Periodic.{xor_with_pattern_repeats}
use udpspeeder.Cook.{CookCtx, do_cook, de_cook, decooked}
use udpspeeder.Cook.Obscure.{Allowed}
use udpspeeder.Cook.RoundTrip.{Prepared, cook_round_trip}

abbrev data_bytes : Memory
data_bytes i = i + 1

abbrev stack : Memory
stack i = 77

abbrev key : List ℕ
key = 107 ∷ 101 ∷ 121 ∷ []

abbrev ctx : CookCtx
ctx = record {
  key = key;
  key_len = 3;
  key_tile_len = 48;
  key_tile = λ i. get_or key (i % 3) 0;
  iv_min = 2;
  iv_max = 32;
  disable_checksum = false;
  disable_obscure = false;
  disable_xor = false;
}

three_bytes : cook_lcm 3 (vec_width Platform.avx2) ≡ 48
unfolding cook_lcm cook_gcd gcd_on vec_width
three_bytes = refl

ctx-Prepared : Prepared Platform.avx2 ctx
unfolding vec_width
ctx-Prepared = record { vectors = 3; whole = refl; wide = omega arith }

iv-Allowed : Allowed Platform.avx2 ctx (9 ∷ 200 ∷ 31 ∷ [])
unfolding vec_width
iv-Allowed = record {
  wide = omega arith;
  at_least = omega arith;
  at_most = omega arith;
  byte = omega arith;
  tile = omega (arith, three_bytes);
}

cook_round_trip_example :
    (cooked : Memory) × (cooked_len : ℕ) × (out : Memory) × (do_cook Platform.avx2 length stack ctx
        (9 ∷ 200 ∷ 31 ∷ [])
        data_bytes
        2
      ≡ some (cooked, cooked_len))
    × (de_cook Platform.avx2 length stack ctx cooked cooked_len ≡ some (decooked out 2))
    × ((q : ℕ) → q < 2 → out q ≡ data_bytes q)
cook_round_trip_example =
    cook_round_trip Platform.avx2 length stack stack ctx (9 ∷ 200 ∷ 31 ∷ []) data_bytes 2
      ctx-Prepared iv-Allowed (omega arith)

xor_tile_repeats_example :
    xor_tile Platform.neon data_bytes 50 ctx.key_tile (vec_width Platform.neon * 3) 49
    ≡ repeated data_bytes 50 ctx.key_tile (vec_width Platform.neon * 3) 49
unfolding vec_width
xor_tile_repeats_example =
    xor_tile_repeats Platform.neon 3 data_bytes ctx.key_tile 50 49 (omega arith) (omega arith)

xor_tile_avx512_repeats_example :
    xor_tile_avx512 ctx.key_tile (16 * 3) data_bytes 150 149
    ≡ repeated data_bytes 150 ctx.key_tile (16 * 3) 149
xor_tile_avx512_repeats_example =
    xor_tile_avx512_repeats ctx.key_tile 3 data_bytes 150 149 (omega arith)

xor_with_pattern_repeats_example :
    (m' : Memory) × (xor_with_pattern Platform.avx2 stack data_bytes 40 (λ j. j + 100) 3 ≡ some m')
    × ((q : ℕ) → m' q ≡ repeated data_bytes 40 (λ j. j + 100) 3 q)
unfolding vec_width
xor_with_pattern_repeats_example =
    xor_with_pattern_repeats Platform.avx2 stack data_bytes 40 (λ j. j + 100) 3 (omega arith)
      (omega arith) (omega (arith, three_bytes))
