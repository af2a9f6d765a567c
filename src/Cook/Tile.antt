-- ===== src/Cook/Tile.antt =====
-- The tile of packet_cook.cpp: a pattern repeated up to a whole number of vectors.
pub mod Periodic
use udpspeeder.Base.{
  ℕ, zero, suc, ◌+◌, ◌-◌, ◌*◌, ◌/◌, ◌%◌, Bool, Option, none, some, ltb, leb, ◌==◌, ◌||◌, ◌&&◌,
  if◌then◌else◌, assert, ◌>>=◌, ◌>>◌,
}
use udpspeeder.Base.Memory.{Memory}
use udpspeeder.Cook.Xor.{Platform, vec_width, xor_tile}

-- `while (b) { int t = b; b = a % b; a = t; }` on fuel.
unfoldable pub gcd_on : (fuel a b : ℕ) → ℕ
gcd_on zero a b = a
gcd_on (suc fuel) a b = let rest = gcd_on fuel b (a % b) in if b == 0 then a else rest

-- Each round makes `b` smaller.
unfoldable pub cook_gcd : ℕ → ℕ → ℕ
cook_gcd a b = gcd_on (b + 1) a b

unfoldable pub cook_lcm : ℕ → ℕ → ℕ
cook_lcm a b = a / cook_gcd a b * b

-- `memcpy(m + dst, m' + src, n)`
abbrev pub copy : Memory → ℕ → Memory → ℕ → ℕ → Memory
copy m dst m' src n q = if leb dst q && ltb q (dst + n) then m' (q - dst + src) else m q

-- The loop of expand_tile on fuel: what is filled is copied behind itself.
unfoldable pub expand_on : (fuel tile_len filled : ℕ) → Memory → Memory
expand_on zero tile_len filled tile = tile
expand_on (suc fuel) tile_len filled tile =
    let left = tile_len - filled in
    let chunk = (if ltb filled left then filled else left) in
    let rest = expand_on fuel tile_len (filled + chunk) (copy tile filled tile 0 chunk) in
    if ltb filled tile_len then rest else tile

unfoldable pub expand_tile : Memory → ℕ → Memory → ℕ → Memory
expand_tile tile tile_len pat pat_len =
    expand_on tile_len tile_len pat_len (copy tile 0 pat 0 pat_len)

-- `junk` is what the stack holds where `tile` is; the vector behind the tile is there for loads that
-- straddle its end.
unfoldable pub xor_with_pattern : Platform → Memory → Memory → ℕ → Memory → ℕ → Option Memory
xor_with_pattern p junk m len pat pat_len = if pat_len == 0 || len == 0 then some m else (do
  let tile_len = cook_lcm pat_len (vec_width p)
  assert (leb tile_len 512)
  let tile = expand_tile junk tile_len pat pat_len
  some (xor_tile p m len (copy tile tile_len tile 0 (vec_width p)) tile_len))
