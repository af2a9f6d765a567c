-- ===== src/Cook/Xor.antt =====
-- xor_tile of packet_cook.cpp, in all its forms: a buffer is combined with a tile that repeats. A vector
-- register is the function from the number of a byte in it; a load, an xor and a store are one step.
pub mod Tiled
pub mod Wide
use udpspeeder.Base.{ℕ, zero, suc, ◌+◌, ◌-◌, Bool, ltb, leb, ◌==◌, ◌&&◌, if◌then◌else◌}
use udpspeeder.Base.Bits.{bit_xor}
use udpspeeder.Base.Memory.{Memory}

-- `data`, and the variables `i` and `t` of the loops.
pub record Cursor : Type 0 where
  pub data' : Memory
  pub i : ℕ
  pub t : ℕ

-- The `w` bytes at `i` are loaded, combined with `key` and stored.
abbrev pub xor_store : Memory → ℕ → ℕ → (ℕ → ℕ) → Memory
xor_store m i w key q = if leb i q && ltb q (i + w) then bit_xor (m q) (key (q - i)) else m q

-- Two registers of `w` bytes as one, the lower first.
abbrev pub join : ℕ → (ℕ → ℕ) → (ℕ → ℕ) → ℕ → ℕ
join w k1 k2 j = if ltb j w then k1 j else k2 (j - w)

-- `for (; i + w <= len; ...)` on fuel.
abbrev pub for_width : (w : ℕ) → (Cursor → Cursor) → (len fuel : ℕ) → Cursor → Cursor
for_width w step len zero c = c
for_width w step len (suc fuel) c =
    let rest = for_width w step len fuel (step c) in if leb (c.i + w) len then rest else c

module _ (tile : Memory) (tile_len : ℕ) where
  abbrev pub load : ℕ → ℕ → ℕ
  load t j = tile (t + j)

  -- `t += w; if (t >= tile_len) t -= tile_len;`
  abbrev pub wrap : ℕ → ℕ → ℕ
  wrap w t = if leb tile_len (t + w) then t + w - tile_len else t + w

  -- `t += w; if (t >= tile_len) t = 0;`
  abbrev pub reset : ℕ → ℕ → ℕ
  reset w t = if leb tile_len (t + w) then 0 else t + w

  -- One vector of `w` bytes; with `w` of 1 the round of a scalar tail.
  abbrev pub vector_round : ℕ → Cursor → Cursor
  vector_round w c = record {
    data' = xor_store c.data' c.i w (load c.t);
    i = c.i + w;
    t = reset w c.t;
  }

  -- The same, and `t` is wrapped by a subtraction.
  abbrev pub wrap_round : ℕ → Cursor → Cursor
  wrap_round w c = record {
    data' = xor_store c.data' c.i w (load c.t);
    i = c.i + w;
    t = wrap w c.t;
  }

  -- 32 bytes with a key of two loads.
  abbrev pub pair_round : Cursor → Cursor
  pair_round c =
      let t' = wrap 16 c.t in
      record {
        data' = xor_store c.data' c.i 32 (join 16 (load c.t) (load t'));
        i = c.i + 32;
        t = wrap 16 t';
      }

  -- 64 bytes with a key of four loads.
  abbrev pub quad_round : Cursor → Cursor
  quad_round c =
      let t1 = wrap 16 c.t in
      let t2 = wrap 16 t1 in
      let t3 = wrap 16 t2 in
      record {
        data' =
            xor_store c.data' c.i 64
              (join 32 (join 16 (load c.t) (load t1)) (join 16 (load t2) (load t3)));
        i = c.i + 64;
        t = wrap 16 t3;
      }

  -- 32 or 64 bytes with a tile of 16 bytes, repeated in the register; `t` stays.
  abbrev pub broadcast_round_32 : Cursor → Cursor
  broadcast_round_32 c = record c {
    data' = xor_store c.data' c.i 32 (join 16 (load 0) (load 0));
    i = c.i + 32;
  }

  abbrev pub broadcast_round_64 : Cursor → Cursor
  broadcast_round_64 c = record c {
    data' =
        xor_store c.data' c.i 64 (join 32 (join 16 (load 0) (load 0)) (join 16 (load 0) (load 0)));
    i = c.i + 64;
  }

  -- Two vectors of NEON, each with its own load; here `t` goes back to 0.
  abbrev pub neon_round : Cursor → Cursor
  neon_round c =
      let t' = reset 16 c.t in
      record {
        data' = xor_store (xor_store c.data' c.i 16 (load c.t)) (c.i + 16) 16 (load t');
        i = c.i + 32;
        t = reset 16 t';
      }

  abbrev pub scalar_tail : (len : ℕ) → Cursor → Cursor
  scalar_tail len c = for_width 1 (vector_round 1) len len c

  abbrev pub start : Memory → Cursor
  start m = record { data' = m; i = 0; t = 0 }

  unfoldable pub xor_tile_avx2 : Memory → ℕ → Memory
  xor_tile_avx2 m len =
      let wide =
        (if tile_len == 16
          then for_width 32 broadcast_round_32 len len (start m)
          else for_width 32 pair_round len len (start m)) in
      (scalar_tail len (for_width 16 (vector_round 16) len len wide)).data'

  -- An `if` in place of a loop: at most one round is left.
  abbrev pub if_width : (w : ℕ) → (Cursor → Cursor) → ℕ → Cursor → Cursor
  if_width w step len c = if leb (c.i + w) len then step c else c

  unfoldable pub xor_tile_avx512 : Memory → ℕ → Memory
  xor_tile_avx512 m len =
      let wide =
        (if tile_len == 16
          then for_width 64 broadcast_round_64 len len (start m)
          else for_width 64 quad_round len len (start m)) in
      (scalar_tail len (if_width 16 (wrap_round 16) len (if_width 32 pair_round len wide))).data'

  -- The loops of xor_tile itself on x86 without AVX2, and with `w` of `sizeof(unsigned long)` on
  -- generic platforms.
  unfoldable pub xor_tile_words : (w : ℕ) → Memory → ℕ → Memory
  xor_tile_words w m len = (scalar_tail len (for_width w (vector_round w) len len (start m))).data'

  unfoldable pub xor_tile_neon : Memory → ℕ → Memory
  xor_tile_neon m len =
      (scalar_tail len
        (for_width 16 (vector_round 16) len len (for_width 32 neon_round len len (start m)))).data'

-- The forms that a build can have; `cpuid` decides between the first two when the program runs.
pub data Platform : Type 0 where
  avx2 sse2 neon : Platform
  word : ℕ → Platform

unfoldable pub vec_width : Platform → ℕ
vec_width Platform.avx2 = 16
vec_width Platform.sse2 = 16
vec_width Platform.neon = 16
vec_width (Platform.word w) = w

unfoldable pub xor_tile : Platform → Memory → ℕ → Memory → ℕ → Memory
xor_tile Platform.avx2 m len tile tile_len = xor_tile_avx2 tile tile_len m len
xor_tile Platform.sse2 m len tile tile_len = xor_tile_words tile tile_len 16 m len
xor_tile Platform.neon m len tile tile_len = xor_tile_neon tile tile_len m len
xor_tile (Platform.word w) m len tile tile_len = xor_tile_words tile tile_len w m len
