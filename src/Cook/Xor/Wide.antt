-- ===== src/Cook/Xor/Wide.antt =====
-- The wide rounds of xor_tile keep the tile in step, and each form of it is the plain repetition.
use native.Mathlib.Nat.{zero-mod}
use udpspeeder.Base.{
  ℕ, ◌+◌, ◌*◌, ◌%◌, ◌≤◌, ◌<◌, ◌≡◌, refl, ◌∙◌, subst, true, ltb, leb, ◌==◌, if◌then◌else◌, arith,
  Bool-cases, inl, inr,
}
use udpspeeder.Base.Bits.{bit_xor}
use udpspeeder.Base.Memory.{Memory}
use udpspeeder.Cook.Xor.{
  Cursor, join, for_width, load, wrap, reset, vector_round, pair_round, quad_round,
  broadcast_round_32, broadcast_round_64, neon_round, scalar_tail, start, if_width, xor_tile_avx2,
  xor_tile_avx512, xor_tile_words, xor_tile_neon, Platform, vec_width, xor_tile,
}
use udpspeeder.Cook.Xor.Tiled.{
  Upto, xor_store-Upto, for_width_keeps, pat, Aligned, Matches, join-Matches, load-Matches,
  vector_round-Aligned, wrap_round-Aligned, wrap-next, reset-next, Cut, Aligned-Cut,
  vector_round-Cut, scalar_reaches,
}

module _ (tile : Memory) (b : ℕ) (m : Memory) (len : ℕ) (pos : 0 < b) where
  abbrev Vectors : Cursor → Type 0
  Vectors c = Aligned tile 16 b m len c

  wrap-hop : (n t : ℕ) → t ≡ 16 * (n % b) → wrap tile (16 * b) 16 t ≡ 16 * ((n + 1) % b)
  wrap-hop n t e = rw e (wrap-next tile 16 b m len n (omega arith) pos)

  reset-hop : (n t : ℕ) → t ≡ 16 * (n % b) → reset tile (16 * b) 16 t ≡ 16 * ((n + 1) % b)
  reset-hop n t e = rw e (reset-next tile 16 b m len n (omega arith) pos)

  -- Two loads in a row.
  pair-Matches :
      (n i t : ℕ)
      → i ≡ 16 * n
      → t ≡ 16 * (n % b)
      → Matches tile 16 b m len
          (join 16 (load tile (16 * b) t) (load tile (16 * b) (wrap tile (16 * b) 16 t)))
          i
          32
  pair-Matches n i t ie te =
      join-Matches tile 16 b m len _ _ i 16 16 (load-Matches tile 16 b m len n i t pos ie te)
        (load-Matches tile 16 b m len (n + 1) (i + 16) _ pos (omega arith) (wrap-hop n t te))

  pair_round-Aligned :
      (c : Cursor) → Vectors c → c.i + 32 ≤ len → Vectors (pair_round tile (16 * b) c)
  pair_round-Aligned c a room = record {
    n = a.n + 1 + 1;
    i_eq = omega (arith, a.i_eq);
    t_eq = wrap-hop (a.n + 1) _ (wrap-hop a.n c.t a.t_eq);
    done =
        xor_store-Upto (pat tile 16 b m len) m c.data' c.i 32 _ a.done
          (pair-Matches a.n c.i c.t a.i_eq a.t_eq);
    inside = room;
  }

  quad_round-Aligned :
      (c : Cursor) → Vectors c → c.i + 64 ≤ len → Vectors (quad_round tile (16 * b) c)
  quad_round-Aligned c a room =
      let t2 = wrap-hop (a.n + 1) _ (wrap-hop a.n c.t a.t_eq) in
      record {
        n = a.n + 1 + 1 + 1 + 1;
        i_eq = omega (arith, a.i_eq);
        t_eq = wrap-hop (a.n + 1 + 1 + 1) _ (wrap-hop (a.n + 1 + 1) _ t2);
        done = xor_store-Upto (pat tile 16 b m len) m c.data' c.i 64 _ a.done (
            join-Matches tile 16 b m len _ _ c.i 32 32 (pair-Matches a.n c.i c.t a.i_eq a.t_eq)
              (pair-Matches (a.n + 1 + 1) (c.i + 32) _ (omega (arith, a.i_eq)) t2));
        inside = room;
      }

  neon_round-Aligned :
      (c : Cursor) → Vectors c → c.i + 32 ≤ len → Vectors (neon_round tile (16 * b) c)
  neon_round-Aligned c a room =
      let t1 = reset-hop a.n c.t a.t_eq in
      let e : c.i + 16 + 16 ≡ c.i + 32 = omega arith in
      let first =
        xor_store-Upto (pat tile 16 b m len) m c.data' c.i 16 _ a.done
          (load-Matches tile 16 b m len a.n c.i c.t pos a.i_eq a.t_eq) in
      let second =
        xor_store-Upto (pat tile 16 b m len) m _ (c.i + 16) 16 _ first
          (load-Matches tile 16 b m len (a.n + 1) (c.i + 16) _ pos (omega (arith, a.i_eq)) t1) in
      record {
        n = a.n + 1 + 1;
        i_eq = omega (arith, a.i_eq);
        t_eq = reset-hop (a.n + 1) _ t1;
        done =
            subst (λ i. Upto (pat tile 16 b m len) m i (neon_round tile (16 * b) c).data') e second;
        inside = room;
      }

module _ (tile : Memory) (m : Memory) (len : ℕ) where
  abbrev Vectors16 : Cursor → Type 0
  Vectors16 c = Aligned tile 16 1 m len c

  -- A tile of one vector looks the same at each multiple of 16.
  load_0-Matches : (n i : ℕ) → i ≡ 16 * n → Matches tile 16 1 m len (load tile 16 0) i 16
  load_0-Matches n i ie = load-Matches tile 16 1 m len n i 0 (omega arith) ie (omega arith)

  broadcast_round_32-Aligned :
      (c : Cursor) → Vectors16 c → c.i + 32 ≤ len → Vectors16 (broadcast_round_32 tile 16 c)
  broadcast_round_32-Aligned c a room = record {
    n = a.n + 2;
    i_eq = omega (arith, a.i_eq);
    t_eq = omega (arith, a.t_eq);
    done = xor_store-Upto (pat tile 16 1 m len) m c.data' c.i 32 _ a.done (
        join-Matches tile 16 1 m len _ _ c.i 16 16 (load_0-Matches a.n c.i a.i_eq)
          (load_0-Matches (a.n + 1) (c.i + 16) (omega (arith, a.i_eq))));
    inside = room;
  }

  broadcast_round_64-Aligned :
      (c : Cursor) → Vectors16 c → c.i + 64 ≤ len → Vectors16 (broadcast_round_64 tile 16 c)
  broadcast_round_64-Aligned c a room = record {
    n = a.n + 4;
    i_eq = omega (arith, a.i_eq);
    t_eq = omega (arith, a.t_eq);
    done = xor_store-Upto (pat tile 16 1 m len) m c.data' c.i 64 _ a.done (
        join-Matches tile 16 1 m len _ _ c.i 32 32
          (join-Matches tile 16 1 m len _ _ c.i 16 16 (load_0-Matches a.n c.i a.i_eq)
            (load_0-Matches (a.n + 1) (c.i + 16) (omega (arith, a.i_eq))))
          (join-Matches tile 16 1 m len _ _ (c.i + 32) 16 16
            (load_0-Matches (a.n + 2) (c.i + 32) (omega (arith, a.i_eq)))
            (load_0-Matches (a.n + 3) (c.i + 32 + 16) (omega (arith, a.i_eq)))));
    inside = room;
  }

-- What the buffer is to become.
abbrev pub repeated : Memory → ℕ → Memory → ℕ → Memory
repeated m len tile tile_len q = if ltb q len then bit_xor (m q) (tile (q % tile_len)) else m q

module _ (tile : Memory) (w b : ℕ) (m : Memory) (len : ℕ) (wpos : 0 < w) (pos : 0 < b) where
  abbrev Blocks : Cursor → Type 0
  Blocks c = Aligned tile w b m len c

  start-Aligned : Blocks (start tile (w * b) m)
  start-Aligned = record {
    n = 0;
    i_eq = omega arith;
    t_eq = rw (zero-mod b) (omega arith);
    done = λ q. ground arith;
    inside = omega arith;
  }

  -- The scalar tail ends the work.
  tail_done :
      (c : Cursor)
      → Blocks c
      → (q : ℕ) → (scalar_tail tile (w * b) len c).data' q ≡ repeated m len tile (w * b) q
  tail_done c a q =
      let area : 0 < w * b = grind (arith, wpos, pos) in
      let cut =
        for_width_keeps (Cut tile w b m len) 1 (vector_round tile (w * b) 1) len
          (vector_round-Cut tile w b m len area) len c (Aligned-Cut tile w b m len c wpos pos a) in
      cut.done q ∙ rw (scalar_reaches tile w b m len len c a.inside (omega arith)) refl

  words_repeat : (q : ℕ) → xor_tile_words tile (w * b) w m len q ≡ repeated m len tile (w * b) q
  unfolding xor_tile_words
  words_repeat = tail_done _ (
      for_width_keeps Blocks w (vector_round tile (w * b) w) len
        (vector_round-Aligned tile w b m len wpos pos) len _ start-Aligned)

module _ (tile : Memory) (b : ℕ) (m : Memory) (len : ℕ) (pos : 0 < b) where
  rounds_left :
      (c : Cursor)
      → Vectors tile b m len pos c
      → Vectors tile b m len pos (for_width 16 (vector_round tile (16 * b) 16) len len c)
  rounds_left =
      for_width_keeps (Vectors tile b m len pos) 16 _ len
        (vector_round-Aligned tile 16 b m len (omega arith) pos) len

  ends :
      (c : Cursor)
      → Vectors tile b m len pos c
      → (q : ℕ) → (scalar_tail tile (16 * b) len c).data' q ≡ repeated m len tile (16 * b) q
  ends = tail_done tile 16 b m len (omega arith) pos

  begins : Vectors tile b m len pos (start tile (16 * b) m)
  begins = start-Aligned tile 16 b m len (omega arith) pos

  neon_repeats : (q : ℕ) → xor_tile_neon tile (16 * b) m len q ≡ repeated m len tile (16 * b) q
  unfolding xor_tile_neon
  neon_repeats = ends _ (
      rounds_left _ (
        for_width_keeps (Vectors tile b m len pos) 32 _ len (neon_round-Aligned tile b m len pos)
          len _ begins))

  if_width_keeps :
      (v : ℕ) (step : Cursor → Cursor)
      → ((c : Cursor)
          → Vectors tile b m len pos c
          → c.i + v ≤ len
          → Vectors tile b m len pos (step c))
      → (c : Cursor) → Vectors tile b m len pos c
      → Vectors tile b m len pos (if_width tile (16 * b) v step len c)
  if_width_keeps v step s c p = elim (Bool-cases (leb (c.i + v) len)) [
    | inl go ↦ rw go (s c p (ground arith))
    | inr stop ↦ rw stop p
  ]

  one_vector : (16 * b == 16) ≡ true → 1 ≡ b
  one_vector h = ground arith

  -- The first loop of xor_tile_avx2, for both lengths of the tile.
  wide_32 : Vectors tile b m len pos (
      if 16 * b == 16
      then for_width 32 (broadcast_round_32 tile (16 * b)) len len (start tile (16 * b) m)
      else for_width 32 (pair_round tile (16 * b)) len len (start tile (16 * b) m))
  wide_32 = elim (Bool-cases (16 * b == 16)) [
    | inl one ↦ rw one (
        subst
          (λ x.
            Aligned tile 16 x m len
              (for_width 32 (broadcast_round_32 tile 16) len len (start tile 16 m)))
          (one_vector one)
          (for_width_keeps (Vectors16 tile m len) 32 _ len (broadcast_round_32-Aligned tile m len)
            len _ (start-Aligned tile 16 1 m len (omega arith) (omega arith))))
    | inr more ↦ rw more (
        for_width_keeps (Vectors tile b m len pos) 32 _ len (pair_round-Aligned tile b m len pos)
          len _ begins)
  ]

  wide_64 : Vectors tile b m len pos (
      if 16 * b == 16
      then for_width 64 (broadcast_round_64 tile (16 * b)) len len (start tile (16 * b) m)
      else for_width 64 (quad_round tile (16 * b)) len len (start tile (16 * b) m))
  wide_64 = elim (Bool-cases (16 * b == 16)) [
    | inl one ↦ rw one (
        subst
          (λ x.
            Aligned tile 16 x m len
              (for_width 64 (broadcast_round_64 tile 16) len len (start tile 16 m)))
          (one_vector one)
          (for_width_keeps (Vectors16 tile m len) 64 _ len (broadcast_round_64-Aligned tile m len)
            len _ (start-Aligned tile 16 1 m len (omega arith) (omega arith))))
    | inr more ↦ rw more (
        for_width_keeps (Vectors tile b m len pos) 64 _ len (quad_round-Aligned tile b m len pos)
          len _ begins)
  ]

  avx2_repeats : (q : ℕ) → xor_tile_avx2 tile (16 * b) m len q ≡ repeated m len tile (16 * b) q
  unfolding xor_tile_avx2
  avx2_repeats = ends _ (rounds_left _ wide_32)

-- With a tile of a whole number of 16-byte vectors, the AVX-512 routine combines byte `q` below `len`
-- with byte `q % tile_len` of the tile and leaves the others as they were.
pub xor_tile_avx512_repeats :
    (tile : Memory) (b : ℕ) (m : Memory) (len q : ℕ)
    → 0 < b
    → xor_tile_avx512 tile (16 * b) m len q ≡ repeated m len tile (16 * b) q
unfolding xor_tile_avx512
xor_tile_avx512_repeats tile b m len q pos =
    ends tile b m len pos _
      (if_width_keeps tile b m len pos 16 _ (wrap_round-Aligned tile 16 b m len (omega arith) pos) _
        (if_width_keeps tile b m len pos 32 _ (pair_round-Aligned tile b m len pos) _
          (wide_64 tile b m len pos)))
      q

-- On every platform, with a tile of a whole number of vectors, `xor_tile` combines byte `q` below `len`
-- with byte `q % tile_len` of the tile and leaves the others as they were.
pub xor_tile_repeats :
    (p : Platform) (b : ℕ) (m tile : Memory) (len q : ℕ)
    → 0 < vec_width p
    → 0 < b
    → xor_tile p m len tile (vec_width p * b) q ≡ repeated m len tile (vec_width p * b) q
unfolding xor_tile vec_width
xor_tile_repeats Platform.avx2 b m tile len q wide pos = avx2_repeats tile b m len pos q
xor_tile_repeats Platform.sse2 b m tile len q wide pos = words_repeat tile 16 b m len wide pos q
xor_tile_repeats Platform.neon b m tile len q wide pos = neon_repeats tile b m len pos q
xor_tile_repeats (Platform.word w) b m tile len q wide pos = words_repeat tile w b m len wide pos q
