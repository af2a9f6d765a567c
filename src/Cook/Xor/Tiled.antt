-- ===== src/Cook/Xor/Tiled.antt =====
-- Every form of xor_tile combines byte `q` with byte `q % tile_len` of the tile.
use native.Mathlib.Nat.{
  div-add-mod, mod-lt, mod_self, mod-add-mod, mod-eq_of_lt, mul-add-mod_self_left,
}
use udpspeeder.Base.{
  ℕ, zero, suc, ◌+◌, ◌-◌, ◌*◌, ◌/◌, ◌%◌, ◌≤◌, ◌<◌, ◌≡◌, refl, sym, subst, ◌∙◌, ap, ltb, leb, ◌==◌,
  ◌&&◌, if◌then◌else◌, arith, Bool-cases, inl, inr, ◌⊎◌,
}
use udpspeeder.Base.Bits.{bit_xor}
use udpspeeder.Base.Memory.{Memory}
use udpspeeder.Cook.Xor.{
  Cursor, xor_store, join, for_width, load, wrap, reset, vector_round, wrap_round,
}

-- The bytes below `i` are combined with `pat`, the others are as they were.
abbrev pub Upto : (ℕ → ℕ) → Memory → ℕ → Memory → Type 0
Upto pat m i m' = (q : ℕ) → m' q ≡ (if ltb q i then bit_xor (m q) (pat q) else m q)

pub xor_store-Upto :
    (pat : ℕ → ℕ) (m m' : Memory) (i w : ℕ) (key : ℕ → ℕ)
    → Upto pat m i m'
    → ((j : ℕ) → j < w → key j ≡ pat (i + j))
    → Upto pat m (i + w) (xor_store m' i w key)
xor_store-Upto pat m m' i w key u k q = elim (Bool-cases (leb i q && ltb q (i + w))) [
  | inl inside ↦
      let e : i + (q - i) ≡ q = ground arith in
      let own : key (q - i) ≡ pat q = k (q - i) (ground arith) ∙ ap pat e in
      ground (arith, inside, own, u q)
  | inr outside ↦ ground (arith, outside, u q)
]

-- An invariant of the rounds is one of the loop.
pub for_width_keeps :
    (P : Cursor → Type 0) (w : ℕ) (step : Cursor → Cursor) (len : ℕ)
    → ((c : Cursor) → P c → c.i + w ≤ len → P (step c))
    → (fuel : ℕ) (c : Cursor) → P c
    → P (for_width w step len fuel c)
for_width_keeps P w step len s zero c p = p
for_width_keeps P w step len s (suc fuel) c p = elim (Bool-cases (leb (c.i + w) len)) [
  | inl go ↦ rw go (for_width_keeps P w step len s fuel (step c) (s c p (ground arith)))
  | inr stop ↦ rw stop p
]

split_lem : (w b k a n j : ℕ) → b * k + a ≡ n → w * n + j ≡ w * b * k + (w * a + j)
split_lem w b k a n j h = rw⁻¹ h (grind arith)

-- `w * n + j` in a tile of `b` vectors.
tile_index : (w b n j : ℕ) → 0 < b → j < w → (w * n + j) % (w * b) ≡ w * (n % b) + j
tile_index w b n j pos h =
    let split : w * n + j ≡ w * b * (n / b) + (w * (n % b) + j) =
      split_lem w b (n / b) (n % b) n j (div-add-mod n b) in
    let below : w * (n % b) + j < w * b = grind (arith, mod-lt n pos) in
    rw split (mul-add-mod_self_left (w * b) (n / b) (w * (n % b) + j) ∙ mod-eq_of_lt below)

next_vector : (b n : ℕ) → 0 < b → (n + 1) % b ≡ (if leb b (n % b + 1) then 0 else n % b + 1)
next_vector b n pos =
    let e : (n + 1) % b ≡ (n % b + 1) % b = sym (mod-add-mod n b 1) in
    elim (Bool-cases (leb b (n % b + 1))) [
      | inl turn ↦
          let full : n % b + 1 ≡ b = ground (arith, mod-lt n pos) in
          rw turn (e ∙ ap (λ k. k % b) full ∙ mod_self b)
      | inr on ↦ rw on (e ∙ mod-eq_of_lt (ground arith))
    ]

room_left : (w a d : ℕ) → 0 < w → w * a + w < w * (a + 2 + d)
room_left w a d h = grind (arith, w * d)

-- The cursor in the tile, `w * a` of `w * b`, after one vector more.
next_offset :
    (w a b : ℕ)
    → 0 < w
    → a < b
    → ((w * b ≤ w * a + w) × (b ≡ a + 1) × (w * a + w ≡ w * b))
      ⊎ ((w * a + w < w * b) × (a + 1 < b) × (w * a + w ≡ w * (a + 1)))
next_offset w a b wpos h = elim (Bool-cases (b == a + 1)) [
  | inl last ↦ let e : b ≡ a + 1 = ground arith in rw e (inl (grind arith, refl, grind arith))
  | inr more ↦
      let lt : a + 1 < b = ground arith in
      let e : a + 2 + (b - (a + 2)) ≡ b = omega arith in
      inr (subst (λ x. w * a + w < w * x) e (room_left w a (b - (a + 2)) wpos), lt, grind arith)
]

module _ (tile : Memory) (w b : ℕ) (m : Memory) (len : ℕ) where
  abbrev pub pat : ℕ → ℕ
  pat q = tile (q % (w * b))

  -- After some rounds of whole vectors.
  pub record Aligned (c : Cursor) : Type 0 where
    pub n : ℕ
    pub i_eq : c.i ≡ w * n
    pub t_eq : c.t ≡ w * (n % b)
    pub done : Upto pat m c.i c.data'
    pub inside : c.i ≤ len

  load-pat : (n j : ℕ) → 0 < b → j < w → load tile (w * b) (w * (n % b)) j ≡ pat (w * n + j)
  load-pat n j pos h = rw (tile_index w b n j pos h) refl

  pub reset-next : (n : ℕ) → 0 < w → 0 < b → reset tile (w * b) w (w * (n % b)) ≡ w * ((n + 1) % b)
  reset-next n wpos pos = elim (next_offset w (n % b) b wpos (mod-lt n pos)) [
    | inl (le, e, f) ↦ ground (arith, next_vector b n pos, le, e)
    | inr (lt, e, f) ↦ ground (arith, next_vector b n pos, lt, e, f)
  ]

  pub wrap-next : (n : ℕ) → 0 < w → 0 < b → wrap tile (w * b) w (w * (n % b)) ≡ w * ((n + 1) % b)
  wrap-next n wpos pos = elim (next_offset w (n % b) b wpos (mod-lt n pos)) [
    | inl (le, e, f) ↦ ground (arith, next_vector b n pos, le, e, f)
    | inr (lt, e, f) ↦ ground (arith, next_vector b n pos, lt, e, f)
  ]

  abbrev pub Matches : (ℕ → ℕ) → ℕ → ℕ → Type 0
  Matches key i v = (j : ℕ) → j < v → key j ≡ pat (i + j)

  pub join-Matches :
      (k1 k2 : ℕ → ℕ) (i v v' : ℕ)
      → Matches k1 i v
      → Matches k2 (i + v) v'
      → Matches (join v k1 k2) i (v + v')
  join-Matches k1 k2 i v v' h h' j below = elim (Bool-cases (ltb j v)) [
    | inl low ↦ rw low (h j (ground arith))
    | inr high ↦
        let e : i + v + (j - v) ≡ i + j = ground arith in
        rw high (h' (j - v) (ground arith) ∙ ap pat e)
  ]

  pub load-Matches :
      (n i t : ℕ) → 0 < b → i ≡ w * n → t ≡ w * (n % b) → Matches (load tile (w * b) t) i w
  load-Matches n i t pos ie te j h = rw (ie, te) (load-pat n j pos h)

  -- A vector at a time.
  pub vector_round-Aligned :
      0 < w
      → 0 < b
      → (c : Cursor) → Aligned c
      → c.i + w ≤ len
      → Aligned (vector_round tile (w * b) w c)
  vector_round-Aligned wpos pos c a room = record {
    n = a.n + 1;
    i_eq = grind (arith, a.i_eq);
    t_eq = rw a.t_eq (reset-next a.n wpos pos);
    done = xor_store-Upto pat m c.data' c.i w _ a.done (load-Matches a.n c.i c.t pos a.i_eq a.t_eq);
    inside = room;
  }

  pub wrap_round-Aligned :
      0 < w
      → 0 < b
      → (c : Cursor) → Aligned c
      → c.i + w ≤ len
      → Aligned (wrap_round tile (w * b) w c)
  wrap_round-Aligned wpos pos c a room = record {
    n = a.n + 1;
    i_eq = grind (arith, a.i_eq);
    t_eq = rw a.t_eq (wrap-next a.n wpos pos);
    done = xor_store-Upto pat m c.data' c.i w _ a.done (load-Matches a.n c.i c.t pos a.i_eq a.t_eq);
    inside = room;
  }

  -- The scalar tail, which needs no alignment.
  pub record Cut (c : Cursor) : Type 0 where
    pub t_eq : c.t ≡ c.i % (w * b)
    pub done : Upto pat m c.i c.data'
    pub inside : c.i ≤ len

  pub Aligned-Cut : (c : Cursor) → 0 < w → 0 < b → Aligned c → Cut c
  Aligned-Cut c wpos pos a =
      let e : w * (a.n % b) + 0 ≡ w * (a.n % b) = omega arith in
      let f : w * a.n + 0 ≡ w * a.n = omega arith in
      record {
        t_eq =
            a.t_eq
            ∙ sym (rw (e, f) at (tile_index w b a.n 0 pos wpos))
            ∙ ap (λ i. i % (w * b)) (sym a.i_eq);
        done = a.done;
        inside = a.inside;
      }

  pub vector_round-Cut :
      0 < w * b → (c : Cursor) → Cut c → c.i + 1 ≤ len → Cut (vector_round tile (w * b) 1 c)
  vector_round-Cut pos c a room = record {
    t_eq = rw a.t_eq (sym (next_vector (w * b) c.i pos));
    done = xor_store-Upto pat m c.data' c.i 1 _ a.done one;
    inside = room;
  }
    where
      one : Matches (load tile (w * b) c.t) c.i 1
      one j h =
          let e : c.i + j ≡ c.i = omega arith in
          let f : c.t + j ≡ c.i % (w * b) = omega (arith, a.t_eq) in rw (e, f) refl

  -- Fuel for the bytes that are left brings the tail to the end.
  pub scalar_reaches :
      (fuel : ℕ) (c : Cursor)
      → c.i ≤ len
      → len ≤ c.i + fuel
      → (for_width 1 (vector_round tile (w * b) 1) len fuel c).i ≡ len
  scalar_reaches zero c h k = omega arith
  scalar_reaches (suc fuel) c h k = elim (Bool-cases (leb (c.i + 1) len)) [
    | inl go ↦
        rw go (scalar_reaches fuel (vector_round tile (w * b) 1 c) (ground arith) (omega arith))
    | inr stop ↦ rw stop (ground arith)
  ]
