-- ===== src/Bytes/Laws.antt =====
-- Words of common.cpp read back as they were written.
use udpspeeder.Base.{ℕ, ◌+◌, ◌*◌, ◌/◌, ◌%◌, ◌^◌, ◌≤◌, ◌<◌, ◌≡◌, ap, arith, List, [], ◌∷◌}
use udpspeeder.Base.Memory.{Memory, memcpy, Holds}
use udpspeeder.Bytes.{
  write_u16, read_u16, write_u32, read_u32, pack_u64, get_u64_h, get_u64_l, round_up_div,
}

-- The bytes of a word, the highest first.
abbrev pub u16_bytes : ℕ → List ℕ
u16_bytes w = w / 2 ^ 8 % 256 ∷ w % 256 ∷ []

abbrev pub u32_bytes : ℕ → List ℕ
u32_bytes l = l / 2 ^ 24 % 256 ∷ l / 2 ^ 16 % 256 ∷ l / 2 ^ 8 % 256 ∷ l % 256 ∷ []

pub write_u16-memcpy : (m : Memory) (p w q : ℕ) → write_u16 m p w q ≡ memcpy m p (u16_bytes w) q
unfolding write_u16 memcpy
write_u16-memcpy m p w q = ground arith

pub write_u32-memcpy : (m : Memory) (p l q : ℕ) → write_u32 m p l q ≡ memcpy m p (u32_bytes l) q
unfolding write_u32 memcpy
write_u32-memcpy m p l q = ground arith

pub read_u16_of_Holds :
    (m : Memory) (p w : ℕ) → w < 2 ^ 16 → Holds m p (u16_bytes w) → read_u16 m p ≡ w
unfolding read_u16
read_u16_of_Holds m p w h k = omega arith

pub read_u32_of_Holds :
    (m : Memory) (p w : ℕ) → w < 2 ^ 32 → Holds m p (u32_bytes w) → read_u32 m p ≡ w
unfolding read_u32
read_u32_of_Holds m p w h k =
    let e2 : p + 1 + 1 ≡ p + 2 = omega arith in
    let e3 : p + 1 + 1 + 1 ≡ p + 3 = omega arith in omega (arith, ap m e2, ap m e3)

-- Of two 32-bit words `pack_u64` keeps both: each comes back, and the packed value fits 64 bits.
pub pack_u64-halves :
    (a b : ℕ)
    → a < 2 ^ 32
    → b < 2 ^ 32
    → (get_u64_h (pack_u64 a b) ≡ a) × (get_u64_l (pack_u64 a b) ≡ b) × (pack_u64 a b < 2 ^ 64)
unfolding pack_u64 get_u64_h get_u64_l
pack_u64-halves a b h k = omega arith

pub round_up_div-covers : (a n : ℕ) → 0 < n → a ≤ round_up_div a n * n
unfolding round_up_div
round_up_div-covers a n h = grind arith
