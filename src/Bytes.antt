-- ===== src/Bytes.antt =====
-- common.cpp: big-endian words in a buffer, packing of 64-bit values, and the rounded-up division.
pub mod Laws
use udpspeeder.Base.{ℕ, ◌+◌, ◌-◌, ◌*◌, ◌/◌, ◌%◌, ◌^◌}
use udpspeeder.Base.Memory.{Memory, store}

-- `(unsigned char)(w >> 8)` and the rest: a shift divides, a cast to a byte cuts by `% 256`.
unfoldable pub write_u16 : Memory → ℕ → ℕ → Memory
write_u16 m p w = store (store m (p + 1) (w % 256)) p (w / 2 ^ 8 % 256)

unfoldable pub read_u16 : Memory → ℕ → ℕ
read_u16 m p = let res = m p in (m (p + 1) + res * 2 ^ 8) % 2 ^ 16

unfoldable pub write_u32 : Memory → ℕ → ℕ → Memory
write_u32 m p l =
    store
      (store (store (store m (p + 3) (l % 256)) (p + 2) (l / 2 ^ 8 % 256)) (p + 1)
        (l / 2 ^ 16 % 256))
      p (l / 2 ^ 24 % 256)

unfoldable pub read_u32 : Memory → ℕ → ℕ
read_u32 m p =
    let r0 = m p in
    let r1 = (m (p + 1) + r0 * 2 ^ 8 % 2 ^ 32) % 2 ^ 32 in
    let r2 = (m (p + 2) + r1 * 2 ^ 8 % 2 ^ 32) % 2 ^ 32 in
    (m (p + 3) + r2 * 2 ^ 8 % 2 ^ 32) % 2 ^ 32

unfoldable pub pack_u64 : ℕ → ℕ → ℕ
pack_u64 a b = (a * 2 ^ 32 % 2 ^ 64 + b) % 2 ^ 64

unfoldable pub get_u64_h : ℕ → ℕ
get_u64_h a = a / 2 ^ 32 % 2 ^ 32

unfoldable pub get_u64_l : ℕ → ℕ
get_u64_l a = a * 2 ^ 32 % 2 ^ 64 / 2 ^ 32 % 2 ^ 32

unfoldable pub round_up_div : ℕ → ℕ → ℕ
round_up_div a b = (a + b - 1) / b
