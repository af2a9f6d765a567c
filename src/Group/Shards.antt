-- ===== src/Group/Shards.antt =====
-- The bitmap of a group as a set of shard numbers.
use native.Mathlib.Nat.{pow-suc, div-div-eq-div-mul}
use udpspeeder.Base.{
  ℕ, zero, suc, ◌/◌, ◌%◌, ◌^◌, ◌≤◌, ◌≡◌, refl, ◌∙◌, inl, inr, true, false, arith, ◌==◌,
  if◌then◌else◌, Bool-cases,
}
use udpspeeder.Base.Bits.{bit_and, bit_or, bit_and-mask, bit, bit-bit_or, bit-pow2, bit-zero, pow2}
use udpspeeder.Group.{Group, init, has_shard, set_shard}

pow2_lem : (k : ℕ) → 2 ^ k ≡ pow2 k
pow2_lem zero = refl
pow2_lem (suc k) = pow-suc 2 k ∙ omega (arith, pow2_lem k)

-- Shifting down and masking by one reads a bit.
shift_bit : (k a : ℕ) → a / 2 ^ k % 2 ≡ bit a k
shift_bit zero a = omega arith
shift_bit (suc k) a =
    rw (pow-suc 2 k) (ground (arith, div-div-eq-div-mul a 2 (2 ^ k), shift_bit k (a / 2)))

has_shard-bit : (g : Group) (i : ℕ) → has_shard g i ≡ (bit (g.shard_bitmap (i / 32)) (i % 32) == 1)
unfolding has_shard
has_shard-bit g i =
    let e = bit_and-mask 5 i in
    let f = bit_and-mask 1 (g.shard_bitmap (i / 32) / 2 ^ (i % 32)) in
    rw (e, f, shift_bit (i % 32) (g.shard_bitmap (i / 32)))

pub has_shard-init : (g : Group) (s i : ℕ) → has_shard (init g s) i ≡ false
unfolding init
has_shard-init g s i = has_shard-bit (init g s) i ∙ ground (arith, bit-zero (i % 32))

bit-le : (k a : ℕ) → bit a k ≤ 1
bit-le zero a = omega arith
bit-le (suc k) a = bit-le k (a / 2)

-- The bit for `i % 32` set in a word.
bit_set :
    (b i j : ℕ)
    → (bit (bit_or b (2 ^ bit_and i 31)) j == 1) ≡ (if i % 32 == j then true else bit b j == 1)
bit_set b i j =
    rw (bit_and-mask 5 i, pow2_lem (i % 32), bit-bit_or j b (pow2 (i % 32)), bit-pow2 (i % 32) j)
      (ground (arith, bit-le j b))

set_shard-bit :
    (g : Group) (i v j : ℕ)
    → (bit ((set_shard g i v).shard_bitmap (j / 32)) (j % 32) == 1)
      ≡ (if j == i then true else bit (g.shard_bitmap (j / 32)) (j % 32) == 1)
unfolding set_shard
set_shard-bit g i v j = elim (Bool-cases (j / 32 == i / 32)) [
  | inl same ↦ rw same (bit_set (g.shard_bitmap (j / 32)) i (j % 32) ∙ ground arith)
  | inr other ↦ rw other (ground arith)
]

-- `set_shard i` adds `i` to the set, and nothing else.
pub has_shard-set_shard :
    (g : Group) (i v j : ℕ)
    → has_shard (set_shard g i v) j ≡ (if j == i then true else has_shard g j)
has_shard-set_shard g i v j =
    rw (has_shard-bit (set_shard g i v) j, has_shard-bit g j) (set_shard-bit g i v j)
