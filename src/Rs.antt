-- ===== src/Rs.antt =====
-- lib/rs.cpp: the array interface over the Reed-Solomon library of lib/fec.cpp. That library is a
-- third-party copy: its two calls are the fields of `Codec`, and what rs.h documents of them is
-- `Corrects`.
pub mod Recover
use udpspeeder.Base.{
  ℕ, zero, suc, ◌+◌, ◌-◌, ◌<◌, ◌≤◌, ◌≡◌, ◌≢◌, List, [], ◌∷◌, ◌++◌, map, Option, none, some, length,
  get_or, ltb, if◌then◌else◌, take, All,
}

pub record Codec : Type 0 where
  -- `fec_encode(code, src, dst, index, sz)` with the code of `fec_new(k, n)`: the shard `index`.
  pub fec_encode : (k n : ℕ) → List (List ℕ) → (index sz : ℕ) → List ℕ
  -- `fec_decode(code, pkt, index, sz)`: the first `k` entries of `pkt` after a return of 0.
  pub fec_decode :
      (k n : ℕ) → (pkt : List (List ℕ)) → (index : List ℕ) → (sz : ℕ) → Option (List (List ℕ))

module _ (codec : Codec) where
  open codec use {fec_encode, fec_decode}

  -- The loop `for (i = k; i < n; i++)` with `n - i` rounds left: what goes into `data[k..n)`.
  encode_from : (k n : ℕ) → List (List ℕ) → (size i left : ℕ) → List (List ℕ)
  encode_from k n data' size i zero = []
  encode_from k n data' size i (suc left) =
      fec_encode k n data' i size ∷ encode_from k n data' size (i + 1) left

  -- All of `data` after the call: the `k` data shards, then the redundant ones.
  unfoldable pub rs_encode2 : (k n : ℕ) → List (List ℕ) → (size : ℕ) → List (List ℕ)
  unfolding encode_from
  rs_encode2 k n data' size = data' ++ encode_from k n data' size k (n - k)

-- The numbers and the contents of the pointers that are not null, in order.
unfoldable pub present_index : ℕ → List (Option (List ℕ)) → List ℕ
present_index i [] = []
present_index i (none ∷ ds) = present_index (i + 1) ds
present_index i (some d ∷ ds) = i ∷ present_index (i + 1) ds

unfoldable pub present_data : List (Option (List ℕ)) → List (List ℕ)
present_data [] = []
present_data (none ∷ ds) = present_data ds
present_data (some d ∷ ds) = d ∷ present_data ds

-- `GF_SIZE + 1`
abbrev pub max_shards : ℕ
max_shards = 256

-- `data` is the array of `n` pointers. `none` is a return other than 0.
unfoldable pub rs_decode2 :
    Codec → (k n : ℕ) → List (Option (List ℕ)) → (size : ℕ) → Option (List (List ℕ))
rs_decode2 codec k n data' size =
    if ltb max_shards n
    then none
    else if ltb (length (present_index 0 data')) k
    then none
    else codec.fec_decode k n (present_data data') (present_index 0 data') size

-- Shard `i` of the data `src`: a data shard, or a redundant one.
abbrev pub shard : Codec → (k n : ℕ) → List (List ℕ) → (size i : ℕ) → List ℕ
shard codec k n src size i = if ltb i k then get_or src i [] else codec.fec_encode k n src i size

-- The numbers rise and stay below `n`.
abbrev pub Rising : ℕ → ℕ → List ℕ → Type 0
Rising lo n [] = Unit {0}
Rising lo n (i ∷ is) = (lo ≤ i) × (i < n) × Rising (i + 1) n is

-- What rs.h promises: redundant shards have the size asked for, and any `k` or more shards with
-- rising numbers give the data back.
pub record Corrects (codec : Codec) (k n : ℕ) : Type 0 where
  pub encoded_length :
      (src : List (List ℕ)) (i size : ℕ)
      → length src ≡ k
      → All (λ s. length s ≡ size) src
      → length (codec.fec_encode k n src i size) ≡ size
  pub recovers :
      (src : List (List ℕ)) (index : List ℕ) (size : ℕ)
      → length src ≡ k
      → All (λ s. length s ≡ size) src
      → Rising 0 n index
      → k ≤ length index
      → codec.fec_decode k n (map (shard codec k n src size) index) index size ≡ some src
