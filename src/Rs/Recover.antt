-- ===== src/Rs/Recover.antt =====
-- rs_decode2 gives the data back from any `k` of the shards of rs_encode2.
use udpspeeder.Base.{
  ℕ, zero, suc, ◌+◌, ◌-◌, ◌<◌, ◌≤◌, ◌≡◌, refl, ◌∙◌, ap, List, [], ◌∷◌, ◌++◌, map, Option, none,
  some, length, length-append, get_or, ltb, All, arith, Bool-cases, inl, inr,
}
use udpspeeder.Rs.{
  Codec, Corrects, rs_encode2, rs_decode2, present_index, present_data, shard, Rising, max_shards,
  encode_from,
}

-- Every pointer that is not null, from number `i` on, is to the shard of its number.
abbrev pub AreShards : (ℕ → List ℕ) → ℕ → List (Option (List ℕ)) → Type 0
AreShards f i [] = Unit {0}
AreShards f i (none ∷ ds) = AreShards f (i + 1) ds
AreShards f i (some d ∷ ds) = (d ≡ f i) × AreShards f (i + 1) ds

present_data-map :
    (f : ℕ → List ℕ) (i : ℕ) (ds : List (Option (List ℕ)))
    → AreShards f i ds
    → present_data ds ≡ map f (present_index i ds)
unfolding present_data present_index
present_data-map f i [] h = refl
present_data-map f i (none ∷ ds) h = present_data-map f (i + 1) ds h
present_data-map f i (some d ∷ ds) h = ground (arith, present_data-map f (i + 1) ds h.1, h.0)

Rising-mono : (lo lo' n : ℕ) (is : List ℕ) → lo ≤ lo' → Rising lo' n is → Rising lo n is
Rising-mono lo lo' n [] h r = tt
Rising-mono lo lo' n (i ∷ is) h r = (omega (arith, r.0), r.1, r.2)

present_index-Rising :
    (i n : ℕ) (ds : List (Option (List ℕ))) → i + length ds ≤ n → Rising i n (present_index i ds)
unfolding present_index
present_index-Rising i n [] h = tt
present_index-Rising i n (none ∷ ds) h =
    Rising-mono i (i + 1) n (present_index (i + 1) ds) (omega arith)
      (present_index-Rising (i + 1) n ds (omega arith))
present_index-Rising i n (some d ∷ ds) h =
    (omega arith, omega arith, present_index-Rising (i + 1) n ds (omega arith))

-- `k` data shards of one length were encoded into `n`, 256 at most. From an array of `n` pointers, of
-- which `k` or more are not null and each of these is to the shard of its number, rs_decode2 gives the
-- data back.
pub rs_decode2_recovers :
    (codec : Codec) (k n : ℕ) (src : List (List ℕ)) (size : ℕ) (ds : List (Option (List ℕ)))
    → Corrects codec k n
    → length src ≡ k
    → All (λ s. length s ≡ size) src
    → n ≤ max_shards
    → length ds ≡ n
    → AreShards (shard codec k n src size) 0 ds
    → k ≤ length (present_index 0 ds)
    → rs_decode2 codec k n ds size ≡ some src
unfolding rs_decode2
rs_decode2_recovers codec k n src size ds c ks same small all are enough = ground (
  arith,
  present_data-map (shard codec k n src size) 0 ds are,
  c.recovers src (present_index 0 ds) size ks same (present_index-Rising 0 n ds (omega arith))
      enough,
)

-- With fewer than `k` shards the call fails.
pub rs_decode2_too_few :
    (codec : Codec) (k n : ℕ) (size : ℕ) (ds : List (Option (List ℕ)))
    → length (present_index 0 ds) < k
    → rs_decode2 codec k n ds size ≡ none
unfolding rs_decode2
rs_decode2_too_few codec k n size ds few = ground arith

get_or-append_left :
    (xs ys : List (List ℕ)) (i : ℕ) → i < length xs → get_or (xs ++ ys) i [] ≡ get_or xs i []
get_or-append_left [] ys i h = absurd (omega arith)
get_or-append_left (x ∷ xs) ys zero h = refl
get_or-append_left (x ∷ xs) ys (suc i) h = get_or-append_left xs ys i (omega arith)

get_or-append_right :
    (xs ys : List (List ℕ)) (i : ℕ) → get_or (xs ++ ys) (length xs + i) [] ≡ get_or ys i []
get_or-append_right [] ys i = let e : 0 + i ≡ i = omega arith in rw e
get_or-append_right (x ∷ xs) ys i =
    let e : suc (length xs) + i ≡ suc (length xs + i) = omega arith in
    rw e (get_or-append_right xs ys i)

get_or-encode_from :
    (codec : Codec) (k n : ℕ) (src : List (List ℕ)) (size i left j : ℕ)
    → j < left
    → get_or (encode_from codec k n src size i left) j [] ≡ codec.fec_encode k n src (i + j) size
unfolding encode_from
get_or-encode_from codec k n src size i zero j h = absurd (omega arith)
get_or-encode_from codec k n src size i (suc left) zero h = let e : i + 0 ≡ i = omega arith in rw e
get_or-encode_from codec k n src size i (suc left) (suc j) h =
    let e : i + 1 + j ≡ i + suc j = omega arith in
    get_or-encode_from codec k n src size (i + 1) left j (omega arith) ∙ rw e

length-encode_from :
    (codec : Codec) (k n : ℕ) (src : List (List ℕ)) (size i left : ℕ)
    → length (encode_from codec k n src size i left) ≡ left
unfolding encode_from
length-encode_from codec k n src size i zero = refl
length-encode_from codec k n src size i (suc left) =
    ap suc (length-encode_from codec k n src size (i + 1) left)

-- Given `k` data shards and `k ≤ n`, rs_encode2 leaves `n` shards, and the one at place `i < n` is
-- shard `i`.
pub rs_encode2-shards :
    (codec : Codec) (k n : ℕ) (src : List (List ℕ)) (size : ℕ)
    → length src ≡ k
    → k ≤ n
    → (length (rs_encode2 codec k n src size) ≡ n)
      × ((i : ℕ) → i < n → get_or (rs_encode2 codec k n src size) i [] ≡ shard codec k n src size i)
unfolding rs_encode2
rs_encode2-shards codec k n src size ks kn = (
  omega (arith, length-append src more, length-encode_from codec k n src size k (n - k)),
  λ i h. elim (Bool-cases (ltb i k)) [
    | inl low ↦ rw low (get_or-append_left src more i (ground arith))
    | inr high ↦
        let e : length src + (i - k) ≡ i = ground arith in
        let f : k + (i - k) ≡ i = ground arith in
        rw high (
          rw e at (get_or-append_right src more (i - k))
          ∙ get_or-encode_from codec k n src size k (n - k) (i - k) (ground arith)
          ∙ rw f)
  ],
)
  where
    more : List (List ℕ)
    more = encode_from codec k n src size k (n - k)
