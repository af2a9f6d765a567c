-- ===== src/Decoder/Complete.antt =====
-- A group of mode 0 after each shard: kept while it is short of `k`, decoded with the last one.
use udpspeeder.Base.{
  ℕ, zero, suc, ◌+◌, ◌≤◌, ◌<◌, ◌≡◌, refl, ◌∙◌, ap, Bool, true, false, List, [], ◌∷◌, map, some,
  length, arith, ◌==◌, if◌then◌else◌, Bool-cases, inl, inr, All,
}
use udpspeeder.Replay.{is_valid}
use udpspeeder.Replay.Laws.{set_invaild_self}
use udpspeeder.Blob.{BlobDecode, decode_clear, decode_inputs, decode_output}
use udpspeeder.Group.{Group}
use udpspeeder.Rs.{Codec, Corrects, shard, rs_decode2, present_index, max_shards}
use udpspeeder.Rs.Recover.{AreShards, rs_decode2_recovers}
use udpspeeder.Decoder.Wire.{Header}
use udpspeeder.Decoder.State.{Decoder, ok, group_at, put_group, recycle, place, advance}
use udpspeeder.Decoder.Deliver.{
  ripeness, by_count, fast_send, decode_group, decode_blob, deliver_blob, publish, entries, buffers,
  finished, close, as_packet,
}
use udpspeeder.Decoder.{take_shard, finish}
use udpspeeder.Decoder.Collect.{
  Known, Placed, memb, recycle-Gathered, place-Placed, advance-Gathered, advance_next,
  recycle_keeps, place_keeps,
}
use udpspeeder.Decoder.Joins.{hdr, Got, Joins}

-- How many of the numbers from `lo` on, `m` of them, pass the test.
abbrev tally : (ℕ → Bool) → ℕ → ℕ → ℕ
tally p lo zero = 0
tally p lo (suc m) = (if p lo then 1 else 0) + tally p (lo + 1) m

abbrev or_is : ℕ → (ℕ → Bool) → ℕ → Bool
or_is i p j = if j == i then true else p j

tally_below : (p : ℕ → Bool) (i lo m : ℕ) → i < lo → tally (or_is i p) lo m ≡ tally p lo m
tally_below p i lo zero h = refl
tally_below p i lo (suc m) h = ground (arith, tally_below p i (lo + 1) m)

tally_new :
    (p : ℕ → Bool) (i lo m : ℕ)
    → p i ≡ false
    → lo ≤ i
    → i < lo + m
    → tally (or_is i p) lo m ≡ suc (tally p lo m)
tally_new p i lo zero h a b = absurd (omega arith)
tally_new p i lo (suc m) h a b = elim (Bool-cases (lo == i)) [
  | inl e ↦ let e' : lo ≡ i = ground arith in ground (arith, ap p e', tally_below p i (lo + 1) m)
  | inr e ↦ ground (arith, tally_new p i (lo + 1) m h)
]

tally_none : (lo m : ℕ) → tally (λ j. false) lo m ≡ 0
tally_none lo zero = refl
tally_none lo (suc m) = omega (arith, tally_none (lo + 1) m)

-- Shard numbers without repetition.
abbrev pub Distinct : List ℕ → Type 0
Distinct [] = Unit {0}
Distinct (i ∷ is) = (memb i is ≡ false) × Distinct is

tally-memb :
    (is : List ℕ) (n : ℕ)
    → Distinct is
    → All (λ i. i < n) is
    → tally (λ j. memb j is) 0 n ≡ length is
tally-memb [] n d a = tally_none 0 n
tally-memb (i ∷ is) n d a =
    tally_new (λ j. memb j is) i 0 n d.0 (omega arith) (omega (arith, a.0))
    ∙ ap suc (tally-memb is n d.1 a.1)

length-buffers : (d : Decoder) (g : Group) (lo m : ℕ) → length (buffers (entries d g lo m)) ≡ m
unfolding entries
length-buffers d g lo zero = refl
length-buffers d g lo (suc m) = ground (arith, length-buffers d g (lo + 1) m)

module _ (codec : Codec) (seq k r size : ℕ) (content : ℕ → List ℕ) where
  -- The array that the library gets: the shards that came, in their places.
  buffers-AreShards :
      (is : List ℕ) (d : Decoder) (lo m : ℕ)
      → Placed seq k r size content is d
      → AreShards content lo (buffers (entries d (group_at d seq) lo m))
  unfolding entries
  buffers-AreShards is d lo zero h = tt
  buffers-AreShards is d lo (suc m) h =
      ground (arith, h.known.members lo, h.stored lo, buffers-AreShards is d (lo + 1) m h)

  length-present :
      (is : List ℕ) (d : Decoder) (lo m : ℕ)
      → Placed seq k r size content is d
      → length (present_index lo (buffers (entries d (group_at d seq) lo m)))
        ≡ tally (λ j. memb j is) lo m
  unfolding entries present_index
  length-present is d lo zero h = refl
  length-present is d lo (suc m) h =
      ground (arith, h.known.members lo, length-present is d (lo + 1) m h)

  ripeness-Known :
      (g : Group) (is : List ℕ) (i : ℕ)
      → Known seq k r size content is g
      → ripeness (hdr codec seq k r size content i) g ≡ by_count (length is) k k
  unfolding ripeness
  ripeness-Known g is i h = rw h.counted refl

  finish-unripe :
      (d : Decoder) (is : List ℕ) (i : ℕ)
      → Known seq k r size content is (group_at d seq)
      → length is < k
      → finish codec (hdr codec seq k r size content i) (content i) d ≡ some d
  unfolding finish by_count fast_send
  finish-unripe d is i h few = rw (ripeness-Known (group_at d seq) is i h, finish) (ground arith)

  finish-ripe :
      (d : Decoder) (is : List ℕ) (i : ℕ)
      → Known seq k r size content is (group_at d seq)
      → length is ≡ k
      → finish codec (hdr codec seq k r size content i) (content i) d
        ≡ decode_blob codec (hdr codec seq k r size content i) (content i) d
  unfolding finish by_count decode_group
  finish-ripe d is i h all = rw (ripeness-Known (group_at d seq) is i h, finish) (ground arith)

  -- A shard before the last is kept, and nothing is handed out.
  pub take_shard-Gathered :
      (d : Decoder) (is : List ℕ) (i : ℕ)
      → Joins codec seq k r size content is i d
      → length is + 1 < k
      → d.index + 1 < d.fec_buff_num
      → (d' : Decoder) × (take_shard codec (hdr codec seq k r size content i) (content i) d
          ≡ some (ok, d'))
        × Got codec seq k r size content (i ∷ is) d'
        × (d'.index ≡ d.index + 1)
        × (d'.fec_buff_num ≡ d.fec_buff_num)
  take_shard-Gathered d is i h few room =
      let placed =
        place-Placed seq k r size content is i (recycle h.state)
          (recycle-Gathered seq k r size content is h.state h.held) in
      let keeps = recycle_keeps h.state in
      let places = place_keeps seq k r size content (recycle h.state) i (content i) in
      let next : after.index + 1 < after.fec_buff_num =
        omega (arith, keeps.1, keeps.2, places.1, places.2, h.same_index, h.same_num) in
      let ends = finish-unripe after (i ∷ is) i placed.known (omega arith) in
      (
        advance after,
        h.goes_on ∙ rw ends refl,
        advance-Gathered seq k r size content (i ∷ is) after placed next,
        omega (arith, keeps.1, places.1, h.same_index, advance_next after next),
        omega (arith, keeps.2, places.2, h.same_num, advance_next after next),
      )
    where
      after : Decoder
      after = place (recycle h.state) (hdr codec seq k r size content i) (content i)

-- The data of a group, from the shards that came.
recovered :
    (codec : Codec) (seq k r size : ℕ) (src : List (List ℕ)) (is : List ℕ) (d : Decoder)
    → Corrects codec k (k + r)
    → length src ≡ k
    → All (λ s. length s ≡ size) src
    → k + r ≤ max_shards
    → Placed seq k r size (shard codec k (k + r) src size) is d
    → Distinct is
    → All (λ i. i < k + r) is
    → k ≤ length is
    → rs_decode2 codec k (k + r) (buffers (entries d (group_at d seq) 0 (k + r))) size ≡ some src
recovered codec seq k r size src is d c ks same small h dist below enough =
    let content = shard codec k (k + r) src size in
    rs_decode2_recovers codec k (k + r) src size (buffers (entries d (group_at d seq) 0 (k + r))) c
      ks same small (length-buffers d (group_at d seq) 0 (k + r))
      (buffers-AreShards codec seq k r size content is d 0 (k + r) h)
      (omega (
        arith,
        length-present codec seq k r size content is d 0 (k + r) h,
        tally-memb is (k + r) dist below,
      ))

-- What `input` leaves behind a group that it has handed out: the packets, and the number refused.
pub record Delivered (seq n : ℕ) (packets : List (List ℕ)) (d : Decoder) : Type 0 where
  pub ready : d.ready_for_output ≡ true
  pub count : d.output_n ≡ n
  pub arrived : d.output_arr ≡ map as_packet packets
  pub refused : is_valid d.anti_replay seq ≡ false

deliver_blob-Delivered :
    (d : Decoder) (seq n : ℕ) (packets : List (List ℕ))
    → d.ready_for_output ≡ false
    → decode_output d.blob_decode ≡ some (n, packets)
    → (d' : Decoder) × (deliver_blob d seq ≡ some d') × Delivered seq n packets d'
unfolding deliver_blob publish
deliver_blob-Delivered d seq n packets idle out = (
  close (record d { output_n = n; output_arr = map as_packet packets; ready_for_output = true })
      seq,
  rw (out, deliver_blob) (rw idle refl),
  record {
    ready = refl;
    count = refl;
    arrived = refl;
    refused = set_invaild_self d.anti_replay seq;
  },
)

decode_blob-deliver :
    (codec : Codec) (h : Header) (payload : List ℕ) (d : Decoder) (k r : ℕ) (src : List (List ℕ))
    (b : BlobDecode)
    → (group_at d h.seq).data_num ≡ some k
    → (group_at d h.seq).redundant_num ≡ some r
    → rs_decode2 codec k (k + r) (buffers (entries d (group_at d h.seq) 0 (k + r))) (length payload)
      ≡ some src
    → decode_inputs (decode_clear d.blob_decode) src ≡ some b
    → decode_blob codec h payload d
      ≡ deliver_blob (record (finished d h.seq) { blob_decode = b }) h.seq
unfolding decode_blob
decode_blob-deliver codec h payload d k r src b ek er rs din = simp (ek, er) (rw rs (rw din refl))

-- The last shard of `k`: the group is decoded and its packets handed out.
pub take_shard-Delivered :
    (codec : Codec) (seq k r size : ℕ) (src : List (List ℕ)) (is : List ℕ) (i : ℕ) (d : Decoder)
    → Corrects codec k (k + r)
    → length src ≡ k
    → All (λ s. length s ≡ size) src
    → k + r ≤ max_shards
    → Joins codec seq k r size (shard codec k (k + r) src size) is i d
    → Distinct (i ∷ is)
    → All (λ i. i < k + r) (i ∷ is)
    → length is + 1 ≡ k
    → length (shard codec k (k + r) src size i) ≡ size
    → (n : ℕ) (packets : List (List ℕ))
    → ((b0 : BlobDecode)
        → (b : BlobDecode) × (decode_inputs (decode_clear b0) src ≡ some b)
          × (decode_output b ≡ some (n, packets)))
    → (d' : Decoder) × (take_shard codec
          (hdr codec seq k r size (shard codec k (k + r) src size) i)
          (shard codec k (k + r) src size i)
          d
        ≡ some (ok, d'))
      × Delivered seq n packets d'
take_shard-Delivered codec seq k r size src is i d c ks same small h dist below last full n packets
      blob =
    let placed =
      place-Placed seq k r size content is i (recycle h.state)
        (recycle-Gathered seq k r size content is h.state h.held) in
    let rs =
      recovered codec seq k r size src (i ∷ is) after c ks same small placed dist below
        (omega arith) in
    let (b, din, dout) = blob after.blob_decode in
    let (d', out, delivered) =
      deliver_blob-Delivered (record (finished after seq) { blob_decode = b }) seq n packets
        (idle placed.idle) dout in
    let ends = finish-ripe codec seq k r size content after (i ∷ is) i placed.known (omega arith) in
    let decodes =
      decode_blob-deliver codec (hdr codec seq k r size content i) (content i) after k r src b
        placed.known.shards_data placed.known.shards_redundant (rw full rs) din in
    (advance d', h.goes_on ∙ rw (ends ∙ decodes ∙ out) refl, advanced d' delivered)
  where
    content : ℕ → List ℕ
    content = shard codec k (k + r) src size

    after : Decoder
    after = place (recycle h.state) (hdr codec seq k r size content i) (content i)

    idle : after.ready_for_output ≡ false → (finished after seq).ready_for_output ≡ false
    idle e = unfold put_group in e

    advanced : (d' : Decoder) → Delivered seq n packets d' → Delivered seq n packets (advance d')
    advanced d' h =
        unfold advance in
        record { ready = h.ready; count = h.count; arrived = h.arrived; refused = h.refused }
