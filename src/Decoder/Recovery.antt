-- ===== src/Decoder/Recovery.antt =====
-- Any `k` shards of a group of mode 0, in any order, bring back the packets of its blob.
use udpspeeder.Base.{
  ℕ, zero, suc, ◌+◌, ◌^◌, ◌≤◌, ◌<◌, ◌≡◌, ◌≢◌, refl, ◌∙◌, true, false, List, [], ◌∷◌, map, Option,
  some, length, arith, ◌>>=◌, All, get_or,
}
use udpspeeder.Replay.{is_valid}
use udpspeeder.Blob.{
  BlobEncode, BlobDecode, decode_clear, decode_inputs, decode_output, encode_output, buf_len,
}
use udpspeeder.Blob.Encode.{HoldsPackets}
use udpspeeder.Blob.RoundTrip.{Fits, decode-encode_output, length-shards, shards-AllLength}
use udpspeeder.Rs.{Codec, Corrects, shard}
use udpspeeder.Decoder.Wire.{Header, is_refused}
use udpspeeder.Decoder.State.{Decoder, output}
use udpspeeder.Decoder.Deliver.{as_packet}
use udpspeeder.Decoder.{input, take_shard}
use udpspeeder.Decoder.Refusal.{wire, parse_header-wire}
use udpspeeder.Decoder.Collect.{header, memb}
use udpspeeder.Decoder.Joins.{Joins, Fresh, first_Joins, next_Joins}
use udpspeeder.Decoder.Complete.{Distinct, Delivered, take_shard-Gathered, take_shard-Delivered}

-- The calls of `input` in sequence.
unfoldable pub inputs : Codec → Decoder → List (List ℕ) → Option Decoder
inputs codec d [] = some d
inputs codec d (s ∷ ss) = input codec d s >>= λ (reply, d'). inputs codec d' ss

-- The shard numbers in the order of arrival: each is new to those before it.
abbrev pub NewTo : List ℕ → List ℕ → Type 0
NewTo got [] = Unit {0}
NewTo got (i ∷ is) = (memb i got ≡ false) × NewTo (i ∷ got) is

get_or-AllLength :
    (src : List (List ℕ)) (size i : ℕ)
    → All (λ s. length s ≡ size) src
    → i < length src
    → length (get_or src i []) ≡ size
get_or-AllLength [] size i a h = absurd (omega arith)
get_or-AllLength (s ∷ src) size zero a h = a.0
get_or-AllLength (s ∷ src) size (suc i) a h = get_or-AllLength src size i a.1 (omega arith)

pub length-shard :
    (codec : Codec) (k n : ℕ) (src : List (List ℕ)) (size i : ℕ)
    → Corrects codec k n
    → length src ≡ k
    → All (λ s. length s ≡ size) src
    → length (shard codec k n src size i) ≡ size
length-shard codec k n src size i c ks same =
    ground (arith, get_or-AllLength src size i same, c.encoded_length src i size ks same)

accepted :
    (h : Header) (payload : List ℕ)
    → h.type ≡ 0
    → h.data_num ≢ 0
    → h.data_num + h.redundant_num < 255
    → h.inner_index < h.data_num + h.redundant_num
    → is_refused h payload ≡ false
unfolding is_refused
accepted h payload mode data_pos total inner = ground arith

-- A well-formed shard of a group that is not closed goes on to `take_shard`.
input-wire :
    (codec : Codec) (d : Decoder) (h : Header) (payload : List ℕ)
    → h.seq < 2 ^ 32
    → h.type ≡ 0
    → h.data_num ≢ 0
    → h.data_num + h.redundant_num < 255
    → h.inner_index < h.data_num + h.redundant_num
    → length payload + 108 < buf_len
    → is_valid d.anti_replay h.seq ≡ true
    → input codec d (wire h payload) ≡ take_shard codec h payload d
unfolding input
input-wire codec d h payload small mode data_pos total inner fits valid =
    let open_header = accepted h payload mode data_pos total inner in
    rw (parse_header-wire h payload small) (ground arith)

module _ (codec : Codec) (seq k r size : ℕ) (src : List (List ℕ)) where
  abbrev content : ℕ → List ℕ
  content = shard codec k (k + r) src size

  -- Shard `i` of the group on the wire.
  abbrev pub packet : ℕ → List ℕ
  packet i = wire (header seq k r size content i) (content i)

  -- What is known of the group and of the sizes.
  pub record Sendable : Type 0 where
    pub corrects : Corrects codec k (k + r)
    pub seq_fits : seq < 2 ^ 32
    pub data_pos : k ≢ 0
    pub total : k + r < 255
    pub size_fits : size + 108 < buf_len
    pub src_length : length src ≡ k
    pub same_size : All (λ s. length s ≡ size) src

  input-packet :
      (d : Decoder) (i : ℕ)
      → Sendable
      → i < k + r
      → is_valid d.anti_replay seq ≡ true
      → input codec d (packet i) ≡ take_shard codec (header seq k r size content i) (content i) d
  input-packet d i s below valid =
      input-wire codec d (header seq k r size content i) (content i) s.seq_fits refl s.data_pos
        s.total below
        (omega (
          arith,
          length-shard codec k (k + r) src size i s.corrects s.src_length s.same_size,
          s.size_fits,
        ))
        valid

  -- The shard `i` is let in, and `is` are still to come.
  collect :
      (is got : List ℕ) (i : ℕ) (d : Decoder)
      → Sendable
      → is_valid d.anti_replay seq ≡ true
      → Joins codec seq k r size content got i d
      → Distinct (i ∷ got)
      → All (λ j. j < k + r) (i ∷ got)
      → NewTo (i ∷ got) is
      → All (λ j. j < k + r) is
      → length got + 1 + length is ≡ k
      → d.index + 1 + length is ≤ d.fec_buff_num
      → (n : ℕ) (packets : List (List ℕ))
      → ((b0 : BlobDecode)
          → (b : BlobDecode) × (decode_inputs (decode_clear b0) src ≡ some b)
            × (decode_output b ≡ some (n, packets)))
      → (d' : Decoder) × (inputs codec d (map packet (i ∷ is)) ≡ some d')
        × Delivered seq n packets d'
  unfolding inputs
  collect [] got i d s valid h dist below new more all room n packets blob =
      let full = length-shard codec k (k + r) src size i s.corrects s.src_length s.same_size in
      let (d', run, out) =
        take_shard-Delivered codec seq k r size src got i d s.corrects s.src_length s.same_size
          (omega (arith, s.total)) h dist below (omega arith) full n packets blob in
      (d', rw (input-packet d i s below.0 valid ∙ run) refl, out)
  collect (j ∷ is) got i d s valid h dist below new more all room n packets blob =
      let full = length-shard codec k (k + r) src size j s.corrects s.src_length s.same_size in
      let (d1, run, got1, index_eq, num_eq) =
        take_shard-Gathered codec seq k r size content d got i h (omega arith) (omega arith) in
      let joins =
        next_Joins codec seq k r size content d1 (i ∷ got) j got1 s.data_pos full new.0
          (omega (arith, index_eq, num_eq)) in
      let (d', rest, out) =
        collect is (i ∷ got) j d1 s got1.valid joins (new.0, dist) (more.0, below) new.1 more.1
          (omega arith) (omega (arith, index_eq, num_eq)) n packets blob in
      (d', rw (input-packet d i s below.0 valid ∙ run) rest, out)

output_of_Delivered :
    (seq n : ℕ) (packets : List (List ℕ)) (d : Decoder)
    → Delivered seq n packets d
    → (output d).1 ≡ some (n, map as_packet packets)
unfolding output
output_of_Delivered seq n packets d h = ground (arith, h.ready, h.count, h.arrived)

pub output_length : (e : BlobEncode) (k : ℕ) → length (encode_output e k).1 ≡ k
unfolding encode_output
output_length e k = length-shards _ _ 0 k

output_sizes :
    (e : BlobEncode) (k : ℕ) → All (λ s. length s ≡ (encode_output e k).2) (encode_output e k).1
unfolding encode_output
output_sizes e k = shards-AllLength _ _ 0 k

-- An encoder holds the packets `ss` of a blob, which fit. It is cut into `k` shards, and a code that
-- corrects makes `r` more; `k + r` is below 255, a shard fits a buffer of the decoder, and the group's
-- number is a 32-bit word. Of these `k + r` shards any `k`, each once and in any order, fed to a decoder
-- that has not met the group and has `k` entries left before its table wraps, make `output` give the
-- packets in order; from then on the decoder refuses the group's number.
pub any_k_shards_recover :
    (codec : Codec) (seq k r : ℕ) (e : BlobEncode) (ss : List (List ℕ)) (d : Decoder) (is : List ℕ)
    → Corrects codec k (k + r)
    → HoldsPackets ss e
    → Fits k ss
    → seq < 2 ^ 32
    → k + r < 255
    → (encode_output e k).2 + 108 < buf_len
    → Fresh seq d
    → d.index + k ≤ d.fec_buff_num
    → NewTo [] is
    → All (λ i. i < k + r) is
    → length is ≡ k
    → (d' : Decoder) × (inputs codec d
          (map (packet codec seq k r (encode_output e k).2 (encode_output e k).1) is)
        ≡ some d')
      × ((output d').1 ≡ some (length ss, map as_packet ss))
      × (is_valid d'.anti_replay seq ≡ false)
any_k_shards_recover codec seq k r e ss d [] c held fits small total size fresh room new below all =
    absurd (omega (arith, fits.shards_pos))
any_k_shards_recover codec seq k r e ss d (i ∷ is) c held fits small total size fresh room new below
      all =
    let joins =
      first_Joins codec seq k r len (shard codec k (k + r) src len) d i fresh s.data_pos full
        (omega (arith, fits.shards_pos)) in
    let (d', run, out) =
      collect codec seq k r len src is [] i d s fresh.valid joins (refl, tt) (below.0, tt) new.1
        below.1 (omega arith) (omega arith) (length ss) ss
        (λ b0. decode-encode_output e b0 ss k held fits) in
    (d', run, output_of_Delivered seq (length ss) ss d' out, out.refused)
  where
    src : List (List ℕ)
    src = (encode_output e k).1

    len : ℕ
    len = (encode_output e k).2

    s : Sendable codec seq k r len src
    s = record {
      corrects = c;
      seq_fits = small;
      data_pos = omega (arith, fits.shards_pos);
      total = total;
      size_fits = size;
      src_length = output_length e k;
      same_size = output_sizes e k;
    }

    full : length (shard codec k (k + r) src len i) ≡ len
    full = length-shard codec k (k + r) src len i c s.src_length s.same_size
