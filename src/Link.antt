-- ===== src/Link.antt =====
-- From one fec_encode_manager_t to the fec_decode_manager_t at the other end: what the encoder sends
-- for a group of mode 0 brings the group's packets out of the decoder.
pub mod Plain
pub mod Full
use udpspeeder.Base.{
  ℕ, zero, suc, ◌+◌, ◌-◌, ◌*◌, ◌%◌, ◌/◌, ◌^◌, ◌≤◌, ◌<◌, ◌≡◌, ◌≢◌, refl, sym, ap, subst, ◌∙◌, ◌⊎◌,
  inl, inr, Bool, true, false, not, List, [], ◌∷◌, ◌++◌, map, Option, none, some, length, get_or,
  ltb, leb, ◌==◌, ◌&&◌, ◌||◌, if◌then◌else◌, assert, ◌>>=◌, ◌>>◌, arith, All, le→leb, lt→ltb,
  Bool-cases,
}
use udpspeeder.Bytes.{round_up_div}
use udpspeeder.Blob.{
  BlobEncode, encode_clear, encode_output, get_shard_len, get_shard_len_with, buf_len,
}
use udpspeeder.Blob.Encode.{HoldsPackets}
use udpspeeder.Blob.RoundTrip.{Fits}
use udpspeeder.Rs.{Codec, Corrects, shard, rs_encode2}
use udpspeeder.Rs.Recover.{rs_encode2-shards}
use udpspeeder.Replay.{is_valid}
use udpspeeder.Param.{FecParameter, RsParameter, get_tail}
use udpspeeder.Param.Laws.{IsTable}
use udpspeeder.Encoder.Best.{best_data_num}
use udpspeeder.Encoder.Best.Optimal.{best_data_num-IsBest, Affordable}
use udpspeeder.Encoder.Flush.{Encoder, ok, flush, flush_blob, with_headers, header_bytes, sent}
use udpspeeder.Encoder.{
  append_if, send_or_keep, take_packet, has_room, is_full, is_too_long, is_packet, len_of,
}
use udpspeeder.Encoder.{input as encoder_input, output as encoder_output}
use udpspeeder.Decoder.State.{Decoder}
use udpspeeder.Decoder.State
use udpspeeder.Decoder.Deliver.{as_packet}
use udpspeeder.Decoder.Joins.{Fresh}
use udpspeeder.Decoder.Recovery.{inputs, packet, NewTo, any_k_shards_recover, output_length}

-- An encoder of mode 0 that holds the packets `ss`, one at least, and may send them.
pub record Holding (e : Encoder) (ss : List (List ℕ)) : Type 0 where
  pub table : IsTable 254 e.fec_par
  pub mode : e.fec_par.mode ≡ 0
  pub pending : 1 ≤ e.counter
  pub room : e.counter < e.fec_par.queue_len
  pub idle : e.ready_for_output ≡ false
  pub seq_fits : e.seq < 2 ^ 32
  pub blob : HoldsPackets ss e.blob_encode
  pub fits : Fits 255 ss
  pub within_mtu : get_shard_len e.blob_encode e.fec_par.rs_cnt ≤ e.fec_par.mtu
  pub mtu_fits : e.fec_par.mtu + 108 < buf_len

redundant : Encoder → ℕ → ℕ
redundant e k = (e.fec_par.rs_par (k - 1)).y

-- What the choice of `k` is known to satisfy.
record Choice (e : Encoder) (k : ℕ) : Type 0 where
  positive : 1 ≤ k
  in_table : k ≤ e.fec_par.rs_cnt
  total : k + redundant e k ≤ 254
  size : (encode_output e.blob_encode k).2 ≤ e.fec_par.mtu

round_up_div_mono : (a b n : ℕ) → 0 < n → a ≤ b → round_up_div a n ≤ round_up_div b n
unfolding round_up_div
round_up_div_mono a b n pos h = grind arith

choose :
    (e : Encoder) (ss : List (List ℕ)) (k : ℕ)
    → Holding e ss
    → best_data_num e.fec_par e.blob_encode (e.fec_par.rs_par (e.fec_par.rs_cnt - 1)) ≡ some k
    → Choice e k
unfolding encode_output get_shard_len get_shard_len_with redundant
choose e ss k h chosen =
    let (best, run, positive, in_table, source, _, _) =
      best_data_num-IsBest e.fec_par e.blob_encode 254 h.table in
    let same : best ≡ k = cc (run, chosen) in
    let row = h.table.rows (k - 1) (omega (arith, same, positive, in_table)) in
    record {
      positive = omega (arith, same, positive);
      in_table = omega (arith, same, in_table);
      total = omega (arith, row, same, positive);
      size = elim source [
        | inl tail ↦ let e' : k ≡ e.fec_par.rs_cnt = sym same ∙ tail in rw e' h.within_mtu
        | inr affordable ↦ omega (
          arith,
          round_up_div_mono e.blob_encode.current_len (e.blob_encode.current_len + 2 + 0) k
              (omega (arith, same, positive)) (omega arith),
          subst (Affordable e.fec_par e.blob_encode) same affordable,
        )
      ];
    }

get_or-with_headers :
    (seq type k r j : ℕ) (ss : List (List ℕ)) (i : ℕ)
    → i < length ss
    → get_or (with_headers seq type k r j ss) i []
      ≡ header_bytes seq type k r (j + i) ++ get_or ss i []
unfolding with_headers
get_or-with_headers seq type k r j [] i h = absurd (omega arith)
get_or-with_headers seq type k r j (s ∷ ss) zero h = let e : j + 0 ≡ j = omega arith in rw e
get_or-with_headers seq type k r j (s ∷ ss) (suc i) h =
    let e : j + 1 + i ≡ j + suc i = omega arith in
    get_or-with_headers seq type k r (j + 1) ss i (omega arith) ∙ rw e

length-with_headers :
    (seq type k r j : ℕ) (ss : List (List ℕ)) → length (with_headers seq type k r j ss) ≡ length ss
unfolding with_headers
length-with_headers seq type k r j [] = refl
length-with_headers seq type k r j (s ∷ ss) = ap suc (length-with_headers seq type k r (j + 1) ss)

-- The packets of the group are the shards of its blob behind their headers.
abbrev group_packets : Codec → Encoder → ℕ → List (List ℕ)
group_packets codec e k =
    let (blob, shards, len) = encode_output e.blob_encode k in
    with_headers e.seq 0 k (redundant e k) 0 (rs_encode2 codec k (k + redundant e k) shards len)

group_packets-packet :
    (codec : Codec) (e : Encoder) (k i : ℕ)
    → Choice e k
    → i < k + redundant e k
    → get_or (group_packets codec e k) i []
      ≡ packet codec e.seq k
          (redundant e k)
          (encode_output e.blob_encode k).2
          (encode_output e.blob_encode k).1
          i
unfolding redundant
group_packets-packet codec e k i c below =
    let (blob, shards, len) = encode_output e.blob_encode k in
    let (count, at) =
      rs_encode2-shards codec k (k + r) shards len (output_length e.blob_encode k) (omega arith) in
    let kept : (k % 256 ≡ k) × (r % 256 ≡ r) × ((0 + i) % 256 ≡ i) =
      (omega (arith, c.total), omega (arith, c.total), omega (arith, c.total, below)) in
    get_or-with_headers e.seq 0 k r 0 (rs_encode2 codec k (k + r) shards len) i
      (omega (arith, count, below))
    ∙ rw (at i below, kept.0, kept.1, kept.2) refl
  where
    r : ℕ
    r = (e.fec_par.rs_par (k - 1)).y

map-packets :
    (codec : Codec) (e : Encoder) (k : ℕ) (is : List ℕ)
    → Choice e k
    → All (λ i. i < k + redundant e k) is
    → map (λ i. get_or (group_packets codec e k) i []) is
      ≡ map
          (packet codec e.seq k
            (redundant e k)
            (encode_output e.blob_encode k).2
            (encode_output e.blob_encode k).1)
          is
map-packets codec e k [] c below = refl
map-packets codec e k (i ∷ is) c below =
    cc (group_packets-packet codec e k i c below.0, map-packets codec e k is c below.1)

length-group_packets :
    (codec : Codec) (e : Encoder) (k : ℕ)
    → Choice e k
    → length (group_packets codec e k) ≡ k + redundant e k
length-group_packets codec e k c =
    let (blob, shards, len) = encode_output e.blob_encode k in
    length-with_headers e.seq 0 k (redundant e k) 0
      (rs_encode2 codec k (k + redundant e k) shards len)
    ∙ (rs_encode2-shards codec k (k + redundant e k) shards len (output_length e.blob_encode k)
        (omega arith)).0

-- The state after a group of mode 0 has been sent.
abbrev flushed : Codec → Encoder → ℕ → Encoder
flushed codec e k = record e {
  ready_for_output = true;
  first_packet_time_for_output = e.first_packet_time;
  first_packet_time = 0;
  seq = (e.seq + 1) % 2 ^ 32;
  counter = 0;
  blob_encode = encode_clear (encode_output e.blob_encode k).0;
  output = group_packets codec e k;
  timer = none;
}

flush-Holding :
    (codec : Codec) (e : Encoder) (ss : List (List ℕ)) (k : ℕ)
    → Holding e ss
    → best_data_num e.fec_par e.blob_encode (e.fec_par.rs_par (e.fec_par.rs_cnt - 1)) ≡ some k
    → Choice e k
    → flush codec e false ≡ some (flushed codec e k)
unfolding flush flush_blob get_tail sent redundant
flush-Holding codec e ss k h chosen c =
    ground (arith, h.mode, h.table.not_empty, chosen, c.positive, c.in_table, h.idle)

input-Holding :
    (codec : Codec) (g_fec_par : FecParameter) (now k : ℕ) (e e' : Encoder) (ss : List (List ℕ))
    → Holding e ss
    → flush codec e false ≡ some e'
    → encoder_input codec g_fec_par now e none ≡ some (ok, e')
unfolding encoder_input take_packet get_tail has_room send_or_keep append_if
input-Holding codec g_fec_par now k e e' ss h run =
    ground (arith, h.mode, h.pending, h.room, h.table.not_empty, run)

-- An encoder of mode 0 holds packets that it may send (`Holding`), its search for the number of data
-- shards ends in `k`, its table has `r` for `k`, and the code corrects. The call of the timer then makes
-- packets for each of the `k + r` shards. A decoder that has not met the group, and has `k` entries left
-- before its table wraps, is fed any `k` of them, each once and in any order; its `output` is then the
-- encoder's packets in order.
pub timer_flush_recovers :
    (codec : Codec) (g_fec_par : FecParameter) (now k : ℕ) (e : Encoder) (ss : List (List ℕ))
    (d : Decoder) (is : List ℕ)
    → Holding e ss
    → best_data_num e.fec_par e.blob_encode (e.fec_par.rs_par (e.fec_par.rs_cnt - 1)) ≡ some k
    → Corrects codec k (k + (e.fec_par.rs_par (k - 1)).y)
    → Fresh e.seq d
    → d.index + k ≤ d.fec_buff_num
    → NewTo [] is
    → All (λ i. i < k + (e.fec_par.rs_par (k - 1)).y) is
    → length is ≡ k
    → (e' : Encoder) × (packets : List (List ℕ)) × (d' : Decoder) × (encoder_input codec g_fec_par
          now e none
        ≡ some (ok, e'))
      × ((encoder_output e').1 ≡ some packets)
      × (length packets ≡ k + (e.fec_par.rs_par (k - 1)).y)
      × (inputs codec d (map (λ i. get_or packets i []) is) ≡ some d')
      × ((State.output d').1 ≡ some (length ss, map as_packet ss))
unfolding redundant encoder_output
timer_flush_recovers codec g_fec_par now k e ss d is h chosen corrects fresh room new below all =
    let (d', run, out, _) =
      any_k_shards_recover codec e.seq k (redundant e k) e.blob_encode ss d is corrects h.blob fits
        h.seq_fits (omega (arith, c.total)) (omega (arith, c.size, h.mtu_fits)) fresh room new below
        all in
    (
      flushed codec e k,
      group_packets codec e k,
      d',
      input-Holding codec g_fec_par now k e (flushed codec e k) ss h
          (flush-Holding codec e ss k h chosen c),
      refl,
      length-group_packets codec e k c,
      rw (map-packets codec e k is c below) run,
      out,
    )
  where
    c : Choice e k
    c = choose e ss k h chosen

    fits : Fits k ss
    fits = record {
      shards_pos = c.positive;
      shards_few = omega (arith, c.total);
      packets_few = h.fits.packets_few;
      packets_short = h.fits.packets_short;
      room = omega (arith, c.total, h.fits.room);
    }
