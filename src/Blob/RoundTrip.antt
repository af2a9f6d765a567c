-- ===== src/Blob/RoundTrip.antt =====
-- A blob comes back: the shards of any packets, read in, give those packets.
use udpspeeder.Base.{
  ℕ, zero, suc, ◌+◌, ◌*◌, ◌≤◌, ◌<◌, ◌≡◌, refl, ap, some, List, [], arith, length, All, ltb,
  if◌then◌else◌,
}
use udpspeeder.Base.Memory.{
  Memory, memcpy, Holds, Holds-agree, Holds-memcpy, Holds-memcpy_before, length-slice,
}
use udpspeeder.Bytes.{write_u32, read_u32, round_up_div}
use udpspeeder.Bytes.Laws.{u32_bytes, write_u32-memcpy, read_u32_of_Holds, round_up_div-covers}
use udpspeeder.Blob.{
  BlobEncode, BlobDecode, encode_clear, encode_inputs, encode_output, decode_clear, decode_inputs,
  decode_output, shards, parse_packets, input_buf_size, max_blob_packet_num, max_fec_packet_num,
  int_of_u32_rounds, same_len,
}
use udpspeeder.Blob.Serial.{frames, AllShort}
use udpspeeder.Blob.Encode.{HoldsPackets, encode_clear-HoldsPackets, encode_inputs-HoldsPackets}
use udpspeeder.Blob.Decode.{Received, decode_inputs-Received, parse_packets_of_Holds}

pub length-shards : (m : Memory) (len i n : ℕ) → length (shards m len i n) ≡ n
unfolding shards
length-shards m len i zero = refl
length-shards m len i (suc n) = ap suc (length-shards m len (i + 1) n)

pub shards-AllLength : (m : Memory) (len i n : ℕ) → All (λ s. length s ≡ len) (shards m len i n)
unfolding shards
shards-AllLength m len i zero = tt
shards-AllLength m len i (suc n) = (length-slice m (len * i) len, shards-AllLength m len (i + 1) n)

-- Rounding up adds less than one more shard.
round_up_div-mul-lt : (a n : ℕ) → 0 < n → round_up_div a n * n < a + n
unfolding round_up_div
round_up_div-mul-lt a n h = grind arith

decode_clear-Received :
    (buf : Memory) (len : ℕ) (d : BlobDecode) → Received buf len 0 (decode_clear d)
unfolding decode_clear same_len
decode_clear-Received buf len d = record {
  copied = λ q h. elim h [ ];
  filled = omega arith;
  counted = refl;
  lengths = refl;
}

-- The packets `ss` are a blob that fits the buffers of both sides.
pub record Fits (n : ℕ) (ss : List (List ℕ)) : Type 0 where
  pub shards_pos : 0 < n
  pub shards_few : n ≤ max_fec_packet_num
  pub packets_few : length ss ≤ max_blob_packet_num
  pub packets_short : AllShort ss
  pub room : 4 + length (frames ss) + n + 100 < input_buf_size

-- What a decoder finds in a buffer that holds the count and the frames.
decode_output_of_Received :
    (buf : Memory) (len n : ℕ) (ss : List (List ℕ)) (d : BlobDecode)
    → Received buf len n d
    → Fits n ss
    → 4 + length (frames ss) ≤ len * n
    → Holds buf 0 (u32_bytes (length ss))
    → Holds buf 4 (frames ss)
    → decode_output d ≡ some (length ss, ss)
unfolding decode_output int_of_u32_rounds
decode_output_of_Received buf len n ss d h fits covers count framed =
    rw count' (rw rounds (rw packets (ground (arith, h.filled, fits.packets_few))))
  where
    count' : read_u32 d.input_buf 0 ≡ length ss
    count' = read_u32_of_Holds d.input_buf 0 (length ss) (omega (arith, fits.packets_few)) (
        Holds-agree buf d.input_buf 0 (u32_bytes (length ss))
          (λ q lo hi. h.copied q (omega (arith, h.filled))) count)

    rounds : (if ltb (length ss) 0x80000000 then length ss else 0) ≡ length ss
    rounds = ground (arith, fits.packets_few)

    packets : parse_packets d.input_buf d.current_len 4 (length ss) ≡ some ss
    packets =
        parse_packets_of_Holds d.input_buf d.current_len 4 ss
          (Holds-agree buf d.input_buf 4 (frames ss)
            (λ q lo hi. h.copied q (omega (arith, h.filled))) framed)
          fits.packets_short (omega (arith, h.filled))

-- The buffer that `output` cuts into shards.
output_buffer :
    (e : BlobEncode) (ss : List (List ℕ)) (n : ℕ)
    → HoldsPackets ss e
    → Holds (encode_output e n).0.input_buf 0 (u32_bytes (length ss))
      × Holds (encode_output e n).0.input_buf 4 (frames ss)
unfolding encode_output
output_buffer e ss n h = rw (← h.counted) (
  Holds-agree (memcpy e.input_buf 0 (u32_bytes e.counter)) (write_u32 e.input_buf 0 e.counter) 0
      (u32_bytes e.counter) (λ q lo hi. write_u32-memcpy e.input_buf 0 e.counter q)
      (Holds-memcpy e.input_buf 0 (u32_bytes e.counter)),
  Holds-agree (memcpy e.input_buf 0 (u32_bytes e.counter)) (write_u32 e.input_buf 0 e.counter) 4
      (frames ss) (λ q lo hi. write_u32-memcpy e.input_buf 0 e.counter q)
      (Holds-memcpy_before e.input_buf 4 0 (frames ss) (u32_bytes e.counter) (omega arith)
        h.framed),
)

-- The shards of an encoder that holds `ss`, read into a cleared decoder.
pub decode-encode_output :
    (e : BlobEncode) (d0 : BlobDecode) (ss : List (List ℕ)) (n : ℕ)
    → HoldsPackets ss e
    → Fits n ss
    → (d : BlobDecode) × (decode_inputs (decode_clear d0) (encode_output e n).1 ≡ some d)
      × (decode_output d ≡ some (length ss, ss))
unfolding encode_output
decode-encode_output e d0 ss n h fits =
    let (d, run, got) =
      decode_inputs-Received buf len 0 n (decode_clear d0) (decode_clear-Received buf len d0)
        (omega (arith, fits.shards_few)) (omega (arith, few, fits.room, h.filled)) in
    let e' : 0 + n ≡ n = omega arith in
    let there = output_buffer e ss n h in
    (
      d,
      run,
      decode_output_of_Received buf len n ss d (rw e' at got) fits
          (omega (arith, round_up_div-covers e.current_len n fits.shards_pos, h.filled)) there.0
          there.1,
    )
  where
    buf : Memory
    buf = (encode_output e n).0.input_buf

    len : ℕ
    len = round_up_div e.current_len n

    few : round_up_div e.current_len n * n < e.current_len + n
    few = round_up_div-mul-lt e.current_len n fits.shards_pos

-- Any packets that fit are taken by a cleared encoder, whatever its buffer held before; cut into `n`
-- shards of one length and read into a cleared decoder they come back in order.
pub blob_round_trip :
    (e0 : BlobEncode) (d0 : BlobDecode) (ss : List (List ℕ)) (n : ℕ)
    → Fits n ss
    → (e : BlobEncode) × (d : BlobDecode) × (encode_inputs (encode_clear e0) ss ≡ some e)
      × (length (encode_output e n).1 ≡ n)
      × All (λ s. length s ≡ (encode_output e n).2) (encode_output e n).1
      × (decode_inputs (decode_clear d0) (encode_output e n).1 ≡ some d)
      × (decode_output d ≡ some (length ss, ss))
unfolding encode_output
blob_round_trip e0 d0 ss n fits =
    let cleared = encode_clear-HoldsPackets e0 in
    let (e, run, held) =
      encode_inputs-HoldsPackets [] ss (encode_clear e0) cleared fits.packets_short
        (omega (arith, cleared.counted, fits.packets_few))
        (omega (arith, cleared.filled, fits.room)) in
    let (d, back, out) = decode-encode_output e d0 ss n held fits in
    (e, d, run, length-shards _ _ 0 n, shards-AllLength _ _ 0 n, back, out)
