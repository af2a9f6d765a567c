-- ===== src/Blob/Decode.antt =====
-- What blob_decode_t makes of the shards of a buffer.
use udpspeeder.Base.{
  ℕ, zero, suc, ◌+◌, ◌*◌, ◌≤◌, ◌<◌, ◌≡◌, refl, ◌∙◌, true, false, some, List, [], ◌∷◌, arith, length,
  length-append, lt→ltb, le→leb, Bool-cases, ltb, inl, inr,
}
use udpspeeder.Base.Memory.{
  Memory, memcpy, slice, Holds, Holds-append_left, Holds-append_right, memcpy_below, slice_of_Holds,
  length-slice,
}
use udpspeeder.Bytes.{read_u16}
use udpspeeder.Bytes.Laws.{u16_bytes, read_u16_of_Holds}
use udpspeeder.Blob.{
  BlobDecode, decode_input, decode_inputs, parse_packets, same_len, shards, input_buf_size,
  max_fec_packet_num,
}
use udpspeeder.Blob.Serial.{frame, frames, AllShort}

memcpy-slice : (m m' : Memory) (p n q : ℕ) → p ≤ q → q < p + n → memcpy m p (slice m' p n) q ≡ m' q
unfolding memcpy slice
memcpy-slice m m' p zero q lo hi = absurd (omega arith)
memcpy-slice m m' p (suc n) q lo hi = ground (arith, memcpy-slice m m' (p + 1) n q)

-- What has been received agrees with the buffer that was sent; all shards have one length.
pub record Received (buf : Memory) (len i : ℕ) (d : BlobDecode) : Type 0 where
  pub copied : (q : ℕ) → q < d.current_len → d.input_buf q ≡ buf q
  pub filled : d.current_len ≡ len * i
  pub counted : d.counter ≡ i
  pub lengths : same_len d.last_len len ≡ true

pub decode_input-Received :
    (buf : Memory) (len i : ℕ) (d : BlobDecode)
    → Received buf len i d
    → i + 1 ≤ max_fec_packet_num
    → len * i + len + 100 < input_buf_size
    → (d' : BlobDecode) × (decode_input d (slice buf (len * i) len) ≡ some d')
      × Received buf len (i + 1) d'
unfolding decode_input same_len
decode_input-Received buf len i d h few fits = (
  record d {
    input_buf = memcpy d.input_buf d.current_len (slice buf (len * i) len);
    current_len = d.current_len + len;
    last_len = some len;
    counter = d.counter + 1;
  },
  rw (
    length-slice buf (len * i) len,
    h.lengths,
    le→leb (d.counter + 1) 255 (omega (arith, h.counted)),
    lt→ltb (d.current_len + len + 100) input_buf_size (omega (arith, h.filled)),
  ),
  record {
    copied = λ q hi. elim (Bool-cases (ltb q d.current_len)) [
      | inl old ↦
          memcpy_below d.input_buf d.current_len (slice buf (len * i) len) q (ground arith)
          ∙ h.copied q (ground arith)
      | inr new ↦ rw h.filled (
          memcpy-slice d.input_buf buf (len * i) len q (ground (arith, h.filled))
            (omega (arith, h.filled)))
    ];
    filled = grind (arith, h.filled);
    counted = omega (arith, h.counted);
    lengths = ground arith;
  },
)

pub decode_inputs-Received :
    (buf : Memory) (len i n : ℕ) (d : BlobDecode)
    → Received buf len i d
    → i + n ≤ max_fec_packet_num
    → len * (i + n) + 100 < input_buf_size
    → (d' : BlobDecode) × (decode_inputs d (shards buf len i n) ≡ some d')
      × Received buf len (i + n) d'
unfolding decode_inputs shards
decode_inputs-Received buf len i zero d h few fits =
    let e : i + 0 ≡ i = omega arith in (d, refl, rw e h)
decode_inputs-Received buf len i (suc n) d h few fits =
    let (d1, run1, h1) = decode_input-Received buf len i d h (omega arith) (grind arith) in
    let (d2, run2, h2) =
      decode_inputs-Received buf len (i + 1) n d1 h1 (omega arith) (grind arith) in
    let e : i + 1 + n ≡ i + suc n = omega arith in (d2, rw run1 run2, rw e at h2)

-- The loop of `output` finds the packets whose frames stand in the buffer.
pub parse_packets_of_Holds :
    (buf : Memory) (current_len pos : ℕ) (ss : List (List ℕ))
    → Holds buf pos (frames ss)
    → AllShort ss
    → pos + length (frames ss) ≤ current_len
    → parse_packets buf current_len pos (length ss) ≡ some ss
unfolding parse_packets
parse_packets_of_Holds buf cur pos [] h short fits = refl
parse_packets_of_Holds buf cur pos (s ∷ ss) h short fits = go (
    parse_packets_of_Holds buf cur (pos + 2 + length s) ss
      (Holds-append_right buf pos (pos + 2 + length s) (frame s) (frames ss) (omega arith) h)
      short.1 (omega (arith, length-append s (frames ss))))
  where
    framed : Holds buf pos (frame s)
    framed = Holds-append_left buf pos (frame s) (frames ss) h

    head : read_u16 buf pos ≡ length s
    head =
        read_u16_of_Holds buf pos (length s) (omega (arith, short.0))
          (Holds-append_left buf pos (u16_bytes (length s)) s framed)

    body : slice buf (pos + 2) (length s) ≡ s
    body =
        slice_of_Holds buf (pos + 2) s
          (Holds-append_right buf pos (pos + 2) (u16_bytes (length s)) s (omega arith) framed)

    lt_false : ltb cur (pos + 2) ≡ false
    lt_false = ground (arith, length-append s (frames ss))

    lt_false' : ltb cur (pos + 2 + length s) ≡ false
    lt_false' = ground (arith, length-append s (frames ss))

    go :
        parse_packets buf cur (pos + 2 + length s) (length ss) ≡ some ss
        → parse_packets buf cur pos (length (s ∷ ss)) ≡ some (s ∷ ss)
    go tail = rw (head, lt_false, lt_false', tail, body)
