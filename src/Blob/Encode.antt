-- ===== src/Blob/Encode.antt =====
-- What blob_encode_t holds after any calls of `input`.
use udpspeeder.Base.{
  ℕ, ◌+◌, ◌/◌, ◌%◌, ◌^◌, ◌≤◌, ◌<◌, ◌≡◌, refl, ap, some, List, [], ◌∷◌, ◌++◌, arith, length,
  length-append, lt→ltb, le→leb,
}
use udpspeeder.Base.Memory.{
  Memory, memcpy, store, Holds, Holds-agree, Holds-memcpy, Holds-memcpy_after, Holds-append,
  memcpy-store,
}
use mathlib.Core.List.{append_assoc, append-nil}
use udpspeeder.Bytes.{write_u16}
use udpspeeder.Blob.{
  BlobEncode, encode_input, encode_inputs, encode_clear, input_buf_size, max_blob_packet_num,
}
use udpspeeder.Blob.Serial.{frame, frames, AllShort, frames-snoc}

-- The buffer holds the frames of the packets so far from offset 4 on.
pub record HoldsPackets (ss : List (List ℕ)) (e : BlobEncode) : Type 0 where
  pub framed : Holds e.input_buf 4 (frames ss)
  pub filled : e.current_len ≡ 4 + length (frames ss)
  pub counted : e.counter ≡ length ss

pub encode_clear-HoldsPackets : (e : BlobEncode) → HoldsPackets [] (encode_clear e)
unfolding encode_clear
encode_clear-HoldsPackets e = record { framed = tt; filled = refl; counted = refl }

-- The length and the bytes of a packet are written as one frame.
frame-memcpy :
    (m : Memory) (p : ℕ) (s : List ℕ) (q : ℕ)
    → memcpy (write_u16 m p (length s)) (p + 2) s q ≡ memcpy m p (frame s) q
unfolding write_u16 memcpy
frame-memcpy m p s q =
    let e : p + 1 + 1 ≡ p + 2 = omega arith in
    rw e (
      ground (
        arith,
        memcpy-store (store m (p + 1) (length s % 256)) p (length s / 2 ^ 8 % 256) (p + 2) s q,
        memcpy-store m (p + 1) (length s % 256) (p + 2) s q,
      ))

-- One call of `input` appends a packet, if the packet fits.
pub encode_input-HoldsPackets :
    (ss : List (List ℕ)) (s : List ℕ) (e : BlobEncode)
    → HoldsPackets ss e
    → length s ≤ 65535
    → e.counter + 1 ≤ max_blob_packet_num
    → e.current_len + length s + 2 + 100 < input_buf_size
    → (e' : BlobEncode) × (encode_input e s ≡ some e') × HoldsPackets (ss ++ s ∷ []) e'
unfolding encode_input
encode_input-HoldsPackets ss s e h short few fits = (
  record e { input_buf = buf; current_len = e.current_len + 2 + length s; counter = e.counter + 1 },
  rw (lt→ltb _ _ fits, le→leb _ _ short, le→leb _ _ few),
  record {
    framed =
        rw (← frames-snoc ss s) (
          Holds-append buf 4 e.current_len (frames ss) (frame s) (omega (arith, h.filled)) old new);
    filled =
        omega (arith, h.filled, ap length (frames-snoc ss s), length-append (frames ss) (frame s));
    counted = omega (arith, h.counted, length-append ss (s ∷ []));
  },
)
  where
    buf : Memory
    buf = memcpy (write_u16 e.input_buf e.current_len (length s)) (e.current_len + 2) s

    old : Holds buf 4 (frames ss)
    old =
        Holds-agree (memcpy e.input_buf e.current_len (frame s)) buf 4 (frames ss)
          (λ q lo hi. frame-memcpy e.input_buf e.current_len s q)
          (Holds-memcpy_after e.input_buf 4 e.current_len (frames ss) (frame s)
            (omega (arith, h.filled)) h.framed)

    new : Holds buf e.current_len (frame s)
    new =
        Holds-agree (memcpy e.input_buf e.current_len (frame s)) buf e.current_len (frame s)
          (λ q lo hi. frame-memcpy e.input_buf e.current_len s q)
          (Holds-memcpy e.input_buf e.current_len (frame s))

-- So any packets that fit together are taken, one after the other.
pub encode_inputs-HoldsPackets :
    (ss ts : List (List ℕ)) (e : BlobEncode)
    → HoldsPackets ss e
    → AllShort ts
    → e.counter + length ts ≤ max_blob_packet_num
    → e.current_len + length (frames ts) + 100 < input_buf_size
    → (e' : BlobEncode) × (encode_inputs e ts ≡ some e') × HoldsPackets (ss ++ ts) e'
unfolding encode_inputs
encode_inputs-HoldsPackets ss [] e h short few fits = (e, refl, rw (append-nil ss) h)
encode_inputs-HoldsPackets ss (t ∷ ts) e h short few fits =
    let (e1, run1, h1) =
      encode_input-HoldsPackets ss t e h short.0 (omega arith)
        (omega (arith, length-append (frame t) (frames ts))) in
    let (e2, run2, h2) =
      encode_inputs-HoldsPackets (ss ++ t ∷ []) ts e1 h1 short.1
        (omega (arith, h.counted, h1.counted, length-append ss (t ∷ [])))
        (omega (
          arith,
          h.filled,
          h1.filled,
          ap length (frames-snoc ss t),
          length-append (frames ss) (frame t),
          length-append (frame t) (frames ts),
        )) in
    (e2, rw run1 run2, rw (append_assoc ss (t ∷ []) ts) at h2)
