-- ===== src/Link/Plain.antt =====
-- A data packet of mode 1 between the two managers: what `input` of the encoder sends at once is what
-- `input` of the decoder is given.
use udpspeeder.Base.{
  ℕ, ◌+◌, ◌-◌, ◌≤◌, ◌<◌, ◌≡◌, refl, inl, true, false, List, [], ◌∷◌, ◌++◌, some, length, ◌==◌,
  if◌then◌else◌, arith,
}
use udpspeeder.Bytes.Laws.{u16_bytes}
use udpspeeder.Blob.{buf_len}
use udpspeeder.Rs.{Codec}
use udpspeeder.Param.{FecParameter, get_tail}
use udpspeeder.Param.Laws.{IsTable}
use udpspeeder.Encoder.Flush.{Encoder, ok, data_header}
use udpspeeder.Encoder.{
  append, append_if, start_timer, send_or_keep, take_packet, has_room, is_full, is_too_long,
  fast_send,
}
use udpspeeder.Encoder.{input as encoder_input, output as encoder_output}
use udpspeeder.Decoder.State.{Decoder, fail}
use udpspeeder.Decoder.Wire.{parse_header}
use udpspeeder.Decoder.Refusal.{input_refuses}
use udpspeeder.Decoder

-- An encoder of mode 1 whose group has room for two packets more.
pub record Open (g_fec_par : FecParameter) (e : Encoder) : Type 0 where
  pub table : IsTable 255 e.fec_par
  pub mode : e.fec_par.mode ≡ 1
  pub version : e.fec_par.version ≡ g_fec_par.version
  pub idle : e.ready_for_output ≡ false
  pub room : e.counter + 1 < e.fec_par.rs_cnt

-- The packet on the wire: no count of shards, and the length in front of the bytes.
abbrev plain : Encoder → List ℕ → List ℕ
plain e s = data_header e e.counter ++ (u16_bytes (length s) ++ s)

-- The state after the packet has come in and has been sent.
abbrev relayed : ℕ → Encoder → List ℕ → Encoder
relayed now e s = record (start_timer now e) {
  input_buf = λ i. if i == e.counter then u16_bytes (length s) ++ s else e.input_buf i;
  counter = e.counter + 1;
  ready_for_output = true;
  first_packet_time_for_output = 0;
  output = plain e s ∷ [];
}

input-relayed :
    (codec : Codec) (g_fec_par : FecParameter) (now : ℕ) (e : Encoder) (s : List ℕ)
    → Open g_fec_par e
    → length s ≤ 65535
    → encoder_input codec g_fec_par now e (some s) ≡ some (ok, relayed now e s)
unfolding encoder_input take_packet get_tail has_room is_full is_too_long send_or_keep append_if
    append fast_send start_timer data_header
input-relayed codec g_fec_par now e s h short =
    let last : (e.fec_par.rs_par (e.fec_par.rs_cnt - 1)).x ≡ e.fec_par.rs_cnt = omega (
      arith,
      (h.table.rows (e.fec_par.rs_cnt - 1) (omega (arith, h.table.not_empty))).0,
      h.table.not_empty,
    ) in
    let few : e.fec_par.rs_cnt ≤ 255 =
      omega
        (arith, (h.table.rows (e.fec_par.rs_cnt - 1) (omega (arith, h.table.not_empty))).1, last) in
    ground (arith, last, few, h.mode, h.version, h.idle, h.room)

-- An encoder of mode 1 has a good table, the version of the global parameters, nothing to hand out and
-- room for two packets more. It sends a packet that fits a decoder's buffer at once, and every decoder
-- refuses what it sent, in whatever state it is.
pub plain_packet_refused :
    (codec : Codec) (g_fec_par : FecParameter) (now : ℕ) (e : Encoder) (s : List ℕ) (d : Decoder)
    → Open g_fec_par e
    → length s + 110 < buf_len
    → (e' : Encoder) × (packet : List ℕ) × (encoder_input codec g_fec_par now e (some s)
        ≡ some (ok, e'))
      × ((encoder_output e').1 ≡ some (packet ∷ []))
      × (Decoder.input codec d packet ≡ some (fail, d))
unfolding encoder_output parse_header data_header
plain_packet_refused codec g_fec_par now e s d h short = (
  relayed now e s,
  plain e s,
  input-relayed codec g_fec_par now e s h (omega arith),
  refl,
  input_refuses codec d (plain e s) (omega arith) (inl (omega arith)),
)
