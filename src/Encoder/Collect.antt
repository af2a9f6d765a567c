-- ===== src/Encoder/Collect.antt =====
-- The packets that wait in an encoder of mode 0.
use udpspeeder.Base.{
  ℕ, ◌+◌, ◌-◌, ◌*◌, ◌≤◌, ◌<◌, ◌≡◌, refl, ◌∙◌, false, List, [], ◌∷◌, ◌++◌, some, length,
  length-append, ◌==◌, arith, Bool-cases, inl, inr,
}
use udpspeeder.Bytes.{round_up_div}
use udpspeeder.Bytes.Laws.{round_up_div-covers}
use udpspeeder.Blob.{BlobEncode, encode_input, get_shard_len_with, buf_len}
use udpspeeder.Blob.Encode.{HoldsPackets, encode_input-HoldsPackets}
use udpspeeder.Rs.{Codec}
use udpspeeder.Param.{FecParameter, get_tail}
use udpspeeder.Param.Laws.{IsTable}
use udpspeeder.Encoder.Flush.{Encoder, ok}
use udpspeeder.Encoder.{
  input, append, append_if, start_timer, send_or_keep, take_packet, has_room, is_full, is_too_long,
  fast_send,
}

-- The packets `ss` wait, and nothing is ready to be sent.
pub record Waiting (g_fec_par : FecParameter) (e : Encoder) (ss : List (List ℕ)) : Type 0 where
  pub table : IsTable 254 e.fec_par
  pub mode : e.fec_par.mode ≡ 0
  pub version : e.fec_par.version ≡ g_fec_par.version
  pub idle : e.ready_for_output ≡ false
  pub blob : HoldsPackets ss e.blob_encode
  pub counted : e.counter ≡ length ss
  pub queue : e.fec_par.queue_len ≤ 30000
  pub mtu_fits : e.fec_par.mtu + 108 < buf_len

-- The state after the packet has been put behind the others.
abbrev grown : ℕ → Encoder → BlobEncode → Encoder
grown now e blob = record (start_timer now e) { blob_encode = blob; counter = e.counter + 1 }

tail_lem :
    (e : Encoder)
    → IsTable 254 e.fec_par
    → (e.fec_par.rs_par (e.fec_par.rs_cnt - 1)).x ≡ e.fec_par.rs_cnt
tail_lem e t =
    omega (arith, (t.rows (e.fec_par.rs_cnt - 1) (omega (arith, t.not_empty))).0, t.not_empty)

input-grown :
    (codec : Codec) (g_fec_par : FecParameter) (now : ℕ) (e : Encoder) (ss : List (List ℕ))
    (s : List ℕ) (blob : BlobEncode)
    → Waiting g_fec_par e ss
    → encode_input e.blob_encode s ≡ some blob
    → e.counter + 1 < e.fec_par.queue_len
    → get_shard_len_with e.blob_encode e.fec_par.rs_cnt (length s) ≤ e.fec_par.mtu
    → input codec g_fec_par now e (some s) ≡ some (ok, grown now e blob)
unfolding input take_packet get_tail has_room is_full is_too_long send_or_keep append_if append
    fast_send start_timer
input-grown codec g_fec_par now e ss s blob w run room fits =
    let last = tail_lem e w.table in
    ground (arith, last, w.mode, w.version, w.table.not_empty, run, room, fits)

area : (d n : ℕ) → d ≤ 3691 → n ≤ 254 → d * n ≤ 937514
area d n h k = grind arith

-- Shards within the mtu are a blob within its buffer.
fits_buffer :
    (par : FecParameter) (blob : BlobEncode) (len : ℕ)
    → IsTable 254 par
    → par.mtu + 108 < buf_len
    → get_shard_len_with blob par.rs_cnt len ≤ par.mtu
    → blob.current_len + 2 + len ≤ 937514
unfolding get_shard_len_with
fits_buffer par blob len t mtu fits =
    let row = t.rows (par.rs_cnt - 1) (omega (arith, t.not_empty)) in
    omega (
      arith,
      round_up_div-covers (blob.current_len + 2 + len) par.rs_cnt t.not_empty,
      area (round_up_div (blob.current_len + 2 + len) par.rs_cnt) par.rs_cnt (omega arith)
          (omega (arith, row, t.not_empty)),
    )

start_timer_keeps :
    (now : ℕ) (e : Encoder)
    → ((start_timer now e).fec_par ≡ e.fec_par)
      × ((start_timer now e).ready_for_output ≡ e.ready_for_output)
unfolding start_timer
start_timer_keeps now e = elim (Bool-cases (e.counter == 0)) [
  | inl first ↦ rw first (refl, refl)
  | inr later ↦ rw later (refl, refl)
]

-- Packets wait in an encoder of mode 0 (`Waiting`). Where the shards with one packet more stay within
-- the mtu and the queue has room for two, `input` puts a packet of less than 2 ^ 16 bytes behind those
-- that wait, and nothing gets ready to be sent.
pub input-Waiting :
    (codec : Codec) (g_fec_par : FecParameter) (now : ℕ) (e : Encoder) (ss : List (List ℕ))
    (s : List ℕ)
    → Waiting g_fec_par e ss
    → length s ≤ 65535
    → e.counter + 1 < e.fec_par.queue_len
    → get_shard_len_with e.blob_encode e.fec_par.rs_cnt (length s) ≤ e.fec_par.mtu
    → (e' : Encoder) × (input codec g_fec_par now e (some s) ≡ some (ok, e'))
      × Waiting g_fec_par e' (ss ++ s ∷ [])
input-Waiting codec g_fec_par now e ss s w short room fits =
    let (blob, run, held) =
      encode_input-HoldsPackets ss s e.blob_encode w.blob short
        (omega (arith, w.blob.counted, w.counted, w.queue))
        (omega (arith, fits_buffer e.fec_par e.blob_encode (length s) w.table w.mtu_fits fits)) in
    let (par, ready) = start_timer_keeps now e in
    (
      grown now e blob,
      input-grown codec g_fec_par now e ss s blob w run room fits,
      record {
        table = rw par w.table;
        mode = rw par w.mode;
        version = rw par w.version;
        idle = ready ∙ w.idle;
        blob = held;
        counted = omega (arith, w.counted, length-append ss (s ∷ []));
        queue = rw par w.queue;
        mtu_fits = rw par w.mtu_fits;
      },
    )
