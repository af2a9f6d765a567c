-- ===== src/Encoder/Flush.antt =====
-- The state of fec_encode_manager_t, and how `input` makes the packets of a group.
use udpspeeder.Base.{
  ℕ, zero, suc, ◌+◌, ◌-◌, ◌%◌, ◌^◌, Bool, true, not, List, [], ◌∷◌, ◌++◌, Option, none, some,
  length, drop, replicate, ltb, leb, ◌==◌, ◌&&◌, if◌then◌else◌, assert, ◌>>=◌, ◌>>◌,
}
use udpspeeder.Bytes.Laws.{u32_bytes}
use udpspeeder.Blob.{BlobEncode, encode_clear, encode_output}
use udpspeeder.Rs.{Codec, rs_encode2}
use udpspeeder.Param.{FecParameter, get_tail}
use udpspeeder.Encoder.Best.{best_data_num}

pub record Encoder : Type 0 where
  pub seq : ℕ
  pub fec_par : FecParameter
  pub first_packet_time : ℕ
  pub first_packet_time_for_output : ℕ
  pub blob_encode : BlobEncode
  pub input_buf : ℕ → List ℕ
  pub counter : ℕ
  pub ready_for_output : Bool
  -- The `output_n` packets behind `output_buf` and `output_len`.
  pub output : List (List ℕ)
  -- The timeout of the running timer.
  pub timer : Option ℕ

pub data Reply : Type 0 where
  ok fail : Reply

-- The eight bytes of a header; a number is cut to an `unsigned char`.
abbrev pub header_bytes : (seq type data_num redundant_num index : ℕ) → List ℕ
header_bytes seq type data_num redundant_num index =
    u32_bytes seq ++ type % 256 ∷ data_num % 256 ∷ redundant_num % 256 ∷ index % 256 ∷ []

-- In mode 1 a data packet is sent before the numbers of its group are known.
unfoldable pub data_header : Encoder → ℕ → List ℕ
data_header e i = header_bytes e.seq e.fec_par.mode 0 0 i

-- Headers put in front of the shards, whose numbers start at `i`.
unfoldable pub with_headers : (seq type k r i : ℕ) → List (List ℕ) → List (List ℕ)
with_headers seq type k r i [] = []
with_headers seq type k r i (s ∷ ss) =
    (header_bytes seq type k r i ++ s) ∷ with_headers seq type k r (i + 1) ss

-- The rest of the state after a group has been made.
unfoldable pub sent : Encoder → BlobEncode → List (List ℕ) → Option Encoder
sent e blob packets = do
  assert (not e.ready_for_output)
  some (record e {
    ready_for_output = true;
    first_packet_time_for_output = e.first_packet_time;
    first_packet_time = 0;
    seq = (e.seq + 1) % 2 ^ 32;
    counter = 0;
    blob_encode = encode_clear blob;
    output = packets;
    timer = none;
  })

module _ (codec : Codec) where
  -- Mode 0: the blob is cut into the best number of shards.
  unfoldable pub flush_blob : Encoder → Option Encoder
  flush_blob e = do
    tail ← get_tail e.fec_par
    k ← best_data_num e.fec_par e.blob_encode tail
    assert (leb 1 k && leb k e.fec_par.rs_cnt)
    let r = (e.fec_par.rs_par (k - 1)).y
    let (blob, shards, fec_len) = encode_output e.blob_encode k
    sent e blob
        (with_headers e.seq e.fec_par.mode k r 0 (rs_encode2 codec k (k + r) shards fec_len))

  -- The packets so far, from number `i` on, and the longest of them.
  rows : Encoder → ℕ → ℕ → List (List ℕ)
  rows e i zero = []
  rows e i (suc n) = e.input_buf i ∷ rows e (i + 1) n

  longest : ℕ → List (List ℕ) → ℕ
  longest m [] = m
  longest m (s ∷ ss) = longest (if ltb m (length s) then length s else m) ss

  pad : ℕ → List (List ℕ) → List (List ℕ)
  pad len [] = []
  pad len (s ∷ ss) = (s ++ replicate (len - length s) 0) ∷ pad len ss

  -- Mode 1: the data packets went out as they came; the last one, if this call brought it, and the
  -- redundant ones are left to send.
  unfoldable pub flush_packets : Encoder → Bool → Option Encoder
  unfolding rows longest pad
  flush_packets e is_packet = do
    assert (leb e.counter e.fec_par.rs_cnt)
    let k = e.counter
    let r = (e.fec_par.rs_par (k - 1)).y
    let data_rows = rows e 0 k
    let fec_len = longest 0 data_rows
    let redundant = drop k (rs_encode2 codec k (k + r) (pad fec_len data_rows) fec_len)
    let last = (if is_packet then (data_header e (k - 1) ++ e.input_buf (k - 1)) ∷ [] else [])
    sent e e.blob_encode (last ++ with_headers e.seq e.fec_par.mode k r k redundant)

  unfoldable pub flush : Encoder → Bool → Option Encoder
  flush e is_packet = if e.fec_par.mode == 0 then flush_blob e else flush_packets e is_packet
