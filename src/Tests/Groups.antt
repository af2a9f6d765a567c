-- ===== src/Tests/Groups.antt =====
-- A group of two small packets, from an encoder to a decoder that gets two of its three shards.
use udpspeeder.Base.{
  ℕ, ◌+◌, ◌-◌, ◌*◌, ◌≤◌, ◌<◌, ◌≡◌, refl, false, List, [], ◌∷◌, ◌++◌, map, none, some, length,
  get_or, arith, All,
}
use udpspeeder.Base.Memory.{memcpy}
use udpspeeder.Bytes.{round_up_div}
use udpspeeder.Blob.{
  BlobEncode, BlobDecode, encode_clear, encode_inputs, decode_clear, decode_inputs, decode_output,
  encode_output, get_shard_len, get_shard_len_with,
}
use udpspeeder.Blob.Serial.{frames}
use udpspeeder.Blob.Encode.{HoldsPackets}
use udpspeeder.Blob.RoundTrip.{Fits, blob_round_trip}
use udpspeeder.Replay
use udpspeeder.Replay.{is_valid}
use udpspeeder.Group.{Group}
use udpspeeder.Param.{FecParameter, RsParameter}
use udpspeeder.Encoder.Best.{best_data_num, best_from, cost}
use udpspeeder.Encoder.Flush.{Encoder, ok}
use udpspeeder.Encoder.{input as encoder_input, output as encoder_output}
use udpspeeder.Decoder.State.{Decoder, FecData, fail, output, group_at}
use udpspeeder.Decoder
use udpspeeder.Decoder.Deliver.{as_packet}
use udpspeeder.Decoder.Joins.{Fresh}
use udpspeeder.Decoder.Recovery.{inputs, packet, any_k_shards_recover}
use udpspeeder.Link.{Holding, timer_flush_recovers}
use udpspeeder.Link.Plain.{Open, plain_packet_refused}
use udpspeeder.Encoder.Collect.{Waiting, input-Waiting}
use udpspeeder.Tests.Codecs.{sum_codec, sum_codec-Corrects}

abbrev pub two_packets : List (List ℕ)
two_packets = (7 ∷ []) ∷ (8 ∷ 9 ∷ []) ∷ []

abbrev pub zeros : ℕ → ℕ
zeros i = 0

abbrev filled : BlobEncode
filled = record { input_buf = memcpy zeros 4 (frames two_packets); current_len = 11; counter = 2 }

filled-HoldsPackets : HoldsPackets two_packets filled
unfolding memcpy
filled-HoldsPackets = record {
  framed = (refl, (refl, (refl, (refl, (refl, (refl, (refl, tt)))))));
  filled = refl;
  counted = refl;
}

abbrev fits : (n : ℕ) → 0 < n → n ≤ 255 → Fits n two_packets
fits n pos few = record {
  shards_pos = pos;
  shards_few = few;
  packets_few = omega arith;
  packets_short = (omega arith, (omega arith, tt));
  room = omega arith;
}

abbrev pub empty_group : Group
empty_group = record {
  seq = 0xffff_ffff;
  type = none;
  data_num = none;
  redundant_num = none;
  len = none;
  fec_done = false;
  shard_count = 0;
  shard_bitmap = zeros;
  shard_idx = zeros;
}

abbrev pub unused : FecData
unused = record {
  used = false;
  seq = 0;
  type = 0;
  data_num = 0;
  redundant_num = 0;
  idx = 0;
  buf = [];
  len = 0;
}

abbrev pub empty_blob : BlobDecode
empty_blob = record { input_buf = zeros; current_len = 0; last_len = none; counter = 0 }

abbrev pub decoder : Decoder
decoder = record {
  anti_replay = Replay.clear;
  fec_buff_num = 4;
  fec_data = λ i. unused;
  group_table_mask = 7;
  group_table = λ i. empty_group;
  blob_decode = empty_blob;
  index = 0;
  output_n = 0;
  output_arr = [];
  ready_for_output = false;
}

decoder-Fresh : Fresh 5 decoder
unfolding Replay.clear is_valid group_at
decoder-Fresh = record { valid = refl; idle = refl; unknown = omega arith; ahead = λ i lo used. cc }

any_k_shards_recover_example :
    (d' : Decoder) × (inputs sum_codec decoder (
        map
          (packet sum_codec 5 2 1 (encode_output filled 2).2 (encode_output filled 2).1)
          (2 ∷ 0 ∷ []))
      ≡ some d')
    × ((output d').1 ≡ some (2, map as_packet two_packets))
    × (is_valid d'.anti_replay 5 ≡ false)
any_k_shards_recover_example =
    any_k_shards_recover sum_codec 5 2 1 filled two_packets decoder (2 ∷ 0 ∷ []) sum_codec-Corrects
      filled-HoldsPackets (fits 2 (omega arith) (omega arith)) (omega arith) (omega arith)
      (unfold encode_output in unfold round_up_div in omega arith) decoder-Fresh (omega arith)
      (refl, (refl, tt)) (omega arith, (omega arith, tt)) refl

blob_round_trip_example :
    (e : BlobEncode) × (d : BlobDecode) × (encode_inputs (encode_clear filled) two_packets ≡ some e)
    × (length (encode_output e 3).1 ≡ 3)
    × All (λ s. length s ≡ (encode_output e 3).2) (encode_output e 3).1
    × (decode_inputs (decode_clear empty_blob) (encode_output e 3).1 ≡ some d)
    × (decode_output d ≡ some (2, two_packets))
blob_round_trip_example =
    blob_round_trip filled empty_blob two_packets 3 (fits 3 (omega arith) (omega arith))

abbrev table : ℕ → RsParameter
table i = record { x = i + 1; y = 3 - 2 * i }

abbrev pub parameter : FecParameter
parameter = record {
  version = 1;
  mtu = 1250;
  queue_len = 200;
  timeout = 8000;
  mode = 0;
  rs_cnt = 2;
  rs_par = table;
}

abbrev pub encoder : Encoder
encoder = record {
  seq = 5;
  fec_par = parameter;
  first_packet_time = 0;
  first_packet_time_for_output = 0;
  blob_encode = filled;
  input_buf = λ i. [];
  counter = 2;
  ready_for_output = false;
  output = [];
  timer = some 8000;
}

encoder-Holding : Holding encoder two_packets
unfolding get_shard_len round_up_div
encoder-Holding = record {
  table = record { not_empty = omega arith; rows = λ i b. omega arith };
  mode = refl;
  pending = omega arith;
  room = omega arith;
  idle = refl;
  seq_fits = omega arith;
  blob = filled-HoldsPackets;
  fits = fits 255 (omega arith) (omega arith);
  within_mtu = omega arith;
  mtu_fits = omega arith;
}

two_shards : best_data_num parameter filled (table 1) ≡ some 2
unfolding best_data_num best_from cost get_shard_len_with round_up_div
two_shards = refl

timer_flush_recovers_example :
    (e' : Encoder) × (packets : List (List ℕ)) × (d' : Decoder) × (encoder_input sum_codec parameter
        0 encoder none
      ≡ some (ok, e'))
    × ((encoder_output e').1 ≡ some packets)
    × (length packets ≡ 3)
    × (inputs sum_codec decoder (map (λ i. get_or packets i []) (2 ∷ 0 ∷ [])) ≡ some d')
    × ((output d').1 ≡ some (2, map as_packet two_packets))
timer_flush_recovers_example =
    timer_flush_recovers sum_codec parameter 0 2 encoder two_packets decoder (2 ∷ 0 ∷ [])
      encoder-Holding two_shards sum_codec-Corrects decoder-Fresh (omega arith) (refl, (refl, tt))
      (omega arith, (omega arith, tt)) refl

-- The same parameters in mode 1, and an encoder that has nothing yet.
abbrev parameter_1 : FecParameter
parameter_1 = record parameter { mode = 1 }

abbrev idle_encoder : Encoder
idle_encoder = record encoder { fec_par = parameter_1; counter = 0; timer = none }

idle_encoder-Open : Open parameter_1 idle_encoder
idle_encoder-Open = record {
  table = record { not_empty = omega arith; rows = λ i b. omega arith };
  mode = refl;
  version = refl;
  idle = refl;
  room = omega arith;
}

plain_packet_refused_example :
    (e' : Encoder) × (packet : List ℕ) × (encoder_input sum_codec parameter_1 0 idle_encoder
        (some (8 ∷ 9 ∷ []))
      ≡ some (ok, e'))
    × ((encoder_output e').1 ≡ some (packet ∷ []))
    × (Decoder.input sum_codec decoder packet ≡ some (fail, decoder))
plain_packet_refused_example =
    plain_packet_refused sum_codec parameter_1 0 idle_encoder (8 ∷ 9 ∷ []) decoder idle_encoder-Open
      (omega arith)

-- Two packets wait, and a third comes.
encoder-Waiting : Waiting parameter encoder two_packets
encoder-Waiting = record {
  table = record { not_empty = omega arith; rows = λ i b. omega arith };
  mode = refl;
  version = refl;
  idle = refl;
  blob = filled-HoldsPackets;
  counted = refl;
  queue = omega arith;
  mtu_fits = omega arith;
}

input-Waiting_example :
    (e' : Encoder) × (encoder_input sum_codec parameter 0 encoder (some (3 ∷ [])) ≡ some (ok, e'))
    × Waiting parameter e' (two_packets ++ (3 ∷ []) ∷ [])
unfolding get_shard_len_with round_up_div
input-Waiting_example =
    input-Waiting sum_codec parameter 0 encoder two_packets (3 ∷ []) encoder-Waiting (omega arith)
      (omega arith) (omega arith)
