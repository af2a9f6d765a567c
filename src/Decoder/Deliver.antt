-- ===== src/Decoder/Deliver.antt =====
-- The steps of `input` behind a placed shard: whether the group is complete, the decoding of a
-- complete group in both modes, and the packet that is sent on at once.
use udpspeeder.Base.{
  ℕ, zero, suc, ◌+◌, ◌-◌, Bool, true, false, not, List, [], ◌∷◌, ◌++◌, map, Option, none, some,
  length, drop, replicate, get_or, ltb, leb, ◌==◌, ◌&&◌, if◌then◌else◌, assert, ◌>>=◌, ◌>>◌,
}
use udpspeeder.Bytes.{read_u16}
use udpspeeder.Blob.{decode_clear, decode_inputs, decode_output, max_data_len}
use udpspeeder.Replay
use udpspeeder.Group.{Group, has_shard}
use udpspeeder.Rs.{Codec, rs_decode2}
use udpspeeder.Decoder.Wire.{Header, bytes_at}
use udpspeeder.Decoder.State.{Decoder, FecData, Packet, group_at, put_group}

pub data Ripeness : Type 0 where
  overfull ripe unripe : Ripeness

unfoldable pub by_count : (count data_num most : ℕ) → Ripeness
by_count count data_num most =
    if ltb most count then overfull else if leb data_num count then ripe else unripe

-- The tests that set `about_to_fec`, or drop the group.
unfoldable pub ripeness : Header → Group → Ripeness
unfolding by_count
ripeness h g =
    if h.type == 0
    then by_count g.shard_count h.data_num h.data_num
    else elim g.data_num [ none ↦ unripe | some n ↦ by_count g.shard_count n (n + 1) ]

unfoldable pub or_zero : Option ℕ → ℕ
or_zero none = 0
or_zero (some n) = n

-- The entries that the group's bitmap names, for the shard numbers from `i` on.
unfoldable pub entries : Decoder → Group → ℕ → ℕ → List (Option FecData)
entries d g i zero = []
entries d g i (suc n) =
    (if has_shard g i then some (d.fec_data (g.shard_idx i)) else none) ∷ entries d g (i + 1) n

abbrev pub buffers : List (Option FecData) → List (Option (List ℕ))
buffers [] = []
buffers (none ∷ es) = none ∷ buffers es
buffers (some e ∷ es) = some e.buf ∷ buffers es

abbrev pub close : Decoder → ℕ → Decoder
close d seq = record d { anti_replay = Replay.set_invaild d.anti_replay seq }

abbrev pub finished : Decoder → ℕ → Decoder
finished d seq = put_group d seq (record (group_at d seq) { fec_done = true })

abbrev pub as_packet : List ℕ → Packet
as_packet s = record { bytes = s; len = length s }

-- `ready_for_output` is asserted to be 0 first.
unfoldable pub publish : Decoder → ℕ → List Packet → Option Decoder
publish d n packets = do
  assert (not d.ready_for_output)
  some (record d { output_n = n; output_arr = packets; ready_for_output = true })

-- What `blob_decode.output` finds in the recovered shards.
unfoldable pub deliver_blob : Decoder → ℕ → Option Decoder
deliver_blob d seq = elim (decode_output d.blob_decode) [
  | none ↦ some (close d seq)
  | some (n, packets) ↦ publish d n (map as_packet packets) >>= λ d'. some (close d' seq)
]

-- Mode 0.
unfoldable pub decode_blob : Codec → Header → List ℕ → Decoder → Option Decoder
unfolding or_zero
decode_blob codec h payload d = do
  let g = group_at d h.seq
  let k = or_zero g.data_num
  let n = k + or_zero g.redundant_num
  shards ← rs_decode2 codec k n (buffers (entries d g 0 n)) (length payload)
  blob ← decode_inputs (decode_clear d.blob_decode) shards
  deliver_blob (record (finished d h.seq) { blob_decode = blob }) h.seq

-- `max_len`, where `none` is the -1 that the loop starts from.
longest : Option ℕ → List (Option FecData) → Option ℕ
longest m [] = m
longest m (none ∷ es) = longest m es
longest none (some e ∷ es) = longest (some e.len) es
longest (some m) (some e ∷ es) = longest (some (if ltb m e.len then e.len else m)) es

all_prefixed : List (Option FecData) → Bool
all_prefixed [] = true
all_prefixed (none ∷ es) = all_prefixed es
all_prefixed (some e ∷ es) = not (ltb e.len 2) && all_prefixed es

same_len : Option ℕ → Option ℕ → Bool
same_len (some m) (some n) = m == n
same_len none none = true
same_len _ _ = false

-- `memset` of each buffer from its length up to `max_len`.
padded : ℕ → List (Option FecData) → List (Option (List ℕ))
padded max_len [] = []
padded max_len (none ∷ es) = none ∷ padded max_len es
padded max_len (some e ∷ es) = some (e.buf ++ replicate (max_len - e.len) 0) ∷ padded max_len es

-- The data shards that were missing, and the one that has just come.
missed : ℕ → ℕ → ℕ → List (Option FecData) → List ℕ
missed inner i zero es = []
missed inner i (suc k) [] = []
missed inner i (suc k) (none ∷ es) = i ∷ missed inner (i + 1) k es
missed inner i (suc k) (some e ∷ es) =
    if i == inner then i ∷ missed inner (i + 1) k es else missed inner (i + 1) k es

-- A recovered shard: a length in two bytes, then the packet.
unframe : List ℕ → Packet
unframe s = record { bytes = drop 2 s; len = read_u16 (bytes_at s) 0 }

all_short : List Packet → Bool
all_short [] = true
all_short (p ∷ ps) = leb p.len max_data_len && all_short ps

abbrev nth : List Packet → ℕ → Packet
nth ps i = get_or ps i (record { bytes = []; len = 0 })

-- Mode 1.
unfoldable pub decode_packets : Codec → Header → Decoder → Option Decoder
unfolding or_zero longest all_prefixed same_len padded missed unframe all_short
decode_packets codec h d = do
  let g = group_at d h.seq
  let k = or_zero g.data_num
  let n = k + or_zero g.redundant_num
  let es = entries d g 0 n
  let max_len = longest none es
  let recovered = (do
    shards ← rs_decode2 codec k n (padded (or_zero max_len) es) (or_zero max_len)
    let packets = map unframe shards
    let sent = missed h.inner_index 0 k es
    d' ←
        if all_short packets
        then publish (finished d h.seq) (length sent) (map (nth packets) sent)
        else some (record (finished d h.seq) { ready_for_output = false })
    some (close d' h.seq))
  if all_prefixed es && same_len max_len g.len then recovered else some (close d h.seq)

unfoldable pub decode_group : Codec → Header → List ℕ → Decoder → Option Decoder
decode_group codec h payload d =
    if h.type == 0 then decode_blob codec h payload d else decode_packets codec h d

-- A data shard of mode 1 is sent on when it comes.
unfoldable pub fast_send : Header → Decoder → Option Decoder
fast_send h d =
    let entry = d.fec_data d.index in
    if h.type == 1 && h.data_num == 0
    then publish d 1 (record { bytes = drop 2 entry.buf; len = entry.len - 2 } ∷ [])
    else some d
