-- ===== src/Blob.antt =====
-- blob_encode_t and blob_decode_t of fec_manager.cpp: packets of any length packed into one buffer,
-- which is cut into shards of equal length, and the way back. `none` is a failed `assert`.
pub mod Serial
pub mod Encode
pub mod Decode
pub mod RoundTrip
use udpspeeder.Base.{
  ℕ, zero, suc, ◌+◌, ◌*◌, ◌≤◌, ◌<◌, Bool, true, List, [], ◌∷◌, Option, none, some, length, ltb, leb,
  ◌==◌, if◌then◌else◌, assert, ◌>>=◌, ◌>>◌,
}
use udpspeeder.Base.Memory.{Memory, memcpy, slice}
use udpspeeder.Bytes.{write_u16, read_u16, write_u32, read_u32, round_up_div}

abbrev pub max_fec_packet_num : ℕ
max_fec_packet_num = 255

abbrev pub max_blob_packet_num : ℕ
max_blob_packet_num = 30000

abbrev pub max_data_len : ℕ
max_data_len = 3600

abbrev pub buf_len : ℕ
buf_len = 3800

-- `sizeof(input_buf)`, 260 buffers of 3800 bytes, as a numeral.
abbrev pub input_buf_size : ℕ
input_buf_size = 988000

-- What stands in the buffer beyond `current_len` is left from earlier groups.
pub record BlobEncode : Type 0 where
  pub input_buf : Memory
  pub current_len : ℕ
  pub counter : ℕ

unfoldable pub encode_clear : BlobEncode → BlobEncode
encode_clear e = record e { counter = 0; current_len = 4 }

unfoldable pub get_num : BlobEncode → ℕ
get_num e = e.counter

unfoldable pub get_shard_len : BlobEncode → ℕ → ℕ
get_shard_len e n = round_up_div e.current_len n

-- The overload with the length of the packet to come.
unfoldable pub get_shard_len_with : BlobEncode → ℕ → ℕ → ℕ
get_shard_len_with e n next_packet_len = round_up_div (e.current_len + 2 + next_packet_len) n

unfoldable pub encode_input : BlobEncode → List ℕ → Option BlobEncode
encode_input e s = do
  assert (ltb (e.current_len + length s + 2 + 100) input_buf_size)
  assert (leb (length s) 65535)
  assert (leb (e.counter + 1) max_blob_packet_num)
  some (record e {
    input_buf = memcpy (write_u16 e.input_buf e.current_len (length s)) (e.current_len + 2) s;
    current_len = e.current_len + 2 + length s;
    counter = e.counter + 1;
  })

-- The shards `input_buf + len * i`, for the `n` values of `i` from `i` on.
unfoldable pub shards : Memory → ℕ → ℕ → ℕ → List (List ℕ)
shards buf len i zero = []
shards buf len i (suc n) = slice buf (len * i) len ∷ shards buf len (i + 1) n

-- The number of packets goes into the first four bytes; the result is the shards and their length.
unfoldable pub encode_output : BlobEncode → ℕ → BlobEncode × List (List ℕ) × ℕ
encode_output e n =
    let len = round_up_div e.current_len n in
    let buf = write_u32 e.input_buf 0 e.counter in
    (record e { input_buf = buf }, shards buf len 0 n, len)

pub record BlobDecode : Type 0 where
  pub input_buf : Memory
  pub current_len : ℕ
  -- `none` is the -1 of a cleared decoder.
  pub last_len : Option ℕ
  pub counter : ℕ

unfoldable pub decode_clear : BlobDecode → BlobDecode
decode_clear d = record d { current_len = 0; last_len = none; counter = 0 }

unfoldable pub same_len : Option ℕ → ℕ → Bool
same_len none len = true
same_len (some last) len = last == len

unfoldable pub decode_input : BlobDecode → List ℕ → Option BlobDecode
decode_input d s = do
  assert (same_len d.last_len (length s))
  assert (leb (d.counter + 1) max_fec_packet_num)
  assert (ltb (d.current_len + length s + 100) input_buf_size)
  some (record d {
    input_buf = memcpy d.input_buf d.current_len s;
    current_len = d.current_len + length s;
    last_len = some (length s);
    counter = d.counter + 1;
  })

-- The loop of `output` with `n` rounds left; here `none` is its return of -1.
unfoldable pub parse_packets : Memory → ℕ → ℕ → ℕ → Option (List (List ℕ))
parse_packets buf current_len parser_pos zero = some []
parse_packets buf current_len parser_pos (suc n) =
    let len = read_u16 buf parser_pos in
    let rest = parse_packets buf current_len (parser_pos + 2 + len) n in
    if ltb current_len (parser_pos + 2)
    then none
    else if ltb current_len (parser_pos + 2 + len)
    then none
    else (rest >>= λ tail. some (slice buf (parser_pos + 2) len ∷ tail))

-- `n` is an `int`: a count of 2 ^ 31 or more is a negative number, which passes the test against
-- `max_blob_packet_num` and runs no round of the loop.
unfoldable pub int_of_u32_rounds : ℕ → ℕ
int_of_u32_rounds w = if ltb w 0x80000000 then w else 0

unfoldable pub decode_output : BlobDecode → Option (ℕ × List (List ℕ))
unfolding int_of_u32_rounds
decode_output d =
    let n = read_u32 d.input_buf 0 in
    let packets = parse_packets d.input_buf d.current_len 4 (int_of_u32_rounds n) in
    if ltb d.current_len 4
    then none
    else if ltb max_blob_packet_num (int_of_u32_rounds n)
    then none
    else (packets >>= λ ps. some (n, ps))

-- The calls in sequence, over a list of packets or shards.
unfoldable pub encode_inputs : BlobEncode → List (List ℕ) → Option BlobEncode
encode_inputs e [] = some e
encode_inputs e (s ∷ ss) = encode_input e s >>= λ e'. encode_inputs e' ss

unfoldable pub decode_inputs : BlobDecode → List (List ℕ) → Option BlobDecode
decode_inputs d [] = some d
decode_inputs d (s ∷ ss) = decode_input d s >>= λ d'. decode_inputs d' ss
