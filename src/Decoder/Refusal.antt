-- ===== src/Decoder/Refusal.antt =====
-- Which shards `input` turns away by their headers, and how a header is read.
use udpspeeder.Base.{ℕ, ◌+◌, ◌^◌, ◌≤◌, ◌<◌, ◌≡◌, refl, ◌⊎◌, List, ◌∷◌, ◌++◌, some, length, arith}
use udpspeeder.Bytes.{read_u32}
use udpspeeder.Bytes.Laws.{u32_bytes, read_u32_of_Holds}
use udpspeeder.Blob.{buf_len}
use udpspeeder.Rs.{Codec}
use udpspeeder.Decoder.Wire.{Header, parse_header, is_refused, bytes_at}
use udpspeeder.Decoder.State.{Decoder, fail}
use udpspeeder.Decoder.{input}

-- A shard on the wire.
abbrev pub wire : Header → List ℕ → List ℕ
wire h payload = u32_bytes h.seq ++ h.type ∷ h.data_num ∷ h.redundant_num ∷ h.inner_index ∷ payload

pub parse_header-wire :
    (h : Header) (payload : List ℕ) → h.seq < 2 ^ 32 → parse_header (wire h payload) ≡ h
unfolding parse_header
parse_header-wire h payload small =
    let e : read_u32 (bytes_at (wire h payload)) 0 ≡ h.seq =
      read_u32_of_Holds (bytes_at (wire h payload)) 0 h.seq small
        (refl, (refl, (refl, (refl, tt)))) in
    rw e

-- A packet that passes the `assert` on its length, and whose header leaves no room for its own shard,
-- is refused in every state and changes nothing. So is one whose header counts 255 shards or more.
pub input_refuses :
    (codec : Codec) (d : Decoder) (s : List ℕ)
    → length s + 100 < buf_len
    → ((parse_header s).data_num + (parse_header s).redundant_num ≤ (parse_header s).inner_index)
      ⊎ (255 ≤ (parse_header s).data_num + (parse_header s).redundant_num)
    → input codec d s ≡ some (fail, d)
unfolding input is_refused
input_refuses codec d s fits bad = ground arith
