-- ===== src/Decoder/Wire.antt =====
-- The eight bytes in front of a shard, and the checks that `input` makes of them.
use udpspeeder.Base.{ℕ, ◌+◌, Bool, ◌||◌, ◌&&◌, not, List, length, get_or, ltb, leb, ◌==◌}
use udpspeeder.Bytes.{read_u16, read_u32}
use udpspeeder.Base.Memory.{Memory}
use udpspeeder.Blob.{max_fec_packet_num}

pub record Header : Type 0 where
  pub seq : ℕ
  pub type : ℕ
  pub data_num : ℕ
  pub redundant_num : ℕ
  pub inner_index : ℕ

-- `sizeof(u32_t) + sizeof(char) * 4`
abbrev pub header_len : ℕ
header_len = 8

abbrev pub bytes_at : List ℕ → Memory
bytes_at s i = get_or s i 0

unfoldable pub parse_header : List ℕ → Header
parse_header s = record {
  seq = read_u32 (bytes_at s) 0;
  type = get_or s 4 0;
  data_num = get_or s 5 0;
  redundant_num = get_or s 6 0;
  inner_index = get_or s 7 0;
}

-- The checks that return -1 before any state is read.
unfoldable pub is_refused : Header → List ℕ → Bool
is_refused h payload =
    (h.type == 1 && ltb (length payload) 2)
    || ((h.type == 1
          && (h.data_num == 0 && not (read_u16 (bytes_at payload) 0 + 2 == length payload)))
        || ((h.type == 0 && h.data_num == 0)
            || (leb max_fec_packet_num (h.data_num + h.redundant_num)
                || leb (h.data_num + h.redundant_num) h.inner_index)))
