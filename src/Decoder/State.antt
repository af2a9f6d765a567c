-- ===== src/Decoder/State.antt =====
-- The state of fec_decode_manager_t, its group table, and the steps of `input` that keep the tables.
use udpspeeder.Base.{
  ℕ, zero, suc, ◌+◌, ◌*◌, ◌%◌, ◌^◌, Bool, true, false, not, List, Option, none, some, length, ltb,
  ◌==◌, ◌||◌, ◌&&◌, if◌then◌else◌,
}
use udpspeeder.Base.Bits.{bit_and}
use udpspeeder.Blob.{BlobDecode}
use udpspeeder.Replay
use udpspeeder.Replay.{Table}
use udpspeeder.Group.{Group, init, has_shard, set_shard}
use udpspeeder.Decoder.Wire.{Header}

-- fec_data_t; `buf` is the first `len` bytes of the source's.
pub record FecData : Type 0 where
  pub used : Bool
  pub seq : ℕ
  pub type : ℕ
  pub data_num : ℕ
  pub redundant_num : ℕ
  pub idx : ℕ
  pub buf : List ℕ
  pub len : ℕ

-- What `output` hands out: a pointer, here the bytes from there to the end of the recovered buffer,
-- and a length.
pub record Packet : Type 0 where
  pub bytes : List ℕ
  pub len : ℕ

pub record Decoder : Type 0 where
  pub anti_replay : Table
  pub fec_buff_num : ℕ
  pub fec_data : ℕ → FecData
  pub group_table_mask : ℕ
  pub group_table : ℕ → Group
  pub blob_decode : BlobDecode
  pub index : ℕ
  -- `output_n`, a 32-bit pattern, and the packets behind `output_s_arr` and `output_len_arr`.
  pub output_n : ℕ
  pub output_arr : List Packet
  pub ready_for_output : Bool

-- The values that `input` returns: 0 and -1.
pub data Reply : Type 0 where
  ok fail : Reply

-- The mark of an empty slot.
abbrev pub empty_seq : ℕ
empty_seq = 0xffff_ffff

-- `while (group_table_size < fec_buff_num * 2) group_table_size <<= 1;` on fuel.
unfoldable pub grow_table : ℕ → ℕ → ℕ → ℕ
grow_table zero want size = size
grow_table (suc fuel) want size =
    let rest = grow_table fuel want (size * 2 % 2 ^ 32) in if ltb size want then rest else size

-- The size that the constructor chooses; 32 doublings reach any 32-bit number.
unfoldable pub table_size : ℕ → ℕ
table_size fec_buff_num = grow_table 32 (fec_buff_num * 2 % 2 ^ 32) 1

unfoldable pub clear : Decoder → Decoder
clear d = record d {
  anti_replay = Replay.clear;
  group_table = λ slot.
      if ltb slot (d.group_table_mask + 1)
      then record (d.group_table slot) { seq = empty_seq }
      else d.group_table slot;
  fec_data =
      λ i. if ltb i d.fec_buff_num then record (d.fec_data i) { used = false } else d.fec_data i;
  ready_for_output = false;
  index = 0;
}

unfoldable pub slot : Decoder → ℕ → ℕ
slot d seq = bit_and seq d.group_table_mask

-- The reference `group_table[seq & group_table_mask]`.
unfoldable pub group_at : Decoder → ℕ → Group
unfolding slot
group_at d seq = d.group_table (slot d seq)

-- What is written through that reference.
unfoldable pub put_group : Decoder → ℕ → Group → Decoder
unfolding slot
put_group d seq g = record d { group_table = λ i. if i == slot d seq then g else d.group_table i }

unfoldable pub find_or_create : Decoder → ℕ → Decoder
find_or_create d seq =
    let g = group_at d seq in if g.seq == seq then d else put_group d seq (init g seq)

unfoldable pub group_erase : Decoder → ℕ → Decoder
group_erase d seq =
    let g = group_at d seq in
    if g.seq == seq then put_group d seq (record g { seq = empty_seq }) else d

pub record Joined : Type 0 where
  pub go_on : Bool
  pub group : Group

unfoldable pub same_or_unset : Option ℕ → ℕ → Bool
same_or_unset none n = true
same_or_unset (some m) n = m == n

-- `if (group.type == -1) group.type = type;`, and the return of -1 where the types differ.
unfoldable pub join_type : Group → Header → Joined
unfolding same_or_unset
join_type g h = record {
  go_on = same_or_unset g.type h.type;
  group = if same_or_unset g.type h.type then record g { type = some h.type } else g;
}

unfoldable pub agrees : Option ℕ → ℕ → Bool
agrees none n = false
agrees (some m) n = m == n

-- A header with a `data_num` gives the group its numbers, or has to agree with them.
unfoldable pub join_numbers : Group → Header → ℕ → Joined
unfolding agrees
join_numbers g h len =
    if h.data_num == 0 then record { go_on = true; group = g } else elim g.data_num [
      | none ↦ record {
        go_on = true;
        group = record g {
          data_num = some h.data_num;
          redundant_num = some h.redundant_num;
          len = some len;
        };
      }
      | some n ↦ record {
        go_on = n == h.data_num && (agrees g.redundant_num h.redundant_num && agrees g.len len);
        group = g;
      }
    ]

-- The checks of a shard against its group; `go_on` is false where `input` returns -1.
unfoldable pub join_group : Group → Header → ℕ → Joined
join_group g h len =
    let typed = join_type g h in
    if g.fec_done || has_shard g h.inner_index
    then record { go_on = false; group = g }
    else if not typed.go_on
    then typed
    else join_numbers typed.group h len

-- The entry at `index` is about to be overwritten: its group, if it is still known, is closed.
unfoldable pub recycle : Decoder → Decoder
recycle d =
    let old = d.fec_data d.index in
    if old.used
    then group_erase (record d { anti_replay = Replay.set_invaild d.anti_replay old.seq }) old.seq
    else d

-- The shard goes into the entry at `index`, and its group learns of it.
unfoldable pub place : Decoder → Header → List ℕ → Decoder
place d h payload =
    let g = set_shard (group_at d h.seq) h.inner_index d.index in
    let entry : FecData = record {
      used = true;
      seq = h.seq;
      type = h.type;
      data_num = h.data_num;
      redundant_num = h.redundant_num;
      idx = h.inner_index;
      buf = payload;
      len = length payload;
    } in
    put_group (record d { fec_data = λ i. if i == d.index then entry else d.fec_data i }) h.seq
      (record g { shard_count = g.shard_count + 1 })

-- The label `end`.
unfoldable pub advance : Decoder → Decoder
advance d = record d { index = if d.index + 1 == d.fec_buff_num then 0 else d.index + 1 }

unfoldable pub output : Decoder → Decoder × Option (ℕ × List Packet)
output d =
    if d.ready_for_output
    then (record d { ready_for_output = false }, some (d.output_n, d.output_arr))
    else (d, none)
