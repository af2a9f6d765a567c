-- ===== src/Encoder/Best.antt =====
-- The number of data shards that makes a short blob cheapest to send.
pub mod Optimal
use udpspeeder.Base.{
  ℕ, zero, suc, ◌+◌, ◌-◌, ◌*◌, ◌%◌, ◌^◌, ◌≤◌, ◌<◌, Bool, Option, none, some, ltb, leb, ◌==◌, ◌&&◌,
  if◌then◌else◌, assert, ◌>>=◌, ◌>>◌,
}
use udpspeeder.Blob.{BlobEncode, get_shard_len_with}
use udpspeeder.Param.{FecParameter, RsParameter}

abbrev pub header_overhead : ℕ
header_overhead = 40

-- Bytes on the wire for `x` data and `y` redundant shards, as a `u32_t`.
unfoldable pub cost : BlobEncode → RsParameter → ℕ
cost blob p = (get_shard_len_with blob p.x 0 + header_overhead) * (p.x + p.y) % 2 ^ 32

-- `for (i = 1; i < tail_x; i++)`, with `left` rounds to go.
unfoldable pub best_from :
    FecParameter → BlobEncode → (i left best_len best_data_num : ℕ) → Option ℕ
best_from par blob i zero best_len best_data_num = some best_data_num
best_from par blob i (suc left) best_len best_data_num =
    let p = par.rs_par (i - 1) in
    let wins = leb (get_shard_len_with blob p.x 0) par.mtu && ltb (cost blob p) best_len in
    let rest =
      best_from par blob (i + 1) left (if wins then cost blob p else best_len)
        (if wins then p.x else best_data_num) in
    assert (p.x == i) >> rest

unfoldable pub best_data_num : FecParameter → BlobEncode → RsParameter → Option ℕ
best_data_num par blob tail = do
  assert (leb tail.x par.rs_cnt)
  best_from par blob 1 (tail.x - 1) (cost blob tail) tail.x
