-- ===== src/Group.antt =====
-- fec_group_t of fec_manager.h: what the decoder knows of one group of shards.
pub mod Shards
use udpspeeder.Base.{ℕ, ◌+◌, ◌/◌, ◌^◌, ◌==◌, Bool, false, if◌then◌else◌, Option, none}
use udpspeeder.Base.Bits.{bit_and, bit_or}

-- In the fields of `Option ℕ` a `none` is the -1 of `init`.
pub record Group : Type 0 where
  pub seq : ℕ
  pub type : Option ℕ
  pub data_num : Option ℕ
  pub redundant_num : Option ℕ
  pub len : Option ℕ
  pub fec_done : Bool
  pub shard_count : ℕ
  -- `u32_t shard_bitmap[8]`
  pub shard_bitmap : ℕ → ℕ
  pub shard_idx : ℕ → ℕ

-- The bits are cleared; the indices behind them stay as they were.
unfoldable pub init : Group → ℕ → Group
init g new_seq = record g {
  seq = new_seq;
  type = none;
  data_num = none;
  redundant_num = none;
  len = none;
  fec_done = false;
  shard_count = 0;
  shard_bitmap = λ w. 0;
}

unfoldable pub has_shard : Group → ℕ → Bool
has_shard g i = bit_and (g.shard_bitmap (i / 2 ^ 5) / 2 ^ bit_and i 31) 1 == 1

unfoldable pub set_shard : Group → ℕ → ℕ → Group
set_shard g i val = record g {
  shard_bitmap = λ w.
      if w == i / 2 ^ 5 then bit_or (g.shard_bitmap w) (2 ^ bit_and i 31) else g.shard_bitmap w;
  shard_idx = λ j. if j == i then val else g.shard_idx j;
}
