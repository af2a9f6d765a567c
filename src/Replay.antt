-- ===== src/Replay.antt =====
-- anti_replay_t of fec_manager.h: the sequence numbers of groups that are closed, in a direct-mapped
-- table.
pub mod Laws
use udpspeeder.Base.{ℕ, ◌==◌, Bool, not, if◌then◌else◌}
use udpspeeder.Base.Bits.{bit_and}

-- `u32_t table[32768]`
abbrev pub Table : Type 0
Table = ℕ → ℕ

-- `anti_replay_table_size - 1`
abbrev pub table_mask : ℕ
table_mask = 32767

-- `memset(table, 0xFF, sizeof(table))`
unfoldable pub clear : Table
clear slot = 0xffff_ffff

unfoldable pub set_invaild : Table → ℕ → Table
set_invaild t seq slot = if slot == bit_and seq table_mask then seq else t slot

unfoldable pub is_valid : Table → ℕ → Bool
is_valid t seq = not (t (bit_and seq table_mask) == seq)
