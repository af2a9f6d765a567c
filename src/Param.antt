-- ===== src/Param.antt =====
-- fec_parameter_t of fec_manager.h: the settings of a group, with the table that gives for each number
-- of data shards the number of redundant ones. `none` is a failed `assert`.
pub mod Table
pub mod Str
pub mod Printed
pub mod Laws
pub mod Rows
pub mod Line
use udpspeeder.Base.{
  ℕ, suc, ◌+◌, ◌-◌, ◌≤◌, ◌<◌, Option, none, some, leb, ltb, if◌then◌else◌, assert, ◌>>=◌, ◌>>◌,
}

pub record RsParameter : Type 0 where
  pub x : ℕ
  pub y : ℕ

pub record FecParameter : Type 0 where
  pub version : ℕ
  pub mtu : ℕ
  pub queue_len : ℕ
  pub timeout : ℕ
  pub mode : ℕ
  pub rs_cnt : ℕ
  pub rs_par : ℕ → RsParameter

unfoldable pub get_tail : FecParameter → Option RsParameter
get_tail p = do assert (leb 1 p.rs_cnt); some (p.rs_par (p.rs_cnt - 1))

-- `memcpy(rs_par, other.rs_par, sizeof(rs_parameter_t) * rs_cnt)`
abbrev copied : FecParameter → FecParameter → ℕ → RsParameter
copied p other i = if ltb i other.rs_cnt then other.rs_par i else p.rs_par i

unfoldable pub clone : FecParameter → FecParameter → Option FecParameter
clone p other = do
  assert (leb 1 other.rs_cnt)
  some (record {
    version = other.version;
    mtu = other.mtu;
    queue_len = other.queue_len;
    timeout = other.timeout;
    mode = other.mode;
    rs_cnt = other.rs_cnt;
    rs_par = copied p other;
  })

unfoldable pub copy_fec : FecParameter → FecParameter → Option FecParameter
copy_fec p other = do
  assert (leb 1 other.rs_cnt)
  some (record p { rs_cnt = other.rs_cnt; rs_par = copied p other })
