-- ===== src/Framing.antt =====
-- put_conv and get_conv of packet.cpp, in their three forms: the number of a conversation in front of its
-- bytes. `htonl` and a `memcpy` of four bytes are a big-endian write. The output of a get is an offset in
-- the input; `none` is the return of -1. crc32c of crc32c.h is an argument.
pub mod RoundTrip
pub mod InPlace
use udpspeeder.Base.{ℕ, ◌+◌, ◌-◌, ◌%◌, ◌^◌, List, Option, none, some, ltb, ◌==◌, if◌then◌else◌}
use udpspeeder.Base.Memory.{Memory, memcpy, slice}
use udpspeeder.Bytes.{write_u32, read_u32}

-- What a get hands out: `conv`, `output` and `len_out`.
pub record Unframed : Type 0 where
  pub conv : ℕ
  pub output : ℕ
  pub len_out : ℕ

-- `buf` is what the static buffer held.
unfoldable pub put_conv : Memory → ℕ → Memory → ℕ → Memory × ℕ
put_conv buf conv input len_in =
    (memcpy (write_u32 buf 0 conv) 4 (slice input 0 len_in), len_in + 4)

unfoldable pub put_conv_inplace : ℕ → Memory → ℕ → Memory × ℕ
put_conv_inplace conv buf data_len = (write_u32 buf 0 conv, data_len + 4)

unfoldable pub get_conv : Memory → ℕ → Option Unframed
get_conv input len_in =
    if ltb len_in 4
    then none
    else some (record { conv = read_u32 input 0; output = 4; len_out = len_in - 4 })

module _ (crc32c : List ℕ → ℕ) where
  -- The sum of the first `len` bytes.
  abbrev pub crc_of : Memory → ℕ → ℕ
  crc_of m len = crc32c (slice m 0 len) % 2 ^ 32

  unfoldable pub put_conv0 : Memory → ℕ → Memory → ℕ → Memory × ℕ
  put_conv0 buf conv input len_in =
      let output = memcpy (write_u32 buf 0 conv) 4 (slice input 0 len_in) in
      (write_u32 output (len_in + 4) (crc_of output (len_in + 4)), len_in + 4 + 4)

  unfoldable pub get_conv0 : Memory → ℕ → Option Unframed
  get_conv0 input len_in =
      if ltb len_in (4 + 4)
      then none
      else if read_u32 input (len_in - 4) == crc_of input (len_in - 4)
      then some (record { conv = read_u32 input 0; output = 4; len_out = len_in - 4 - 4 })
      else none
