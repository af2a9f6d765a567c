-- ===== src/Framing/InPlace.antt =====
-- A packet framed in place, as a list of bytes, and how get_conv reads it.
use udpspeeder.Base.{
  ℕ, ◌+◌, ◌-◌, ◌^◌, ◌<◌, ◌≡◌, refl, ◌∙◌, ap, false, List, ◌++◌, some, length, ltb, arith,
  length-append,
}
use udpspeeder.Base.Memory.{
  Memory, memcpy, slice, Holds, Holds-memcpy, Holds-agree, Holds-append, Holds-append_left,
  Holds-append_right, slice_of_Holds,
}
use udpspeeder.Bytes.{write_u32, read_u32}
use udpspeeder.Bytes.Laws.{u32_bytes, write_u32-memcpy, read_u32_of_Holds}
use udpspeeder.Framing.{get_conv, put_conv_inplace}
use udpspeeder.Framing.RoundTrip.{write_u32_spares}

-- Behind four bytes of room: the four bytes of the number and the data.
pub put_conv_inplace-slice :
    (head : Memory) (conv : ℕ) (s : List ℕ)
    → slice (put_conv_inplace conv (memcpy head 4 s) (length s)).0 0 (length s + 4)
      ≡ u32_bytes conv ++ s
unfolding put_conv_inplace
put_conv_inplace-slice head conv s =
    let room = memcpy head 4 s in
    let m = write_u32 room 0 conv in
    let number : Holds m 0 (u32_bytes conv) =
      Holds-agree (memcpy room 0 (u32_bytes conv)) m 0 (u32_bytes conv)
        (λ q lo hi. write_u32-memcpy room 0 conv q) (Holds-memcpy room 0 (u32_bytes conv)) in
    let rest : Holds m 4 s =
      Holds-agree room m 4 s (λ q lo hi. write_u32_spares room conv q lo) (Holds-memcpy head 4 s) in
    let whole = Holds-append m 0 4 (u32_bytes conv) s refl number rest in
    let size : length s + 4 ≡ length (u32_bytes conv ++ s) =
      omega (arith, length-append (u32_bytes conv) s) in
    ap (slice m 0) size ∙ slice_of_Holds m 0 (u32_bytes conv ++ s) whole

-- How get_conv reads such bytes, wherever they stand.
pub get_conv-bytes :
    (behind : Memory) (conv : ℕ) (s : List ℕ)
    → conv < 2 ^ 32
    → (get_conv (memcpy behind 0 (u32_bytes conv ++ s)) (length (u32_bytes conv ++ s))
        ≡ some (record { conv = conv; output = 4; len_out = length s }))
      × (slice (memcpy behind 0 (u32_bytes conv ++ s)) 4 (length s) ≡ s)
unfolding get_conv
get_conv-bytes behind conv s small =
    let m = memcpy behind 0 (u32_bytes conv ++ s) in
    let whole = Holds-memcpy behind 0 (u32_bytes conv ++ s) in
    let read : read_u32 m 0 ≡ conv =
      read_u32_of_Holds m 0 conv small (Holds-append_left m 0 (u32_bytes conv) s whole) in
    let size : length (u32_bytes conv ++ s) ≡ length s + 4 =
      omega (arith, length-append (u32_bytes conv) s) in
    let long : ltb (length s + 4) 4 ≡ false = ground arith in
    let back : length s + 4 - 4 ≡ length s = omega arith in
    (
      rw (size, long, read, back) refl,
      slice_of_Holds m 4 s (Holds-append_right m 0 4 (u32_bytes conv) s refl whole),
    )
