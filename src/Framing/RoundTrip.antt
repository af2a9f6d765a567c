-- ===== src/Framing/RoundTrip.antt =====
-- What is put comes back, and the two ways to put it make the same packet.
use udpspeeder.Base.{
  ℕ, zero, suc, ◌+◌, ◌-◌, ◌%◌, ◌^◌, ◌≤◌, ◌<◌, ◌≡◌, ◌≢◌, refl, ◌∙◌, sym, ap, false, List, ◌++◌, some,
  ltb, ◌==◌, arith, ==-refl, Bool-cases, inl, inr,
}
use udpspeeder.Base.Memory.{
  Memory, memcpy, slice, Holds, Holds-memcpy, Holds-agree, Holds-append, Holds-append_left,
  slice_of_Holds, length-slice, slice-same, memcpy_below,
}
use udpspeeder.Bytes.{write_u32, read_u32}
use udpspeeder.Bytes.Laws.{u32_bytes, write_u32-memcpy, read_u32_of_Holds}
use udpspeeder.Framing.{put_conv, put_conv_inplace, get_conv, put_conv0, get_conv0, crc_of}

-- The head of what put_conv makes, and the bytes behind it.
put_conv-Holds :
    (buf : Memory) (conv : ℕ) (bytes : List ℕ)
    → Holds (memcpy (write_u32 buf 0 conv) 4 bytes) 0 (u32_bytes conv ++ bytes)
put_conv-Holds buf conv bytes =
    Holds-append (memcpy (write_u32 buf 0 conv) 4 bytes) 0 4 (u32_bytes conv) bytes refl
      (Holds-agree (memcpy buf 0 (u32_bytes conv)) (memcpy (write_u32 buf 0 conv) 4 bytes) 0
        (u32_bytes conv)
        (λ q lo hi.
          memcpy_below (write_u32 buf 0 conv) 4 bytes q (omega arith)
          ∙ write_u32-memcpy buf 0 conv q)
        (Holds-memcpy buf 0 (u32_bytes conv)))
      (Holds-memcpy (write_u32 buf 0 conv) 4 bytes)

slice_back :
    (m : Memory) (p : ℕ) (input : Memory) (r len : ℕ)
    → slice (memcpy m p (slice input r len)) p len ≡ slice input r len
slice_back m p input r len =
    ap (λ n. slice (memcpy m p (slice input r len)) p n) (sym (length-slice input r len))
    ∙ slice_of_Holds (memcpy m p (slice input r len)) p (slice input r len)
        (Holds-memcpy m p (slice input r len))

-- A number of 32 bits and the bytes that put_conv frames come back from get_conv, whatever the buffer
-- held.
pub get_conv-put_conv :
    (buf : Memory) (conv : ℕ) (input : Memory) (len : ℕ)
    → conv < 2 ^ 32
    → (out : Memory) × (put_conv buf conv input len ≡ (out, len + 4))
      × (get_conv out (len + 4) ≡ some (record { conv = conv; output = 4; len_out = len }))
      × (slice out 4 len ≡ slice input 0 len)
unfolding put_conv get_conv
get_conv-put_conv buf conv input len small =
    let out = memcpy (write_u32 buf 0 conv) 4 (slice input 0 len) in
    let head =
      Holds-append_left out 0 (u32_bytes conv) (slice input 0 len)
        (put_conv-Holds buf conv (slice input 0 len)) in
    let read : read_u32 out 0 ≡ conv = read_u32_of_Holds out 0 conv small head in
    let long : ltb (len + 4) 4 ≡ false = ground arith in
    let back : len + 4 - 4 ≡ len = omega arith in
    (out, refl, rw (long, read, back) refl, slice_back (write_u32 buf 0 conv) 4 input 0 len)

memcpy-slice :
    (m : Memory) (p : ℕ) (input : Memory) (r len q : ℕ)
    → p ≤ q
    → q < p + len
    → memcpy m p (slice input r len) q ≡ input (r + (q - p))
unfolding memcpy slice
memcpy-slice m p input r zero q lo hi = absurd (omega (arith, lo, hi))
memcpy-slice m p input r (suc len) q lo hi = elim (Bool-cases (q == p)) [
  | inl here ↦ let e : r ≡ r + (q - p) = ground (arith, here) in rw (here) (ap input e)
  | inr on ↦
      let ne : q ≢ p = ground (arith, on) in
      let e : r + 1 + (q - (p + 1)) ≡ r + (q - p) = omega (arith, lo, ne) in
      rw on (memcpy-slice m (p + 1) input (r + 1) len q (omega arith) (omega arith) ∙ ap input e)
]

write_u32_covers : (m m' : Memory) (l q : ℕ) → q < 4 → write_u32 m 0 l q ≡ write_u32 m' 0 l q
unfolding write_u32
write_u32_covers m m' l q h = ground (arith, h)

pub write_u32_spares : (m : Memory) (l q : ℕ) → 4 ≤ q → write_u32 m 0 l q ≡ m q
unfolding write_u32
write_u32_spares m l q h = ground (arith, h)

-- Where the bytes already stand behind the four of the head, put_conv_inplace makes the packet that
-- put_conv makes of them.
pub put_conv_inplace-put_conv :
    (buf buf' : Memory) (conv : ℕ) (input : Memory) (len : ℕ)
    → ((q : ℕ) → q < len → buf (4 + q) ≡ input q)
    → ((put_conv_inplace conv buf len).1 ≡ (put_conv buf' conv input len).1)
      × ((q : ℕ)
          → q < len + 4
          → (put_conv_inplace conv buf len).0 q ≡ (put_conv buf' conv input len).0 q)
unfolding put_conv put_conv_inplace
put_conv_inplace-put_conv buf buf' conv input len there = (
  refl,
  λ q below. elim (Bool-cases (ltb q 4)) [
    | inl head ↦
        let q4 : q < 4 = ground (arith, head) in
        write_u32_covers buf buf' conv q q4
        ∙ sym (memcpy_below (write_u32 buf' 0 conv) 4 (slice input 0 len) q q4)
    | inr tail ↦
        let q4 : 4 ≤ q = ground (arith, tail) in
        let e : 4 + (q - 4) ≡ q = omega arith in
        write_u32_spares buf conv q q4
        ∙ sym (ap buf e)
        ∙ there (q - 4) (omega arith)
        ∙ sym (ap input (let z : 0 + (q - 4) ≡ q - 4 = omega arith in z))
        ∙ sym (memcpy-slice (write_u32 buf' 0 conv) 4 input 0 len q q4 (omega arith))
  ],
)

-- A number of 32 bits and the bytes that put_conv0 frames with their sum come back from get_conv0.
pub get_conv0-put_conv0 :
    (crc32c : List ℕ → ℕ) (buf : Memory) (conv : ℕ) (input : Memory) (len : ℕ)
    → conv < 2 ^ 32
    → (out : Memory) × (put_conv0 crc32c buf conv input len ≡ (out, len + 4 + 4))
      × (get_conv0 crc32c out (len + 4 + 4)
          ≡ some (record { conv = conv; output = 4; len_out = len }))
      × (slice out 4 len ≡ slice input 0 len)
unfolding put_conv0 get_conv0
get_conv0-put_conv0 crc32c buf conv input len small =
    let framed = memcpy (write_u32 buf 0 conv) 4 (slice input 0 len) in
    let sum = crc_of crc32c framed (len + 4) in
    let out = write_u32 framed (len + 4) sum in
    let same : (q : ℕ) → q < len + 4 → out q ≡ framed q = λ q below.
      write_u32-memcpy framed (len + 4) sum q
      ∙ memcpy_below framed (len + 4) (u32_bytes sum) q below in
    let read : read_u32 out 0 ≡ conv = read_u32_of_Holds out 0 conv small (
      Holds-agree framed out 0 (u32_bytes conv) (λ q lo hi. same q (omega arith))
        (Holds-append_left framed 0 (u32_bytes conv) (slice input 0 len)
          (put_conv-Holds buf conv (slice input 0 len)))) in
    let read_sum : read_u32 out (len + 4) ≡ sum =
      read_u32_of_Holds out (len + 4) sum (omega arith) (
        Holds-agree (memcpy framed (len + 4) (u32_bytes sum)) out (len + 4) (u32_bytes sum)
          (λ q lo hi. write_u32-memcpy framed (len + 4) sum q)
          (Holds-memcpy framed (len + 4) (u32_bytes sum))) in
    let again : crc_of crc32c out (len + 4) ≡ sum =
      ap (λ bs. crc32c bs % 2 ^ 32)
        (slice-same framed out 0 (len + 4) (λ q lo hi. same q (omega arith))) in
    let long : ltb (len + 4 + 4) 8 ≡ false = ground arith in
    let back : len + 4 + 4 - 4 ≡ len + 4 = omega arith in
    let back2 : len + 4 - 4 ≡ len = omega arith in
    (
      out,
      refl,
      rw (long, back, read_sum, again, ==-refl sum, read, back2) refl,
      slice-same framed out 4 len (λ q lo hi. same q (omega arith))
          ∙ slice_back (write_u32 buf 0 conv) 4 input 0 len,
    )
