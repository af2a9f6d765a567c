-- ===== src/Cook/Checksum.antt =====
-- rm_crc32 accepts what put_crc32 made.
use udpspeeder.Base.{
  ℕ, ◌+◌, ◌-◌, ◌%◌, ◌^◌, ◌<◌, ◌≡◌, refl, ◌∙◌, ap, false, List, some, ltb, arith, Bool-cases, inl,
  inr, ==-refl,
}
use udpspeeder.Base.Memory.{Memory, memcpy, memcpy_below, slice-same, Holds-agree, Holds-memcpy}
use udpspeeder.Bytes.{write_u32, read_u32}
use udpspeeder.Bytes.Laws.{u32_bytes, write_u32-memcpy, read_u32_of_Holds}
use udpspeeder.Cook.Xor.{Platform}
use udpspeeder.Cook.{CookCtx, crc_of, put_crc32, rm_crc32}

module _ (p : Platform) (crc32c : List ℕ → ℕ) (ctx : CookCtx) (m m4 : Memory) (len : ℕ) where
  abbrev crc : ℕ
  crc = crc_of p crc32c m len

  read_back :
      ((q : ℕ) → q < len + 4 → m4 q ≡ write_u32 m len crc q)
      → (read_u32 m4 len ≡ crc) × ((q : ℕ) → q < len → m4 q ≡ m q)
  read_back h = (
    read_u32_of_Holds m4 len crc (omega arith) (
        Holds-agree (memcpy m len (u32_bytes crc)) m4 len (u32_bytes crc)
          (λ q lo hi. h q (omega arith) ∙ write_u32-memcpy m len crc q)
          (Holds-memcpy m len (u32_bytes crc))),
    λ q below.
        h q (omega arith)
        ∙ write_u32-memcpy m len crc q
        ∙ memcpy_below m len (u32_bytes crc) q below,
  )

  pub rm-put :
      ((q : ℕ) → q < (put_crc32 p crc32c ctx m len).1 → m4 q ≡ (put_crc32 p crc32c ctx m len).0 q)
      → (rm_crc32 p crc32c ctx m4 (put_crc32 p crc32c ctx m len).1 ≡ some len)
        × ((q : ℕ) → q < len → m4 q ≡ m q)
  unfolding put_crc32 rm_crc32
  rm-put h = elim (Bool-cases ctx.disable_checksum) [
    | inl off ↦ rw off (refl, rw off at h)
    | inr on ↦
        let (read, same) = read_back (rw on at h) in
        let e : len + 4 - 4 ≡ len = omega arith in
        let sum : crc_of p crc32c m4 len ≡ crc =
          ap (λ bs. crc32c bs % 2 ^ 32) (slice-same m m4 0 len (λ q lo hi. same q (omega arith))) in
        let long : ltb (len + 4) 4 ≡ false = ground arith in
        rw (on, long, e, read, sum, ==-refl crc) (refl, same)
  ]
