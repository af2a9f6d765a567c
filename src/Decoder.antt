-- ===== src/Decoder.antt =====
-- fec_decode_manager_t of fec_manager.h and fec_manager.cpp. `none` is a failed `assert`. The mode
-- constant `decode_fast_send` is 1 in the source, and its branches are taken here. The buffers of a
-- group whose FEC is done are not read again, so what the library writes into them is not kept.
pub mod Wire
pub mod State
pub mod Deliver
pub mod TableSize
pub mod Refusal
pub mod Collect
pub mod Joins
pub mod Complete
pub mod Recovery
use udpspeeder.Base.{
  ℕ, suc, ◌+◌, ◌-◌, ◌*◌, ◌≤◌, ◌<◌, Bool, true, false, not, List, [], ◌∷◌, Option, none, some,
  length, drop, ltb, leb, ◌==◌, ◌||◌, ◌&&◌, if◌then◌else◌, assert, ◌>>=◌, ◌>>◌,
}
use udpspeeder.Blob.{buf_len}
use udpspeeder.Replay
use udpspeeder.Group.{Group, has_shard}
use udpspeeder.Rs.{Codec}
use Wire.{Header, header_len, parse_header, is_refused}
use State.{
  Decoder, Reply, ok, fail, find_or_create, group_at, put_group, join_group, recycle, place,
  advance,
}
use Deliver.{Ripeness, overfull, ripe, unripe, ripeness, decode_group, fast_send}

module _ (codec : Codec) where
  -- From the placed shard on, to the label `end`.
  unfoldable pub finish : Header → List ℕ → Decoder → Option Decoder
  finish h payload d = elim (ripeness h (group_at d h.seq)) [
    | overfull ↦ some (record d { anti_replay = Replay.set_invaild d.anti_replay h.seq })
    | ripe ↦ decode_group codec h payload d
    | unripe ↦ fast_send h d
  ]

  -- From the look-up of the group on, for a shard that passed the checks of its header.
  unfoldable pub take_shard : Header → List ℕ → Decoder → Option (Reply × Decoder)
  take_shard h payload d =
      let d1 = find_or_create d h.seq in
      let joined = join_group (group_at d1 h.seq) h (length payload) in
      let d2 = put_group d1 h.seq joined.group in
      let d3 = recycle d2 in
      if not joined.go_on
      then some (fail, d2)
      else if (d2.fec_data d2.index).used && (d2.fec_data d2.index).seq == h.seq
      then some (fail, d3)
      else (do
        assert (ltb d3.index d3.fec_buff_num)
        d4 ← finish h payload (place d3 h payload)
        some (ok, advance d4))

  -- `input(s, len)`, for the `len` bytes at `s`.
  unfoldable pub input : Decoder → List ℕ → Option (Reply × Decoder)
  input d s = do
    assert (ltb (length s + 100) buf_len)
    let h = parse_header s
    let payload = drop header_len s
    if ltb (length s) header_len
        then some (fail, d)
        else if is_refused h payload
        then some (fail, d)
        else if not (Replay.is_valid d.anti_replay h.seq)
        then some (ok, d)
        else take_shard h payload d
