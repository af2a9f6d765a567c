-- ===== src/Encoder.antt =====
-- fec_encode_manager_t of fec_manager.h and fec_manager.cpp. `none` is a failed `assert`. The constants
-- `encode_fast_send` and `short_packet_optimize` are 1 in the source, and their branches are taken.
-- What `input_buf` holds of a packet is the bytes behind the eight of the header.
pub mod Best
pub mod Flush
pub mod Collect
use udpspeeder.Base.{
  ℕ, zero, suc, ◌+◌, ◌-◌, ◌*◌, ◌%◌, ◌/◌, ◌^◌, ◌≤◌, ◌<◌, Bool, true, false, not, List, [], ◌∷◌, ◌++◌,
  Option, none, some, length, ltb, leb, ◌==◌, ◌||◌, ◌&&◌, if◌then◌else◌, assert, ◌>>=◌, ◌>>◌,
}
use udpspeeder.Bytes.Laws.{u16_bytes}
use udpspeeder.Blob.{BlobEncode, encode_input, encode_clear, encode_output, get_shard_len_with}
use udpspeeder.Rs.{Codec}
use udpspeeder.Param.{FecParameter, RsParameter, get_tail, clone}
use Flush.{Encoder, Reply, ok, fail, flush, data_header}

-- What is null is `none`: the call of the timer, with a length of 0.
abbrev pub len_of : Option (List ℕ) → ℕ
len_of none = 0
len_of (some s) = length s

abbrev pub is_packet : Option (List ℕ) → Bool
is_packet none = false
is_packet (some s) = true

-- `timer` is what `ev_timer_set` was given, while the timer runs.
unfoldable pub start_timer : ℕ → Encoder → Encoder
start_timer now e =
    if e.counter == 0
    then record e { first_packet_time = now; timer = some e.fec_par.timeout }
    else e

unfoldable pub append : ℕ → Encoder → List ℕ → Option Encoder
append now e s =
    let e' = start_timer now e in
    if e.fec_par.mode == 0
    then (do
      blob ← encode_input e.blob_encode s
      some (record e' { blob_encode = blob; counter = e.counter + 1 }))
    else if e.fec_par.mode == 1
    then (do
      assert (leb (length s) 65535)
      some (record e' {
        input_buf = λ i. if i == e.counter then u16_bytes (length s) ++ s else e.input_buf i;
        counter = e.counter + 1;
      }))
    else none

unfoldable pub append_if : Bool → ℕ → Encoder → Option (List ℕ) → Option Encoder
append_if true now e (some s) = append now e s
append_if true now e none = some e
append_if false now e s = some e

-- A packet of mode 1 is sent on when it comes, unless it has completed a group.
unfoldable pub fast_send : Encoder → Option (List ℕ) → Option Encoder
fast_send e s =
    if is_packet s && e.fec_par.mode == 1
    then (do
      assert (leb 1 e.counter)
      assert (leb e.counter 255)
      assert (not e.ready_for_output)
      let i = e.counter - 1
      some (record e {
        ready_for_output = true;
        first_packet_time_for_output = 0;
        output = (data_header e i ++ e.input_buf i) ∷ [];
      }))
    else some e

-- `full` is set where the queue has no room for one more.
unfoldable pub is_full : Encoder → RsParameter → Bool
is_full e tail =
    (e.fec_par.mode == 0 && e.counter == e.fec_par.queue_len)
    || (e.fec_par.mode == 1 && e.counter == tail.x)

-- Whether the packet would make the shards longer than the mtu.
unfoldable pub is_too_long : Encoder → RsParameter → ℕ → Bool
is_too_long e tail len =
    e.fec_par.mode == 0 && ltb e.fec_par.mtu (get_shard_len_with e.blob_encode tail.x len)

unfoldable pub has_room : Encoder → RsParameter → Bool
has_room e tail =
    if e.fec_par.mode == 0 then ltb e.counter e.fec_par.queue_len else ltb e.counter tail.x

module _ (codec : Codec) where
  -- From the decision to send on.
  unfoldable pub send_or_keep :
      (about_to_fec delayed_append : Bool) (now : ℕ)
      → Encoder
      → Option (List ℕ)
      → Option (Reply × Encoder)
  send_or_keep about_to_fec delayed_append now e s =
      if about_to_fec && e.counter == 0 then some (fail, e) else (do
        e1 ← if about_to_fec then flush codec e (is_packet s) else fast_send e s
        e2 ← append_if delayed_append now e1 s
        some (ok, e2))

  unfoldable pub take_packet : ℕ → Encoder → Option (List ℕ) → Option (Reply × Encoder)
  take_packet now e s = do
    assert (leb e.fec_par.mode 1)
    tail ← get_tail e.fec_par
    let too_long = is_too_long e tail (len_of s)
    if is_packet s && (e.counter == 0 && too_long)
        then some (fail, e)
        else if not (is_packet s) && e.counter == 0
        then some (fail, e)
        else (do
          assert (has_room e tail)
          e1 ← append_if (not too_long) now e s
          send_or_keep (not (is_packet s) || (too_long || is_full e1 tail)) too_long now e1 s)

  -- `g_fec_par` is the global setting; a change of its version is taken over between groups.
  unfoldable pub input : FecParameter → ℕ → Encoder → Option (List ℕ) → Option (Reply × Encoder)
  input g_fec_par now e s =
      if e.counter == 0 && not (e.fec_par.version == g_fec_par.version)
      then (do par ← clone e.fec_par g_fec_par; take_packet now (record e { fec_par = par }) s)
      else take_packet now e s

unfoldable pub output : Encoder → Encoder × Option (List (List ℕ))
output e =
    if e.ready_for_output then (record e { ready_for_output = false }, some e.output) else (e, none)

-- `seq` is the random number that the call draws; a timer runs only where a loop is set.
unfoldable pub clear_data : ℕ → Encoder → Encoder
clear_data seq e = record e {
  counter = 0;
  blob_encode = encode_clear e.blob_encode;
  ready_for_output = false;
  seq = seq % 2 ^ 32;
  timer = none;
}
