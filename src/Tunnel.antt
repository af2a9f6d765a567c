-- ===== src/Tunnel.antt =====
-- conn_info_t and stat_t of connection.h, and from_normal_to_fec and from_fec_to_normal of misc.cpp: a
-- connection with its conversations, its encoder and its decoder. `none` is a failed `assert` or the end of
-- the process. A packet that goes out stands with its delay; data that is null is `none`.
pub mod Conserve
pub mod Client
pub mod Replies
pub mod Passage
pub mod Outgoing
pub mod Return
use udpspeeder.Base.{
  ℕ, zero, suc, ◌+◌, ◌-◌, ◌*◌, ◌/◌, ◌%◌, ◌^◌, Bool, true, false, not, List, [], ◌∷◌, Option, none,
  some, length, take, ltb, leb, ◌==◌, ◌&&◌, if◌then◌else◌, assert, ◌>>=◌, ◌>>◌,
}
use udpspeeder.Base.Memory.{Memory, memcpy, slice}
use udpspeeder.Clock.{random_between}
use udpspeeder.Rs.{Codec}
use udpspeeder.Param.{FecParameter}
use udpspeeder.Encoder.Flush.{Encoder}
use udpspeeder.Encoder.{input as encoder_input, output as encoder_output}
use udpspeeder.Decoder.State.{Decoder, Packet}
use udpspeeder.Decoder.State.{output as decoder_output}
use udpspeeder.Decoder.{input as decoder_input}
use udpspeeder.Convs.{Convs, since}

pub record InnerStat : Type 0 where
  pub input_packet_num : ℕ
  pub input_packet_size : ℕ
  pub output_packet_num : ℕ
  pub output_packet_size : ℕ

pub record Stat : Type 0 where
  pub last_report_time : ℕ
  pub normal_to_fec : InnerStat
  pub fec_to_normal : InnerStat

pub record Conn : Type 0 where
  pub conv_manager : Convs
  pub fec_encode_manager : Encoder
  pub fec_decode_manager : Decoder
  pub stat : Stat
  pub last_active_time : ℕ
  pub local_listen_fd : ℕ
  pub remote_fd64 : ℕ
  pub addr : ℕ

-- The options of misc.cpp and packet.cpp that the two directions read, and g_fec_par.
pub record Options : Type 0 where
  pub disable_fec : Bool
  pub fix_latency : Bool
  pub jitter_min : ℕ
  pub jitter_max : ℕ
  pub output_interval_min : ℕ
  pub output_interval_max : ℕ
  pub random_drop : ℕ
  pub fec_par : FecParameter

unfoldable pub count_in : InnerStat → List ℕ → InnerStat
count_in t s = record t {
  input_packet_num = (t.input_packet_num + 1) % 2 ^ 64;
  input_packet_size = (t.input_packet_size + length s) % 2 ^ 64;
}

unfoldable pub count_out : InnerStat → List ℕ → InnerStat
count_out t s = record t {
  output_packet_num = (t.output_packet_num + 1) % 2 ^ 64;
  output_packet_size = (t.output_packet_size + length s) % 2 ^ 64;
}

abbrev pub count_in_if : InnerStat → Option (List ℕ) → InnerStat
count_in_if t none = t
count_in_if t (some s) = count_in t s

abbrev pub count_all : InnerStat → List (ℕ × List ℕ) → InnerStat
count_all t [] = t
count_all t ((delay, s) ∷ ss) = count_all (count_out t s) ss

-- report_as_client and report_as_server, but for what they log.
unfoldable pub report : (report_interval now : ℕ) → Stat → Stat
report report_interval now t =
    if not (report_interval == 0) && ltb (report_interval * 1000) (since now t.last_report_time)
    then record t { last_report_time = now }
    else t

unfoldable pub update_active_time : Conn → ℕ → Conn
update_active_time c now = record c { last_active_time = now }

-- What fix_latency adds: the part of the timeout that the first packet has not waited.
unfoldable pub fixed_latency : Encoder → (now : ℕ) → Option ℕ
fixed_latency e now = do
  assert (not (e.first_packet_time_for_output == 0))
  let waited = since now e.first_packet_time_for_output
  some (if leb waited e.fec_par.timeout then e.fec_par.timeout - waited else 0)

unfoldable pub common_latency : Options → (roll : ℕ → ℕ) → Encoder → (now : ℕ) → Option ℕ
common_latency o roll e now = do
  fixed ← if o.fix_latency && e.fec_par.mode == 0 then fixed_latency e now else some 0
  jitter ← random_between o.jitter_min o.jitter_max (roll 0)
  some ((fixed + jitter) % 2 ^ 64)

-- `out_delay_buf[i]` from `i` on, behind a packet with the delay `before`; `n` is `out_n - 1`.
abbrev pub spread :
    Options → (roll : ℕ → ℕ) → (n i before : ℕ) → List (List ℕ) → Option (List (ℕ × List ℕ))
spread o roll n i before [] = some []
spread o roll n i before (s ∷ ss) =
    random_between o.output_interval_min o.output_interval_max (roll i) >>= λ interval.
    spread o roll n (suc i) ((before + interval / n) % 2 ^ 64) ss >>= λ rest.
    some (((before + interval / n) % 2 ^ 64, s) ∷ rest)

abbrev pub with_delays :
    Options → (roll : ℕ → ℕ) → Encoder → (now : ℕ) → List (List ℕ) → Option (List (ℕ × List ℕ))
with_delays o roll e now [] = some []
with_delays o roll e now (s ∷ ss) = common_latency o roll e now >>= λ common.
    spread o roll (length ss) 1 common ss >>= λ rest. some ((common, s) ∷ rest)

-- `out_n` and the arrays; -1 stands for no packet.
abbrev pub or_nothing {ℓ} : {A : Type ℓ} → Option (List A) → List A
or_nothing none = []
or_nothing (some ss) = ss

abbrev pub at_once : List (List ℕ) → List (ℕ × List ℕ)
at_once [] = []
at_once (s ∷ ss) = (0, s) ∷ at_once ss

-- The bytes of a packet that the decoder hands out: `out_len` of them, where the length that stands in a
-- shard of mode 1 can be above what the shard holds; `behind` is what stands in the buffer behind it.
abbrev pub contents : (behind : Memory) → List Packet → List (List ℕ)
contents behind [] = []
contents behind (p ∷ ps) = slice (memcpy behind 0 p.bytes) 0 p.len ∷ contents behind ps

-- `out_n` is an int; the loops run below it.
abbrev pub handed_out : (behind : Memory) → Option (ℕ × List Packet) → List (List ℕ)
handed_out behind none = []
handed_out behind (some (n, ps)) = if ltb n (2 ^ 31) then take n (contents behind ps) else []

module _ (codec : Codec) where
  -- `now` and `later` are what the clock shows to the encoder and after it.
  unfoldable pub from_normal_to_fec :
      Options
      → (roll : ℕ → ℕ) → (now later : ℕ) → Conn
      → Option (List ℕ)
      → Option (Conn × List (ℕ × List ℕ))
  from_normal_to_fec o roll now later c s =
      let t = count_in_if c.stat.normal_to_fec s in
      if o.disable_fec
      then (let outs = at_once (elim s [ none ↦ [] | some x ↦ x ∷ [] ]) in
          some (record c { stat = record c.stat { normal_to_fec = count_all t outs } }, outs))
      else (encoder_input codec o.fec_par now c.fec_encode_manager s >>= λ (r, e).
          let (e', out) = encoder_output e in
          with_delays o roll e' later (or_nothing out) >>= λ outs. some (
            record c {
              fec_encode_manager = e';
              stat = record c.stat { normal_to_fec = count_all t outs };
            },
            outs,
          ))

  unfoldable pub from_fec_to_normal :
      Options → (behind : Memory) → Conn → List ℕ → Option (Conn × List (ℕ × List ℕ))
  from_fec_to_normal o behind c s =
      let t = count_in c.stat.fec_to_normal s in
      if o.disable_fec
      then some (
        record c { stat = record c.stat { fec_to_normal = count_all t (at_once (s ∷ [])) } },
        at_once (s ∷ []),
      )
      else (decoder_input codec c.fec_decode_manager s >>= λ (r, d).
          let (d', out) = decoder_output d in
          let outs = at_once (handed_out behind out) in
          some (
            record c {
              fec_decode_manager = d';
              stat = record c.stat { fec_to_normal = count_all t outs };
            },
            outs,
          ))
