-- ===== src/Tunnel/Outgoing.antt =====
-- A packet that is given to the encoder of a connection, and what comes out of that on its way.
use udpspeeder.Base.{
  ℕ, ◌+◌, ◌<◌, ◌≡◌, refl, ◌∙◌, true, false, List, [], ◌∷◌, Option, some, ◌⊎◌, length, ◌>>=◌,
}
use udpspeeder.Base.Memory.{Memory, memcpy, slice}
use udpspeeder.Rs.{Codec}
use udpspeeder.Cook.{do_cook}
use udpspeeder.Encoder.Flush.{Encoder, Reply}
use udpspeeder.Encoder.{input as encoder_input, output as encoder_output}
use udpspeeder.Sending.{Dest, Net, Setting, Call, called, call, my_send, cook_data, transmit}
use udpspeeder.Delay.{Delay, delay_send_batch, delay_send, add, handle}
use udpspeeder.Delay.Order.{has_room}
use udpspeeder.Tunnel.{
  Conn, Options, from_normal_to_fec, with_delays, or_nothing, count_in, count_all,
}
use udpspeeder.Tunnel.Client.{Given}

module _ (Info : Type 0) (g : Setting) (o : Options) (codec : Codec) (v : Given) where
  -- The connection after its encoder is `e` and gave `outs` for the packet.
  abbrev pub coded_conn : Conn → Encoder → (p : List ℕ) → (outs : List (ℕ × List ℕ)) → Conn
  coded_conn c e p outs = record c {
    fec_encode_manager = e;
    stat = record c.stat { normal_to_fec = count_all (count_in c.stat.normal_to_fec p) outs };
  }

  module _ {S : Type 0} (c : Conn) (w : Net Info) (q : Delay) (d : Dest) (p : List ℕ)
      (run : Option S) (site : Conn → Net Info → Delay → S) where
    -- `run` encodes the packet `p` of the connection `c` and sends what the encoder gives to `d`, with `hands`
    -- the call that reaches it. With error correction, the encoder gets the packet and its output is spread
    -- over time and sent to `d`; without it, the packet itself is cooked and handed to the system, at once.
    pub record Goes (hands : List ℕ → Call) : Type 0 where
      pub coded :
          (r : Reply) (e : Encoder) (outs : List (ℕ × List ℕ)) (w' : Net Info) (q' : Delay)
          → o.disable_fec ≡ false
          → encoder_input codec o.fec_par (v.us 0) c.fec_encode_manager (some p) ≡ some (r, e)
          → with_delays o v.roll (encoder_output e).0 (v.us 1) (or_nothing (encoder_output e).1)
            ≡ some outs
          → delay_send_batch Info g v.moments o.random_drop w q d outs ≡ some (w', q')
          → run ≡ some (site (coded_conn c (encoder_output e).0 p outs) w' q')
      pub plain :
          (m : Memory) (len : ℕ)
          → o.disable_fec ≡ true
          → o.random_drop ≡ 0
          → (q.capacity ≡ 0) ⊎ (length q.delay_mp < q.capacity)
          → do_cook g.platform g.crc32c
              (g.junk w.cooked)
              g.ctx
              (g.ivs w.cooked)
              (memcpy (g.behind w.cooked) 0 p)
              (length p)
            ≡ some (m, len)
          → run
            ≡ some (
                site
                  (coded_conn c c.fec_encode_manager p ((0, p) ∷ []))
                  (call Info (record w { cooked = w.cooked + 1 }) (hands (slice m 0 len)))
                  q)

    pub Goes-run :
        (hands : List ℕ → Call)
        → d.cook ≡ true
        → ((w' : Net Info) (s : List ℕ)
            → w'.handles ≡ w.handles
            → transmit Info g w' d.target s ≡ some (call Info w' (hands s), called))
        → run ≡ (
            from_normal_to_fec codec o v.roll (v.us 0) (v.us 1) c (some p) >>= λ (c', outs).
            delay_send_batch Info g v.moments o.random_drop w q d outs >>= λ (w', q').
            some (site c' w' q'))
        → Goes hands
    unfolding from_normal_to_fec delay_send_batch delay_send add handle my_send cook_data
    Goes-run hands cooks reaches runs = record {
      coded = λ r e outs w' q' on done spread sent. runs ∙ rw (on, done, ◌>>=◌, spread, sent) refl;
      plain = λ m len off none_lost room cooked.
          let at = reaches (record w { cooked = w.cooked + 1 }) (slice m 0 len) refl in
          runs
          ∙ rw
              (
                off,
                ◌>>=◌,
                none_lost,
                cooks,
                has_room q.capacity (length q.delay_mp) room,
                cooked,
                at,
              )
              refl;
    }
