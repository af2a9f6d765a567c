-- ===== src/Tunnel/Conserve.antt =====
-- from_fec_to_normal leaves the conversations and the addresses of a connection, and delays nothing; so does
-- from_normal_to_fec with the conversations and the address.
use udpspeeder.Base.{
  ℕ, suc, ◌^◌, ◌<◌, ◌≡◌, refl, ap, List, [], ◌∷◌, Option, none, some, length, ltb, length-take,
  ◌>>=◌, arith, Bool-cases, Option-cases, inl, inr, Returns, Returns-after, Returns-if,
}
use udpspeeder.Base.Memory.{Memory}
use udpspeeder.Rs.{Codec}
use udpspeeder.Decoder.{input as decoder_input}
use udpspeeder.Decoder.State.{Decoder, Packet, output as decoder_output}
use udpspeeder.Encoder.{input as encoder_input, output as encoder_output}
use udpspeeder.Tunnel.{
  Conn, Options, from_normal_to_fec, from_fec_to_normal, with_delays, or_nothing, count_in,
  count_all, at_once, contents, handed_out,
}

pub length-at_once : (ss : List (List ℕ)) → length (at_once ss) ≡ length ss
length-at_once [] = refl
length-at_once (s ∷ ss) = ap suc (length-at_once ss)

-- The loops over what the decoder hands out run below an int.
handed_out-few :
    (behind : Memory) (out : Option (ℕ × List Packet))
    → length (at_once (handed_out behind out)) < 2 ^ 31
handed_out-few behind none = omega arith
handed_out-few behind (some (n, ps)) = elim (Bool-cases (ltb n (2 ^ 31))) [
  | inl small ↦
      let low : n < 2 ^ 31 = ground (arith, small) in
      rw (length-at_once, handed_out, small)
        (rw (length-take n (contents behind ps)) (omega (arith, low)))
  | inr large ↦ rw (handed_out, large) (omega arith)
]

module _ (codec : Codec) (o : Options) where
  pub from_fec_to_normal-at_once :
      (behind : Memory) (c c' : Conn) (s : List ℕ) (outs : List (ℕ × List ℕ))
      → from_fec_to_normal codec o behind c s ≡ some (c', outs)
      → (ss : List (List ℕ)) × (outs ≡ at_once ss)
        × (c'.conv_manager ≡ c.conv_manager)
        × (c'.local_listen_fd ≡ c.local_listen_fd)
        × (c'.remote_fd64 ≡ c.remote_fd64)
        × (c'.stat.fec_to_normal ≡ count_all (count_in c.stat.fec_to_normal s) outs)
        × (c'.addr ≡ c.addr)
  unfolding from_fec_to_normal
  from_fec_to_normal-at_once behind c c' s outs run = elim (Bool-cases o.disable_fec) [
    | inl off ↦ finish (s ∷ []) c.fec_decode_manager (rw off at run)
    | inr on ↦ elim (Option-cases (decoder_input codec c.fec_decode_manager s)) [
      | inl failed ↦ absurd (cc (rw (on, failed) at run))
      | inr ((r, d), done) ↦
          finish (handed_out behind (decoder_output d).1) (decoder_output d).0
            (rw (on, done, ◌>>=◌) at run)
    ]
  ]
    where
      finish :
          (ss : List (List ℕ)) (d : Decoder)
          → (let r : Conn × List (ℕ × List ℕ) = (
            record c {
              fec_decode_manager = d;
              stat = record c.stat {
                fec_to_normal = count_all (count_in c.stat.fec_to_normal s) (at_once ss);
              };
            },
            at_once ss,
          ) in
              some r ≡ some (c', outs))
          → (ss : List (List ℕ)) × (outs ≡ at_once ss)
            × (c'.conv_manager ≡ c.conv_manager)
            × (c'.local_listen_fd ≡ c.local_listen_fd)
            × (c'.remote_fd64 ≡ c.remote_fd64)
            × (c'.stat.fec_to_normal ≡ count_all (count_in c.stat.fec_to_normal s) outs)
            × (c'.addr ≡ c.addr)
      finish ss d e = (ss, cc e, cc e, cc e, cc e, cc e, cc e)

  pub from_fec_to_normal-few :
      (behind : Memory) (c : Conn) (s : List ℕ)
      → Returns (λ r. length r.1 < 2 ^ 31) (from_fec_to_normal codec o behind c s)
  unfolding from_fec_to_normal
  from_fec_to_normal-few behind c s = elim (Bool-cases o.disable_fec) [
    | inl off ↦ rw (from_fec_to_normal, off) (omega arith)
    | inr on ↦
        rw (from_fec_to_normal, on)
          (Returns-after _ (decoder_input codec c.fec_decode_manager s) _
            (λ r. handed_out-few behind (decoder_output r.1).1))
  ]

  -- A connection with the conversations and the addresses of another, beside packets.
  abbrev pub SameConvs : Conn → Conn × List (ℕ × List ℕ) → Type 0
  SameConvs c r =
      (r.0.conv_manager ≡ c.conv_manager)
      × (r.0.addr ≡ c.addr)
      × (r.0.local_listen_fd ≡ c.local_listen_fd)

  pub from_normal_to_fec-SameConvs :
      (roll : ℕ → ℕ) (now later : ℕ) (c : Conn) (s : Option (List ℕ))
      → Returns (SameConvs c) (from_normal_to_fec codec o roll now later c s)
  unfolding from_normal_to_fec
  from_normal_to_fec-SameConvs roll now later c s =
      Returns-if (SameConvs c) o.disable_fec _ _ (refl, refl, refl)
        (Returns-after (SameConvs c) (encoder_input codec o.fec_par now c.fec_encode_manager s) _
          (λ r.
            Returns-after (SameConvs c)
              (with_delays o roll (encoder_output r.1).0 later (or_nothing (encoder_output r.1).1))
              _ (λ outs. (refl, refl, refl))))
