-- ===== src/Sending/Batch.antt =====
-- A batch puts the same datagrams on the wire as its packets sent one by one.
use udpspeeder.Base.{
  ℕ, ◌≤◌, ◌≡◌, refl, ◌∙◌, sym, ap, Bool, List, [], ◌∷◌, some, length, arith, ◌>>=◌, Option-cases,
  inl, inr,
}
use udpspeeder.Handles.{Handles}
use udpspeeder.Sending.{Dest, Setting, Net, my_send, send_each, my_send_batch}
use udpspeeder.Sending.Wire.{Datagram, wire, IsSocket}
use udpspeeder.Sending.Routes.{
  Route, Along, raw, raws, after, cook_data-raw, cook_all-raws, routed, after-handles, after-cooked,
  after-cook, after-nil, after-after,
}

module _ (Info : Type 0) (g : Setting) where
  send_each-after :
      (d : Dest) (h : Handles Info) (r : Route)
      → ((w : Net Info) → w.handles ≡ h → Along Info g d.target w r)
      → (w : Net Info) (ss : List (List ℕ)) → w.handles ≡ h
      → send_each Info g w d ss
        ≡ raws Info g w.cooked d.cook ss >>= (λ (n, ss'). some (after Info g w r n ss'))
  unfolding my_send
  send_each-after d h r along w [] same = ap some (sym (after-nil Info g w r))
  send_each-after d h r along w (s ∷ ss) same = elim (Option-cases (raw Info g w.cooked d.cook s)) [
    | inl failed ↦ rw (send_each, my_send, cook_data-raw Info g w d.cook s, failed) refl
    | inr ((n, s'), done) ↦
        let (o, sent) = (along (record w { cooked = n }) same).one s' in
        let w1 = after Info g w r n (s' ∷ []) in
        let next =
          send_each-after d h r along w1 ss (after-handles Info g w r n (s' ∷ []) ∙ same) in
        let first : my_send Info g w d s ≡ some (w1, o) =
          rw (my_send, cook_data-raw Info g w d.cook s, done, ◌>>=◌)
            (sent ∙ rw (after-cook Info g w r n (s' ∷ [])) refl) in
        elim (Option-cases (raws Info g n d.cook ss)) [
          | inl failed ↦
              rw (send_each, first, ◌>>=◌)
                (next ∙ rw (after-cooked Info g w r n (s' ∷ []), failed, done, ◌>>=◌, failed) refl)
          | inr ((n', ss'), rest) ↦
              rw (send_each, first, ◌>>=◌)
                (next
                  ∙ rw (after-cooked Info g w r n (s' ∷ []), rest, done, ◌>>=◌, rest)
                      (ap some (after-after Info g w r n n' s' ss')))
        ]
  ]

  raws-length :
      (n : ℕ) (b : Bool) (ss : List (List ℕ)) (n' : ℕ) (ss' : List (List ℕ))
      → raws Info g n b ss ≡ some (n', ss')
      → length ss' ≡ length ss
  raws-length n b [] n' ss' h = ground (arith, h)
  raws-length n b (s ∷ ss) n' ss' h = elim (Option-cases (raw Info g n b s)) [
    | inl failed ↦ absurd (cc (rw failed at h))
    | inr ((k, s'), done) ↦ elim (Option-cases (raws Info g k b ss)) [
      | inl failed ↦ absurd (cc (rw (done, ◌>>=◌, failed) at h))
      | inr ((k', ts), rest) ↦
          let shorter = raws-length k b ss k' ts rest in
          let h' : some (k', s' ∷ ts) ≡ some (n', ss') = rw (done, ◌>>=◌, rest) at h in
          ground (arith, shorter, h')
    ]
  ]

  -- What is on the wire, and how many packets were cooked.
  abbrev pub seen : Net Info → List Datagram × ℕ
  seen w = (wire w.calls, w.cooked)

  -- For a destination that is a socket and at most 255 packets, my_send_batch puts on the wire what
  -- my_send does packet by packet, in the same order and cooked with the same random bytes, and fails
  -- where one of those fails.
  pub my_send_batch-my_send :
      (w : Net Info) (d : Dest) (ss : List (List ℕ))
      → IsSocket d.target
      → length ss ≤ 255
      → my_send_batch Info g w d ss >>= (λ (w', o). some (seen w'))
        ≡ send_each Info g w d ss >>= (λ w'. some (seen w'))
  unfolding my_send_batch
  my_send_batch-my_send w d [] ok few = refl
  my_send_batch-my_send w d (s ∷ []) ok few = elim (Option-cases (my_send Info g w d s)) [
    | inl failed ↦ rw (failed, ◌>>=◌) refl
    | inr (r, done) ↦ rw (done, ◌>>=◌) refl
  ]
  my_send_batch-my_send w d (s ∷ t ∷ ss) ok few =
      let (r, along) = routed Info g d.target w.handles ok in
      let singles = send_each-after d w.handles r along w (s ∷ t ∷ ss) refl in
      elim (Option-cases (raws Info g w.cooked d.cook (s ∷ t ∷ ss))) [
        | inl failed ↦
            rw (my_send_batch, cook_all-raws Info g w d.cook (s ∷ t ∷ ss), singles, failed) refl
        | inr ((n, ss'), done) ↦
            let same = raws-length w.cooked d.cook (s ∷ t ∷ ss) n ss' done in
            let (w', o, sent, count, on_wire) =
              (along (record w { cooked = n }) refl).many d ss' (omega (arith, same, few)) in
            let wires : wire w'.calls ≡ wire (after Info g w r n ss').calls =
              on_wire ∙ ap (λ v. wire v.calls) (after-cook Info g w r n ss') in
            let counts : w'.cooked ≡ (after Info g w r n ss').cooked =
              count ∙ sym (after-cooked Info g w r n ss') in
            rw
              (
                my_send_batch,
                cook_all-raws Info g w d.cook (s ∷ t ∷ ss),
                singles,
                done,
                ◌>>=◌,
                sent,
              )
              (λ i. some (wires i, counts i))
      ]
