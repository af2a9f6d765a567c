-- ===== src/Delay/Paths.antt =====
-- The two paths of delay_send_batch do the same.
use udpspeeder.Base.{
  ℕ, suc, ◌≤◌, ◌<◌, ◌≡◌, refl, ◌∙◌, sym, ap, Bool, true, false, not, List, [], ◌∷◌, Option, some,
  none, ◌⊎◌, length, ◌==◌, ltb, leb, ◌%◌, ◌&&◌, arith, ◌>>=◌, Bool-cases, Option-cases, inl, inr,
}
use udpspeeder.Sending.{Dest, Net, Outcome, Setting, my_send, my_send_batch, send_each}
use udpspeeder.Sending.Wire.{Datagram, IsSocket}
use udpspeeder.Sending.Batch.{seen, my_send_batch-my_send}
use udpspeeder.Delay.{
  Delay, Moment, all_zero, packets, ok, handle, add, delay_send, delay_send_each, delay_send_batch,
}
use udpspeeder.Delay.Order.{has_room}

length-packets : (ss : List (ℕ × List ℕ)) → length (packets ss) ≡ length ss
length-packets [] = refl
length-packets ((delay, s) ∷ ss) = ap suc (length-packets ss)

no_drop : (b : Bool) (random : ℕ) → (b && not (0 == 0)) && ltb (random % 10000) 0 ≡ false
no_drop false random = refl
no_drop true random = refl

both : (a b : Bool) → a && b ≡ true → (a ≡ true) × (b ≡ true)
both true true h = (refl, refl)
both true false h = cc
both false b h = cc

module _ (Info : Type 0) (g : Setting) where
  -- What can be seen of the sending, and the queue.
  abbrev pub view : Net Info × Delay → Option ((List Datagram × ℕ) × Delay)
  view (w, q') = some (seen Info g w, q')

module _ (Info : Type 0) (g : Setting) (q : Delay) where
  -- A packet without delay is sent at once.
  delay_send_now :
      (now : ℕ) (allocated : Bool) (random : ℕ) (w' : Net Info) (d : Dest) (s : List ℕ)
      → not (q.capacity == 0) && leb q.capacity (length q.delay_mp) ≡ false
      → delay_send Info g now allocated 0 random w' q 0 d s
        ≡ my_send Info g w' d s >>= (λ (w'', o). some (w'', q, ok))
  unfolding delay_send add handle
  delay_send_now now allocated random w' d s room =
      rw (delay_send, no_drop d.cook random, add, room, handle) refl

  each_now :
      (moment : ℕ → Moment) (i : ℕ) (w : Net Info) (d : Dest) (ss : List (ℕ × List ℕ))
      → not (q.capacity == 0) && leb q.capacity (length q.delay_mp) ≡ false
      → all_zero ss ≡ true
      → delay_send_each Info g moment 0 i w q d ss
        ≡ send_each Info g w d (packets ss) >>= (λ w'. some (w', q))
  each_now moment i w d [] room zeros = refl
  each_now moment i w d ((delay, s) ∷ ss) room zeros =
      let (first, others) = both (delay == 0) (all_zero ss) zeros in
      let e : delay ≡ 0 = ground (arith, first) in
      elim (Option-cases (my_send Info g w d s)) [
        | inl failed ↦
            rw
              (
                delay_send_each,
                e,
                delay_send_now (moment i).now (moment i).allocated (moment i).random w d s room,
                failed,
              )
              refl
        | inr ((w', o), done) ↦
            rw
              (
                delay_send_each,
                e,
                delay_send_now (moment i).now (moment i).allocated (moment i).random w d s room,
                done,
                ◌>>=◌,
              )
              (each_now moment (suc i) w' d ss room others)
      ]

  abbrev keep : Net Info → Option (Net Info × Delay)
  keep w = some (w, q)

  abbrev beside : List Datagram × ℕ → Option ((List Datagram × ℕ) × Delay)
  beside v = some (v, q)

  view_each :
      (o : Option (Net Info))
      → o >>= keep >>= view Info g ≡ o >>= (λ w. some (seen Info g w)) >>= beside
  view_each none = refl
  view_each (some w) = refl

  view_batch :
      (o : Option (Net Info × Outcome))
      → o >>= (λ (w, r). keep w) >>= view Info g ≡ o >>= (λ (w, r). some (seen Info g w)) >>= beside
  view_batch none = refl
  view_batch (some r) = refl

  -- For a socket and at most 255 packets, where the queue has room: delay_send_batch leaves the same on the
  -- wire, the same random bytes drawn and the same queue as delay_send packet by packet, and fails where
  -- one of those fails.
  pub delay_send_batch-delay_send :
      (moment : ℕ → Moment) (drop : ℕ) (w : Net Info) (d : Dest) (ss : List (ℕ × List ℕ))
      → IsSocket d.target
      → length ss ≤ 255
      → (q.capacity ≡ 0) ⊎ (length q.delay_mp < q.capacity)
      → delay_send_batch Info g moment drop w q d ss >>= view Info g
        ≡ delay_send_each Info g moment drop 0 w q d ss >>= view Info g
  unfolding delay_send_batch
  delay_send_batch-delay_send moment drop w d ss socket few room =
      elim (Bool-cases ((ltb 1 (length ss) && (drop == 0)) && all_zero ss)) [
        | inl fast ↦
            let (several_kept, zeros) =
              both (ltb 1 (length ss) && (drop == 0)) (all_zero ss) fast in
            let (several, kept) = both (ltb 1 (length ss)) (drop == 0) several_kept in
            let none_dropped : drop ≡ 0 = ground (arith, kept) in
            let singles =
              each_now moment 0 w d ss (has_room q.capacity (length q.delay_mp) room) zeros in
            rw (delay_send_batch, fast, none_dropped, singles)
              (view_batch (my_send_batch Info g w d (packets ss))
                ∙ ap (λ o. o >>= beside)
                    (my_send_batch-my_send Info g w d (packets ss) socket
                      (omega (arith, length-packets ss, few)))
                ∙ sym (view_each (send_each Info g w d (packets ss))))
        | inr slow ↦ rw (delay_send_batch, slow) refl
      ]
