-- ===== src/Delay/Standing.antt =====
-- Sending at once, later or in a batch leaves the handles of the network as they are.
use udpspeeder.Base.{
  ℕ, suc, ◌%◌, ◌≡◌, Bool, not, List, [], ◌∷◌, length, ltb, leb, ◌==◌, ◌&&◌, Returns, Returns-bind,
  Returns-if, Bool-cases, inl, inr,
}
use udpspeeder.Handles.{Handles}
use udpspeeder.Sending.{Dest, Net, Setting, my_send_batch}
use udpspeeder.Sending.Standing.{Stands, Stands2, my_send-Stands, my_send_batch-Stands}
use udpspeeder.Delay.{
  DelayData, Timed, Delay, Moment, handle, add, send_due, check_on, check, delay_send,
  delay_send_each, delay_send_batch, all_zero, packets,
}

module _ (Info : Type 0) (h : Handles Info) (g : Setting) where
  handle-Stands :
      (w : Net Info) (x : DelayData) → w.handles ≡ h → Returns (Stands Info h) (handle Info g w x)
  unfolding handle
  handle-Stands w x e = my_send-Stands Info h g w x.dest x.bytes e

  add-Stands :
      (now : ℕ) (allocated : Bool) (w : Net Info) (q : Delay) (delay : ℕ) (d : Dest) (s : List ℕ)
      → w.handles ≡ h
      → Returns (Stands2 Info h) (add Info g now allocated w q delay d s)
  unfolding add
  add-Stands now allocated w q delay d s e =
      Returns-if (Stands2 Info h) (not (q.capacity == 0) && leb q.capacity (length q.delay_mp)) _ _
        e
        (Returns-if (Stands2 Info h) (delay == 0) _ _
          (Returns-bind (Stands Info h) (Stands2 Info h)
            (handle Info g w (record { dest = d; bytes = s })) _
            (handle-Stands w (record { dest = d; bytes = s }) e) (λ r e'. e'))
          (Returns-if (Stands2 Info h) (not allocated) _ _ e e))

  pub delay_send-Stands :
      (now : ℕ) (allocated : Bool) (random_drop random : ℕ) (w : Net Info) (q : Delay) (delay : ℕ)
      (d : Dest) (s : List ℕ)
      → w.handles ≡ h
      → Returns (Stands2 Info h) (delay_send Info g now allocated random_drop random w q delay d s)
  unfolding delay_send
  delay_send-Stands now allocated random_drop random w q delay d s e =
      Returns-if (Stands2 Info h)
        ((d.cook && not (random_drop == 0)) && ltb (random % 10000) random_drop) _ _ e
        (add-Stands now allocated w q delay d s e)

  delay_send_each-Stands :
      (at : ℕ → Moment) (drop i : ℕ) (w : Net Info) (q : Delay) (d : Dest) (ss : List (ℕ × List ℕ))
      → w.handles ≡ h
      → Returns (Stands Info h) (delay_send_each Info g at drop i w q d ss)
  delay_send_each-Stands at drop i w q d [] e = e
  delay_send_each-Stands at drop i w q d ((delay, s) ∷ ss) e =
      Returns-bind (Stands2 Info h) (Stands Info h)
        (delay_send Info g (at i).now (at i).allocated drop (at i).random w q delay d s) _
        (delay_send-Stands (at i).now (at i).allocated drop (at i).random w q delay d s e)
        (λ r e'. delay_send_each-Stands at drop (suc i) r.0 r.1 d ss e')

  pub delay_send_batch-Stands :
      (at : ℕ → Moment) (drop : ℕ) (w : Net Info) (q : Delay) (d : Dest) (ss : List (ℕ × List ℕ))
      → w.handles ≡ h
      → Returns (Stands Info h) (delay_send_batch Info g at drop w q d ss)
  unfolding delay_send_batch
  delay_send_batch-Stands at drop w q d ss e =
      Returns-if (Stands Info h) ((ltb 1 (length ss) && (drop == 0)) && all_zero ss) _ _
        (Returns-bind (Stands Info h) (Stands Info h) (my_send_batch Info g w d (packets ss)) _
          (my_send_batch-Stands Info h g w d (packets ss) e) (λ r e'. e'))
        (delay_send_each-Stands at drop 0 w q d ss e)

  send_due-Stands :
      (clock : ℕ → ℕ) (i : ℕ) (w : Net Info) (q : List Timed)
      → w.handles ≡ h
      → Returns (Stands2 Info h) (send_due Info g clock i w q)
  send_due-Stands clock i w [] e = e
  send_due-Stands clock i w (x ∷ q) e = elim (Bool-cases (leb x.time (clock i))) [
    | inl due ↦
        rw (send_due, due)
          (Returns-bind (Stands Info h) (Stands2 Info h) (handle Info g w x.item) _
            (handle-Stands w x.item e) (λ r e'. send_due-Stands clock (suc i) r.0 q e'))
    | inr later ↦ rw (send_due, later) e
  ]

  check_on-Stands :
      (clock : ℕ → ℕ) (w : Net Info) (q : Delay) (mp : List Timed)
      → w.handles ≡ h
      → Returns (Stands Info h) (check_on Info g clock w q mp)
  check_on-Stands clock w q [] e = e
  check_on-Stands clock w q (x ∷ mp) e =
      Returns-bind (Stands2 Info h) (Stands Info h) (send_due Info g clock 0 w (x ∷ mp)) _
        (send_due-Stands clock 0 w (x ∷ mp) e) (λ r e'. e')

  pub check-Stands :
      (clock : ℕ → ℕ) (w : Net Info) (q : Delay)
      → w.handles ≡ h
      → Returns (Stands Info h) (check Info g clock w q)
  unfolding check
  check-Stands clock w q e = check_on-Stands clock w q q.delay_mp e
