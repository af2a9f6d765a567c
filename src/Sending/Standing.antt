-- ===== src/Sending/Standing.antt =====
-- Sending leaves the handles of the network as they are.
use udpspeeder.Base.{
  ℕ, ◌≡◌, Bool, true, false, List, [], ◌∷◌, Option, none, some, length, leb, assert, Returns,
  Returns-bind, Returns-after, Bool-cases, inl, inr,
}
use udpspeeder.Base.Memory.{memcpy}
use udpspeeder.Blob.{max_fec_packet_num}
use udpspeeder.Cook.{do_cook}
use udpspeeder.Handles.{Handles, exist, to_fd}
use udpspeeder.Sending.{
  Target, Dest, Setting, Outcome, Net, cook_data, with_fd, transmit, my_send, send_each, cook_all,
  hand, hand_each, hand_over, transmit_batch, my_send_batch, call,
}

module _ (Info : Type 0) (h : Handles Info) where
  -- A network with the handles `h`, beside anything.
  abbrev pub Stands : {A : Type 0} → Net Info × A → Type 0
  Stands r = r.0.handles ≡ h

  -- The same beside two things.
  abbrev pub Stands2 : {A B : Type 0} → Net Info × A × B → Type 0
  Stands2 r = r.0.handles ≡ h

  module _ (g : Setting) where
    cook_data-Stands :
        (w : Net Info) (b : Bool) (s : List ℕ)
        → w.handles ≡ h
        → Returns Stands (cook_data Info g w b s)
    unfolding cook_data
    cook_data-Stands w false s e = e
    cook_data-Stands w true s e =
        Returns-after Stands
          (do_cook g.platform g.crc32c (g.junk w.cooked) g.ctx (g.ivs w.cooked)
            (memcpy (g.behind w.cooked) 0 s) (length s))
          _ (λ r. e)

    with_fd-Stands :
        (w : Net Info) (fd64 : ℕ) (use_fd : ℕ → Option (Net Info × Outcome))
        → w.handles ≡ h
        → ((fd : ℕ) → Returns Stands (use_fd fd))
        → Returns Stands (with_fd Info g w fd64 use_fd)
    unfolding with_fd
    with_fd-Stands w fd64 use_fd e k = elim (Bool-cases (exist Info w.handles fd64)) [
      | inl here ↦ rw (with_fd, here) (Returns-after Stands (to_fd Info w.handles fd64) _ k)
      | inr gone ↦ rw (with_fd, gone) e
    ]

    transmit-Stands :
        (w : Net Info) (t : Target) (s : List ℕ)
        → w.handles ≡ h
        → Returns Stands (transmit Info g w t s)
    unfolding transmit
    transmit-Stands w (Target.type_fd_addr fd addr) s e = e
    transmit-Stands w (Target.type_fd64_addr fd64 addr) s e = with_fd-Stands w fd64 _ e (λ fd. e)
    transmit-Stands w (Target.type_fd fd) s e = e
    transmit-Stands w (Target.type_write_fd fd) s e = e
    transmit-Stands w (Target.type_fd64 fd64) s e = with_fd-Stands w fd64 _ e (λ fd. e)
    transmit-Stands w Target.none_type s e = tt

    pub my_send-Stands :
        (w : Net Info) (d : Dest) (s : List ℕ)
        → w.handles ≡ h
        → Returns Stands (my_send Info g w d s)
    unfolding my_send
    my_send-Stands w d s e =
        Returns-bind Stands Stands (cook_data Info g w d.cook s) _ (cook_data-Stands w d.cook s e)
          (λ r e'. transmit-Stands r.0 d.target r.1 e')

    send_each-Stands :
        (w : Net Info) (d : Dest) (ss : List (List ℕ))
        → w.handles ≡ h
        → Returns (λ (w' : Net Info). w'.handles ≡ h) (send_each Info g w d ss)
    send_each-Stands w d [] e = e
    send_each-Stands w d (s ∷ ss) e =
        Returns-bind Stands (λ (w' : Net Info). w'.handles ≡ h) (my_send Info g w d s) _
          (my_send-Stands w d s e) (λ r e'. send_each-Stands r.0 d ss e')

    cook_all-Stands :
        (w : Net Info) (b : Bool) (ss : List (List ℕ))
        → w.handles ≡ h
        → Returns Stands (cook_all Info g w b ss)
    cook_all-Stands w b [] e = e
    cook_all-Stands w b (s ∷ ss) e =
        Returns-bind Stands Stands (cook_data Info g w b s) _ (cook_data-Stands w b s e) (λ r e'.
          Returns-bind Stands Stands (cook_all Info g r.0 b ss) _ (cook_all-Stands r.0 b ss e')
            (λ r' e''. e''))

    hand_each-Stands :
        (w : Net Info) (fd : ℕ) (addr : Option ℕ) (ss : List (List ℕ))
        → w.handles ≡ h
        → (hand_each Info g w fd addr ss).handles ≡ h
    hand_each-Stands w fd addr [] e = e
    hand_each-Stands w fd addr (s ∷ ss) e =
        hand_each-Stands (call Info w (hand fd addr s)) fd addr ss e

    hand_over-Stands :
        (w : Net Info) (fd : ℕ) (addr : Option ℕ) (ss : List (List ℕ))
        → w.handles ≡ h
        → Returns Stands (hand_over Info g w fd addr ss)
    unfolding hand_over
    hand_over-Stands w fd addr ss e = elim (Bool-cases g.is_linux) [
      | inl on ↦
          rw (hand_over, on)
            (Returns-after Stands (assert (leb (length ss) max_fec_packet_num)) _ (λ u. e))
      | inr off ↦ rw (hand_over, off) (hand_each-Stands w fd addr ss e)
    ]

    transmit_batch-Stands :
        (w : Net Info) (d : Dest) (ss : List (List ℕ)) (t : Target)
        → w.handles ≡ h
        → Returns Stands (transmit_batch Info g w d ss t)
    unfolding transmit_batch
    transmit_batch-Stands w d ss (Target.type_fd_addr fd addr) e =
        hand_over-Stands w fd (some addr) ss e
    transmit_batch-Stands w d ss (Target.type_fd64_addr fd64 addr) e =
        with_fd-Stands w fd64 _ e (λ fd. hand_over-Stands w fd (some addr) ss e)
    transmit_batch-Stands w d ss (Target.type_fd64 fd64) e =
        with_fd-Stands w fd64 _ e (λ fd. hand_over-Stands w fd none ss e)
    transmit_batch-Stands w d ss (Target.type_fd fd) e = hand_over-Stands w fd none ss e
    transmit_batch-Stands w d ss (Target.type_write_fd fd) e =
        Returns-bind (λ (w' : Net Info). w'.handles ≡ h) Stands (send_each Info g w d ss) _
          (send_each-Stands w d ss e) (λ w' e'. e')
    transmit_batch-Stands w d ss Target.none_type e =
        Returns-bind (λ (w' : Net Info). w'.handles ≡ h) Stands (send_each Info g w d ss) _
          (send_each-Stands w d ss e) (λ w' e'. e')

    pub my_send_batch-Stands :
        (w : Net Info) (d : Dest) (ss : List (List ℕ))
        → w.handles ≡ h
        → Returns Stands (my_send_batch Info g w d ss)
    unfolding my_send_batch
    my_send_batch-Stands w d [] e = e
    my_send_batch-Stands w d (s ∷ []) e = my_send-Stands w d s e
    my_send_batch-Stands w d (s ∷ t ∷ ss) e =
        Returns-bind Stands Stands (cook_all Info g w d.cook (s ∷ t ∷ ss)) _
          (cook_all-Stands w d.cook (s ∷ t ∷ ss) e)
          (λ r e'. transmit_batch-Stands r.0 d r.1 d.target e')
