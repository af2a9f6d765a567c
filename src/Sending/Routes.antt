-- ===== src/Sending/Routes.antt =====
-- Where the packets for a socket go: along a route that the handles decide, after they are cooked.
use mathlib.Core.List.{append_assoc, append-nil}
use udpspeeder.Base.{
  ℕ, ◌+◌, ◌≤◌, ◌≡◌, refl, ◌∙◌, sym, ap, Bool, true, false, List, [], ◌∷◌, ◌++◌, Option, none, some,
  length, map, ◌>>=◌, Bool-cases, Option-cases, inl, inr, le→leb,
}
use udpspeeder.Blob.{max_fec_packet_num}
use udpspeeder.Base.Memory.{Memory, memcpy, slice}
use udpspeeder.Cook.{do_cook}
use udpspeeder.Handles.{Handles, exist, to_fd, has}
use udpspeeder.Sending.{
  Target, type_fd_addr, type_fd64_addr, type_fd64, type_fd, type_write_fd, none_type, Dest,
  sendmmsg, Outcome, Setting, Net, call, cook_data, with_fd, transmit, cook_all, hand, hand_each,
  hand_over, transmit_batch, closed, called,
}
use udpspeeder.Sending.Wire.{dgrams, wire, IsSocket, wire-append, wire-hand}

-- Where a packet goes: nowhere, or to a descriptor and an address.
pub data Route : Type 0 where
  shut : Route
  route : ℕ → Option ℕ → Route

module _ (Info : Type 0) (g : Setting) where
  abbrev pub cooking : ℕ → List ℕ → Option (Memory × ℕ)
  cooking n s =
      do_cook g.platform g.crc32c (g.junk n) g.ctx (g.ivs n) (memcpy (g.behind n) 0 s) (length s)

  abbrev pub raw : ℕ → Bool → List ℕ → Option (ℕ × List ℕ)
  raw n false s = some (n, s)
  raw n true s = cooking n s >>= λ (m, len). some (n + 1, slice m 0 len)

  abbrev pub raws : ℕ → Bool → List (List ℕ) → Option (ℕ × List (List ℕ))
  raws n b [] = some (n, [])
  raws n b (s ∷ ss) = raw n b s >>= λ (n', s'). raws n' b ss >>= λ (n'', ss'). some (n'', s' ∷ ss')

  pub cook_data-raw :
      (w : Net Info) (b : Bool) (s : List ℕ)
      → cook_data Info g w b s
        ≡ raw w.cooked b s >>= (λ (n, s'). some (record w { cooked = n }, s'))
  unfolding cook_data
  cook_data-raw w false s = refl
  cook_data-raw w true s = elim (Option-cases (cooking w.cooked s)) [
    | inl failed ↦ rw (failed, ◌>>=◌) refl
    | inr (r, done) ↦ rw (done, ◌>>=◌) refl
  ]

  pub cook_all-raws :
      (w : Net Info) (b : Bool) (ss : List (List ℕ))
      → cook_all Info g w b ss
        ≡ raws w.cooked b ss >>= (λ (n, ss'). some (record w { cooked = n }, ss'))
  cook_all-raws w b [] = refl
  cook_all-raws w b (s ∷ ss) = elim (Option-cases (raw w.cooked b s)) [
    | inl failed ↦ rw (cook_all, cook_data-raw w b s, failed) refl
    | inr ((n, s'), done) ↦ elim (Option-cases (raws n b ss)) [
      | inl failed ↦
          rw
            (
              cook_all,
              cook_data-raw w b s,
              done,
              cook_all-raws (record w { cooked = n }) b ss,
              failed,
            )
            refl
      | inr ((n', ss'), rest) ↦
          rw
            (
              cook_all,
              cook_data-raw w b s,
              done,
              cook_all-raws (record w { cooked = n }) b ss,
              rest,
            )
            refl
    ]
  ]

  -- What is left when a route got the packets one by one.
  abbrev pub after : Net Info → Route → ℕ → List (List ℕ) → Net Info
  after w shut n ss = record w { cooked = n }
  after w (route fd addr) n ss = record w { cooked = n; calls = w.calls ++ map (hand fd addr) ss }

  hand_each-calls :
      (w : Net Info) (fd : ℕ) (addr : Option ℕ) (ss : List (List ℕ))
      → hand_each Info g w fd addr ss ≡ after w (route fd addr) w.cooked ss
  hand_each-calls w fd addr [] = rw (append-nil w.calls) refl
  hand_each-calls w fd addr (s ∷ ss) =
      hand_each-calls (call Info w (hand fd addr s)) fd addr ss
      ∙ rw (append_assoc w.calls (hand fd addr s ∷ []) (map (hand fd addr) ss)) refl

  -- Singles along a route, and a batch along it.
  pub record Along (t : Target) (w : Net Info) (r : Route) : Type 0 where
    pub one :
        (s : List ℕ)
        → (o : Outcome) × (transmit Info g w t s ≡ some (after w r w.cooked (s ∷ []), o))
    pub many :
        (d : Dest) (ss : List (List ℕ))
        → length ss ≤ 255
        → (w' : Net Info) × (o : Outcome) × (transmit_batch Info g w d ss t ≡ some (w', o))
          × (w'.cooked ≡ w.cooked)
          × (wire w'.calls ≡ wire (after w r w.cooked ss).calls)

  hand_over-wire :
      (w : Net Info) (fd : ℕ) (addr : Option ℕ) (ss : List (List ℕ))
      → length ss ≤ 255
      → (w' : Net Info) × (o : Outcome) × (hand_over Info g w fd addr ss ≡ some (w', o))
        × (w'.cooked ≡ w.cooked)
        × (wire w'.calls ≡ wire (after w (route fd addr) w.cooked ss).calls)
  unfolding hand_over
  hand_over-wire w fd addr ss few = elim (Bool-cases g.is_linux) [
    | inl linux ↦ (
      call Info w (sendmmsg fd addr ss),
      called,
      rw (linux, le→leb (length ss) max_fec_packet_num few) refl,
      refl,
      wire-append w.calls (sendmmsg fd addr ss ∷ [])
          ∙ ap (◌++◌ (wire w.calls))
              (append-nil (dgrams (sendmmsg fd addr ss)) ∙ sym (wire-hand fd addr ss))
          ∙ sym (wire-append w.calls (map (hand fd addr) ss)),
    )
    | inr other ↦ (
      hand_each Info g w fd addr ss,
      called,
      rw other refl,
      rw (hand_each-calls w fd addr ss) refl,
      rw (hand_each-calls w fd addr ss) refl,
    )
  ]

  with_fd-shut :
      (w : Net Info) (fd64 : ℕ) (k : ℕ → Option (Net Info × Outcome))
      → w.handles.fd64_to_fd_mp fd64 ≡ none
      → with_fd Info g w fd64 k ≡ some (w, closed)
  unfolding with_fd exist
  with_fd-shut w fd64 k missing = rw (with_fd, exist, missing, has) refl

  with_fd-open :
      (w : Net Info) (fd64 fd : ℕ) (k : ℕ → Option (Net Info × Outcome))
      → w.handles.fd64_to_fd_mp fd64 ≡ some fd
      → with_fd Info g w fd64 k ≡ k fd
  unfolding with_fd exist to_fd
  with_fd-open w fd64 fd k given = rw (with_fd, exist, given, has) (ap (λ o. o >>= k) given)

  -- Any destination that is a socket has a route, which the handles decide.
  pub routed :
      (t : Target) (h : Handles Info)
      → IsSocket t
      → (r : Route) × ((w : Net Info) → w.handles ≡ h → Along t w r)
  unfolding transmit transmit_batch
  routed none_type h ok = elim ok [ ]
  routed (type_write_fd fd) h ok = elim ok [ ]
  routed (type_fd fd) h ok = (
    route fd none,
    λ w same. record {
      one = λ s. (called, refl);
      many = λ d ss few. hand_over-wire w fd none ss few;
    },
  )
  routed (type_fd_addr fd addr) h ok = (
    route fd (some addr),
    λ w same. record {
      one = λ s. (called, refl);
      many = λ d ss few. hand_over-wire w fd (some addr) ss few;
    },
  )
  routed (type_fd64 fd64) h ok = elim (Option-cases (h.fd64_to_fd_mp fd64)) [
    | inl missing ↦ (
      shut,
      λ w same. record {
        one =
            λ s. (closed, with_fd-shut w fd64 _ (ap (λ h'. h'.fd64_to_fd_mp fd64) same ∙ missing));
        many = λ d ss few. (
          w,
          closed,
          with_fd-shut w fd64 _ (ap (λ h'. h'.fd64_to_fd_mp fd64) same ∙ missing),
          refl,
          refl,
        );
      },
    )
    | inr (fd, given) ↦ (
      route fd none,
      λ w same. record {
        one =
            λ s. (called, with_fd-open w fd64 fd _ (ap (λ h'. h'.fd64_to_fd_mp fd64) same ∙ given));
        many = λ d ss few.
            let (w', o, run, count, same_wire) = hand_over-wire w fd none ss few in
            (
              w',
              o,
              with_fd-open w fd64 fd _ (ap (λ h'. h'.fd64_to_fd_mp fd64) same ∙ given) ∙ run,
              count,
              same_wire,
            );
      },
    )
  ]
  routed (type_fd64_addr fd64 addr) h ok = elim (Option-cases (h.fd64_to_fd_mp fd64)) [
    | inl missing ↦ (
      shut,
      λ w same. record {
        one =
            λ s. (closed, with_fd-shut w fd64 _ (ap (λ h'. h'.fd64_to_fd_mp fd64) same ∙ missing));
        many = λ d ss few. (
          w,
          closed,
          with_fd-shut w fd64 _ (ap (λ h'. h'.fd64_to_fd_mp fd64) same ∙ missing),
          refl,
          refl,
        );
      },
    )
    | inr (fd, given) ↦ (
      route fd (some addr),
      λ w same. record {
        one =
            λ s. (called, with_fd-open w fd64 fd _ (ap (λ h'. h'.fd64_to_fd_mp fd64) same ∙ given));
        many = λ d ss few.
            let (w', o, run, count, same_wire) = hand_over-wire w fd (some addr) ss few in
            (
              w',
              o,
              with_fd-open w fd64 fd _ (ap (λ h'. h'.fd64_to_fd_mp fd64) same ∙ given) ∙ run,
              count,
              same_wire,
            );
      },
    )
  ]

  pub after-handles :
      (w : Net Info) (r : Route) (n : ℕ) (ss : List (List ℕ)) → (after w r n ss).handles ≡ w.handles
  after-handles w shut n ss = refl
  after-handles w (route fd addr) n ss = refl

  pub after-cooked :
      (w : Net Info) (r : Route) (n : ℕ) (ss : List (List ℕ)) → (after w r n ss).cooked ≡ n
  after-cooked w shut n ss = refl
  after-cooked w (route fd addr) n ss = refl

  pub after-cook :
      (w : Net Info) (r : Route) (n : ℕ) (ss : List (List ℕ))
      → after (record w { cooked = n }) r n ss ≡ after w r n ss
  after-cook w shut n ss = refl
  after-cook w (route fd addr) n ss = refl

  pub after-nil : (w : Net Info) (r : Route) → after w r w.cooked [] ≡ w
  after-nil w shut = refl
  after-nil w (route fd addr) = rw (append-nil w.calls) refl

  pub after-after :
      (w : Net Info) (r : Route) (n n' : ℕ) (s : List ℕ) (ss : List (List ℕ))
      → after (after w r n (s ∷ [])) r n' ss ≡ after w r n' (s ∷ ss)
  after-after w shut n n' s ss = refl
  after-after w (route fd addr) n n' s ss =
      rw (append_assoc w.calls (hand fd addr s ∷ []) (map (hand fd addr) ss)) refl
