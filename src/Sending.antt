-- ===== src/Sending.antt =====
-- my_send and my_send_batch of packet.cpp: a packet is cooked if its destination says so and handed to the
-- system. The calls of the system are kept in their order; what they return is not modelled. An address is
-- a number. `none` is a failed `assert`, or a batch larger than the arrays of my_send_batch.
pub mod Wire
pub mod Routes
pub mod Batch
pub mod Standing
use udpspeeder.Base.{
  ℕ, ◌+◌, Bool, true, false, List, [], ◌∷◌, ◌++◌, Option, none, some, length, map, leb,
  if◌then◌else◌, assert, ◌>>=◌, ◌>>◌,
}
use udpspeeder.Base.Memory.{Memory, memcpy, slice}
use udpspeeder.Blob.{max_fec_packet_num}
use udpspeeder.Cook.Xor.{Platform}
use udpspeeder.Cook.{CookCtx, do_cook}
use udpspeeder.Handles.{Handles, exist, to_fd}

-- dest_type with the member of inner_t that it stands for.
pub data Target : Type 0 where
  none_type : Target
  type_fd64_addr : (fd64 addr : ℕ) → Target
  type_fd64 : (fd64 : ℕ) → Target
  type_fd : (fd : ℕ) → Target
  type_write_fd : (fd : ℕ) → Target
  type_fd_addr : (fd addr : ℕ) → Target

pub record Dest : Type 0 where
  pub target : Target
  pub cook : Bool

pub data Call : Type 0 where
  sendto : (fd addr : ℕ) → List ℕ → Call
  send : (fd : ℕ) → List ℕ → Call
  write : (fd : ℕ) → List ℕ → Call
  sendmmsg : (fd : ℕ) → Option ℕ → List (List ℕ) → Call

-- -1 for a handle that is closed, what the last call of the system returns, or a number.
pub data Outcome : Type 0 where
  closed called : Outcome
  number : ℕ → Outcome

-- One call without sendmmsg.
abbrev pub hand : ℕ → Option ℕ → List ℕ → Call
hand fd none s = send fd s
hand fd (some addr) s = sendto fd addr s

-- What the calls of do_cook find: the settings, and for each call its random bytes, what stood on the
-- stack, and what stood behind the packet.
pub record Setting : Type 0 where
  pub is_linux : Bool
  pub platform : Platform
  pub crc32c : List ℕ → ℕ
  pub ctx : CookCtx
  pub ivs : ℕ → List ℕ
  pub junk : ℕ → Memory
  pub behind : ℕ → Memory

module _ (Info : Type 0) where
  -- `cooked` counts the calls of do_cook.
  pub record Net : Type 0 where
    pub handles : Handles Info
    pub cooked : ℕ
    pub calls : List Call

  abbrev pub call : Net → Call → Net
  call w c = record w { calls = w.calls ++ c ∷ [] }

  module _ (g : Setting) where
    -- my_send cooks the data where they stand; here they are copied first, so that what stands in the buffers of
    -- the caller is not touched.
    unfoldable pub cook_data : Net → Bool → List ℕ → Option (Net × List ℕ)
    cook_data w false s = some (w, s)
    cook_data w true s =
        do_cook g.platform g.crc32c (g.junk w.cooked) g.ctx (g.ivs w.cooked)
          (memcpy (g.behind w.cooked) 0 s) (length s)
        >>= λ (m, len). some (record w { cooked = w.cooked + 1 }, slice m 0 len)

    -- `if (!fd_manager.exist(fd64)) return -1; int fd = fd_manager.to_fd(fd64);`
    unfoldable pub with_fd : Net → ℕ → (ℕ → Option (Net × Outcome)) → Option (Net × Outcome)
    with_fd w fd64 use_fd = elim (exist Info w.handles fd64) [
      | false ↦ some (w, closed)
      | true ↦ to_fd Info w.handles fd64 >>= use_fd
    ]

    unfoldable pub transmit : Net → Target → List ℕ → Option (Net × Outcome)
    transmit w (type_fd_addr fd addr) s = some (call w (sendto fd addr s), called)
    transmit w (type_fd64_addr fd64 addr) s =
        with_fd w fd64 λ fd. some (call w (sendto fd addr s), called)
    transmit w (type_fd fd) s = some (call w (send fd s), called)
    transmit w (type_write_fd fd) s = some (call w (write fd s), called)
    transmit w (type_fd64 fd64) s = with_fd w fd64 λ fd. some (call w (send fd s), called)
    transmit w none_type s = none

    unfoldable pub my_send : Net → Dest → List ℕ → Option (Net × Outcome)
    my_send w d s = cook_data w d.cook s >>= λ (w', s'). transmit w' d.target s'

    -- `for (int i = 0; i < count; i++) my_send(dest, data_arr[i], len_arr[i]);`
    abbrev pub send_each : Net → Dest → List (List ℕ) → Option Net
    send_each w d [] = some w
    send_each w d (s ∷ ss) = my_send w d s >>= λ (w', o). send_each w' d ss

    abbrev pub cook_all : Net → Bool → List (List ℕ) → Option (Net × List (List ℕ))
    cook_all w b [] = some (w, [])
    cook_all w b (s ∷ ss) =
        cook_data w b s >>= λ (w', s'). cook_all w' b ss >>= λ (w'', ss'). some (w'', s' ∷ ss')

    abbrev pub hand_each : Net → ℕ → Option ℕ → List (List ℕ) → Net
    hand_each w fd addr [] = w
    hand_each w fd addr (s ∷ ss) = hand_each (call w (hand fd addr s)) fd addr ss

    unfoldable pub hand_over : Net → ℕ → Option ℕ → List (List ℕ) → Option (Net × Outcome)
    hand_over w fd addr ss =
        if g.is_linux
        then (do
          assert (leb (length ss) max_fec_packet_num)
          some (call w (sendmmsg fd addr ss), called))
        else some (hand_each w fd addr ss, called)

    unfoldable pub transmit_batch : Net → Dest → List (List ℕ) → Target → Option (Net × Outcome)
    transmit_batch w d ss (type_fd_addr fd addr) = hand_over w fd (some addr) ss
    transmit_batch w d ss (type_fd64_addr fd64 addr) =
        with_fd w fd64 λ fd. hand_over w fd (some addr) ss
    transmit_batch w d ss (type_fd64 fd64) = with_fd w fd64 λ fd. hand_over w fd none ss
    transmit_batch w d ss (type_fd fd) = hand_over w fd none ss
    transmit_batch w d ss (type_write_fd fd) =
        send_each w d ss >>= λ w'. some (w', number (length ss))
    transmit_batch w d ss none_type = send_each w d ss >>= λ w'. some (w', number (length ss))

    unfoldable pub my_send_batch : Net → Dest → List (List ℕ) → Option (Net × Outcome)
    my_send_batch w d [] = some (w, number 0)
    my_send_batch w d (s ∷ []) = my_send w d s
    my_send_batch w d (s ∷ t ∷ ss) =
        cook_all w d.cook (s ∷ t ∷ ss) >>= λ (w', ss'). transmit_batch w' d ss' d.target
