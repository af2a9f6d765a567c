-- ===== src/Sending/Wire.antt =====
-- What the calls of the system put on the wire.
use mathlib.Core.List.{append_assoc}
use udpspeeder.Base.{ℕ, ◌≡◌, refl, ◌∙◌, sym, ap, List, [], ◌∷◌, ◌++◌, Option, none, some, map}
use udpspeeder.Sending.{
  Target, type_fd_addr, type_fd64_addr, type_fd64, type_fd, type_write_fd, none_type, Call, sendto,
  send, write, sendmmsg, hand,
}

-- What a call of the system is to put on the wire: by their documentation sendmmsg sends each of its
-- messages as sendto or send would.
pub record Datagram : Type 0 where
  pub fd : ℕ
  pub to : Option ℕ
  pub bytes : List ℕ

abbrev pub dgrams : Call → List Datagram
dgrams (sendto fd addr s) = record { fd = fd; to = some addr; bytes = s } ∷ []
dgrams (send fd s) = record { fd = fd; to = none; bytes = s } ∷ []
dgrams (write fd s) = record { fd = fd; to = none; bytes = s } ∷ []
dgrams (sendmmsg fd addr ss) = map (λ s. record { fd = fd; to = addr; bytes = s }) ss

abbrev pub wire : List Call → List Datagram
wire [] = []
wire (c ∷ cs) = dgrams c ++ wire cs

-- A destination of my_send_batch that it does not leave to my_send.
abbrev pub IsSocket : Target → Type 0
IsSocket none_type = ⊥
IsSocket (type_write_fd fd) = ⊥
IsSocket (type_fd64_addr fd64 addr) = Unit {0}
IsSocket (type_fd64 fd64) = Unit {0}
IsSocket (type_fd fd) = Unit {0}
IsSocket (type_fd_addr fd addr) = Unit {0}

pub wire-append : (cs ds : List Call) → wire (cs ++ ds) ≡ wire cs ++ wire ds
wire-append [] ds = refl
wire-append (c ∷ cs) ds =
    ap (◌++◌ (dgrams c)) (wire-append cs ds) ∙ sym (append_assoc (dgrams c) (wire cs) (wire ds))

pub wire-hand :
    (fd : ℕ) (addr : Option ℕ) (ss : List (List ℕ))
    → wire (map (hand fd addr) ss) ≡ dgrams (sendmmsg fd addr ss)
wire-hand fd addr [] = refl
wire-hand fd none (s ∷ ss) =
    ap (◌∷◌ (record { fd = fd; to = none; bytes = s })) (wire-hand fd none ss)
wire-hand fd (some addr) (s ∷ ss) =
    ap (◌∷◌ (record { fd = fd; to = some addr; bytes = s })) (wire-hand fd (some addr) ss)
