-- ===== src/Conns.antt =====
-- conn_manager_t of connection.h and connection.cpp: the connections of the server by their addresses. An
-- address is a number. An iterator of the map is the key of its place, or `none` at the end; the places are
-- in the order of the list. What `delete` does beyond the map (the conversations of a connection that goes
-- are none, and its timer stops) has no part in the state. disable_conn_clear is 0.
pub mod Clearing
pub mod Shrinking
use udpspeeder.Base.{
  ℕ, zero, suc, ◌+◌, ◌*◌, ◌/◌, ◌%◌, ◌^◌, min, Bool, true, false, List, [], ◌∷◌, Option, none, some,
  length, ltb, leb, ◌==◌, if◌then◌else◌,
}
use udpspeeder.Dict.{Binding, find, put, erase, is_found}
use udpspeeder.Convs.{get_size, since}
use udpspeeder.Tunnel.{Conn}

abbrev pub conn_clear_ratio : ℕ
conn_clear_ratio = 50

abbrev pub conn_clear_min : ℕ
conn_clear_min = 1

abbrev pub conn_clear_interval : ℕ
conn_clear_interval = 1000

abbrev pub server_conn_timeout : ℕ
server_conn_timeout = 180000 + 20000

pub record Conns : Type 0 where
  pub mp : List (Binding Conn)
  pub clear_it : Option ℕ
  pub last_clear_time : ℕ

-- `it` is what the iterator is before it is set.
unfoldable pub no_conns : (it : Option ℕ) → Conns
no_conns it = record { mp = []; clear_it = it; last_clear_time = 0 }

unfoldable pub exist : Conns → ℕ → Bool
exist s addr = is_found (find s.mp addr)

-- The connection of an address; `fresh` is what `new conn_info_t` makes.
unfoldable pub find_insert : (fresh : Conn) → Conns → ℕ → Conns × Conn
find_insert fresh s addr = elim (find s.mp addr) [
  | none ↦ (record s { mp = put s.mp addr fresh }, fresh)
  | some c ↦ (s, c)
]

unfoldable pub erase_conn : List (Binding Conn) → ℕ → List (Binding Conn)
erase_conn mp addr = erase mp addr

-- `mp.begin()`
abbrev pub begin : List (Binding Conn) → Option ℕ
begin [] = none
begin (b ∷ m) = some b.name

-- `it++` from the place of a key.
abbrev pub next : List (Binding Conn) → ℕ → Option ℕ
next [] k = none
next (b ∷ m) k = let rest = next m k in if b.name == k then begin m else rest

-- A connection that is kept: it has conversations, or it was active within the timeout.
unfoldable pub is_kept : (now : ℕ) → Conn → Bool
is_kept now c =
    if ltb 0 (get_size c.conv_manager)
    then true
    else ltb now ((c.last_active_time + server_conn_timeout) % 2 ^ 64)

-- The place of the iterator, and the connection there; the end is the beginning again. `none` is an empty
-- map, where the loop ends.
abbrev pub at_iterator : List (Binding Conn) → Option ℕ → Option (ℕ × Conn)
at_iterator mp (some k) = elim (find mp k) [ none ↦ none | some c ↦ some (k, c) ]
at_iterator [] none = none
at_iterator (b ∷ m) none = some (b.name, b.value)

-- The loop of clear_inactive0, with the number of rounds left.
abbrev pub clear_round :
    ℕ → (now : ℕ) → List (Binding Conn) → Option ℕ → List (Binding Conn) × Option ℕ
clear_round zero now mp it = (mp, it)
clear_round (suc n) now mp it = elim (at_iterator mp it) [
  | none ↦ (mp, it)
  | some (k, c) ↦ elim (is_kept now c) [
    | true ↦ clear_round n now mp (next mp k)
    | false ↦ clear_round n now (erase_conn mp k) (next mp k)
  ]
]

abbrev pub num_to_clean : List (Binding Conn) → ℕ
num_to_clean mp = min (length mp / conn_clear_ratio + conn_clear_min) (length mp)

unfoldable pub clear_inactive0 : Conns → (now : ℕ) → Conns
clear_inactive0 s now =
    let (mp, it) = clear_round (num_to_clean s.mp) now s.mp s.clear_it in
    record s { mp = mp; clear_it = it }

unfoldable pub clear_inactive : Conns → (now : ℕ) → Conns
clear_inactive s now =
    if ltb conn_clear_interval (since now s.last_clear_time)
    then clear_inactive0 (record s { last_clear_time = now }) now
    else s
