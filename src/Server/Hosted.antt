-- ===== src/Server/Hosted.antt =====
-- The server as a whole: the connections by their addresses, with the handles that they share.
use udpspeeder.Base.{
  ℕ, ◌≤◌, ◌≡◌, ◌≢◌, refl, ◌∙◌, sym, List, [], ◌∷◌, some, length, ◌==◌, All, arith, Bool-cases, inl,
  inr,
}
use udpspeeder.Lru.Order.{All-later}
use udpspeeder.Dict.{Binding, find}
use udpspeeder.Handles.{Handles}
use udpspeeder.Handles.Links.{Linked}
use udpspeeder.Tunnel.{Conn}
use udpspeeder.Server.{FdInfo, write_back, max_conn_num}
use udpspeeder.Server.Sockets.{Extends, Extends-refl}
use udpspeeder.Server.Table.{Served, Extends-Served}

-- A connection under its address, with no use noted after `now`.
pub record Host (now : ℕ) (h : Handles FdInfo) (a : ℕ) (c : Conn) : Type 0 where
  pub named : c.addr ≡ a
  pub served : Served a h c.conv_manager
  pub early : All (λ e. e.ts ≤ now) c.conv_manager.lru

-- All connections, no more than max_conn_num of them.
pub record Hosting (now : ℕ) (h : Handles FdInfo) (mp : List (Binding Conn)) : Type 0 where
  pub linked : Linked FdInfo h
  pub hosts : (a : ℕ) (c : Conn) → find mp a ≡ some c → Host now h a c
  pub few : length mp ≤ max_conn_num

pub Host-later :
    (now later : ℕ) (h h' : Handles FdInfo) (a : ℕ) (c : Conn)
    → now ≤ later
    → Extends h h'
    → Host now h a c
    → Host later h' a c
Host-later now later h h' a c steady e r = record {
  named = r.named;
  served = Extends-Served a h h' c.conv_manager e r.served;
  early = All-later now later c.conv_manager.lru steady r.early;
}

pub Hosting-later :
    (now later : ℕ) (h : Handles FdInfo) (mp : List (Binding Conn))
    → now ≤ later
    → Hosting now h mp
    → Hosting later h mp
Hosting-later now later h mp le x = record {
  linked = x.linked;
  hosts = λ a c e. Host-later now later h h a c le (Extends-refl h) (x.hosts a c e);
  few = x.few;
}

pub find-write_back_other :
    (m : List (Binding Conn)) (a k : ℕ) (c : Conn) → k ≢ a → find (write_back m a c) k ≡ find m k
find-write_back_other [] a k c ne = refl
find-write_back_other (b ∷ m) a k c ne = ground (arith, find-write_back_other m a k c ne)

pub find-write_back_self :
    (m : List (Binding Conn)) (a : ℕ) (c c' : Conn)
    → find m a ≡ some c'
    → find (write_back m a c) a ≡ some c
find-write_back_self [] a c c' h = cc
find-write_back_self (b ∷ m) a c c' h = ground (arith, find-write_back_self m a c c')

pub length-write_back :
    (m : List (Binding Conn)) (a : ℕ) (c : Conn) → length (write_back m a c) ≡ length m
length-write_back [] a c = refl
length-write_back (b ∷ m) a c = ground (arith, length-write_back m a c)

-- One connection is written back, and the others are hosted still.
pub write_back-Hosting :
    (now later : ℕ) (h h' : Handles FdInfo) (mp : List (Binding Conn)) (a : ℕ) (c c' : Conn)
    → ((k : ℕ) (d : Conn) → k ≢ a → Host now h k d → Host later h' k d)
    → Linked FdInfo h'
    → Hosting now h mp
    → find mp a ≡ some c
    → Host later h' a c'
    → Hosting later h' (write_back mp a c')
write_back-Hosting now later h h' mp a c c' still linked x given host = record {
  linked = linked;
  hosts = λ k d found. elim (Bool-cases (k == a)) [
    | inl hit ↦
        let here : k ≡ a = ground (arith, hit) in
        let same : d ≡ c' = cc (found, here, find-write_back_self mp a c' c given) in
        rw (here, same) host
    | inr miss ↦
        let ne : k ≢ a = ground (arith, miss) in
        still k d ne (x.hosts k d (sym (find-write_back_other mp a k c' ne) ∙ found))
  ];
  few = rw (length-write_back mp a c') x.few;
}
