-- ===== src/Server/Admission.antt =====
-- How the server comes to the connection of an address: the one that is there, or a new one.
use udpspeeder.Base.{
  ℕ, ◌<◌, ◌≡◌, ◌≢◌, refl, ◌∙◌, sym, false, List, [], none, some, ◌⊎◌, length, leb, ◌==◌, arith,
  Bool-cases, Option-cases, inl, inr,
}
use udpspeeder.Dict.{Binding, find, put}
use udpspeeder.Dict.Laws.{erase-absent, find-put_self, find-put_other}
use udpspeeder.Handles.{Handles}
use udpspeeder.Convs.{get_size}
use udpspeeder.Conns.{Conns, exist, find_insert}
use udpspeeder.Tunnel.{Conn}
use udpspeeder.Server.{FdInfo, write_back, accept, new_conn, max_conn_num}
use udpspeeder.Server.Table.{Shows, shown, shown-Shows}
use udpspeeder.Server.Hosted.{
  Host, Hosting, find-write_back_self, find-write_back_other, length-write_back,
}

-- The connection of an address, the one that is there or a new one.
abbrev pub arriving : (was : Conn) (local_listen_fd : ℕ) → Conns → ℕ → Conn
arriving was fd cs addr = elim (find cs.mp addr) [
  | none ↦ record (new_conn was) { addr = addr; local_listen_fd = fd }
  | some c ↦ c
]

-- The table of sockets of an address: that of its connection, or an empty one where there is room for a
-- connection.
abbrev pub Admitted : Conns → Handles FdInfo → ℕ → List (Binding ℕ) → Type 0
Admitted cs h addr known =
    ((c : Conn) × (find cs.mp addr ≡ some c) × Shows c.conv_manager h known)
    ⊎ ((find cs.mp addr ≡ none) × (length cs.mp < max_conn_num) × (known ≡ []))

new_conn-Host :
    (now : ℕ) (h : Handles FdInfo) (was : Conn) (a fd : ℕ)
    → Host now h a (record (new_conn was) { addr = a; local_listen_fd = fd })
      × Shows (new_conn was).conv_manager h []
unfolding new_conn get_size
new_conn-Host now h was a fd = (
  record {
    named = refl;
    served = record {
      kept = record {
        there = λ d c e. cc;
        back = λ d c e. cc;
        timed = λ c. refl;
        ordered = tt;
        word = λ c d e. cc;
      };
      notifies = refl;
      settled = refl;
      bound = λ c d e. cc;
    };
    early = tt;
  },
  record { sockets = λ c. refl; size = refl },
)

-- What `accept` leaves of an address that is admitted.
pub record Accepted (now : ℕ) (h : Handles FdInfo) (was : Conn) (fd a : ℕ)
    (known : List (Binding ℕ)) (cs cs' : Conns) : Type 0 where
  pub here : find cs'.mp a ≡ some (arriving was fd cs a)
  pub hosting : Hosting now h cs'.mp
  pub shows : Shows (arriving was fd cs a).conv_manager h known
  pub others : (k : ℕ) → k ≢ a → find cs'.mp k ≡ find cs.mp k

pub accept-Accepted :
    (now : ℕ) (h : Handles FdInfo) (was : Conn) (fd a : ℕ) (known : List (Binding ℕ)) (cs : Conns)
    → Hosting now h cs.mp
    → Admitted cs h a known
    → (cs' : Conns) × (accept was fd cs a ≡ some cs') × Accepted now h was fd a known cs cs'
unfolding accept exist find_insert
accept-Accepted now h was fd a known cs x (inl (c, given, shows)) = (
  cs,
  rw (accept, exist, given) refl,
  record {
    here = rw (arriving, given) refl;
    hosting = x;
    shows = rw (arriving, given) shows;
    others = λ k ne. refl;
  },
)
accept-Accepted now h was fd a known cs x (inr (missing, room, none_known)) =
    let (host, shows) = new_conn-Host now h was a fd in
    let few : leb max_conn_num (length cs.mp) ≡ false = ground (arith, room) in
    let fresh = new_conn was in
    let c : Conn = record fresh { addr = a; local_listen_fd = fd } in
    let mp = write_back (put cs.mp a fresh) a c in
    let here : find mp a ≡ some c =
      find-write_back_self (put cs.mp a fresh) a c fresh (find-put_self cs.mp a fresh) in
    let rest : (k : ℕ) → k ≢ a → find mp k ≡ find cs.mp k = λ k ne.
      find-write_back_other (put cs.mp a fresh) a k c ne ∙ find-put_other cs.mp a k fresh ne in
    (
      record cs { mp = mp },
      rw (accept, exist, missing, few, find_insert) refl,
      record {
        here = rw (arriving, missing) here;
        hosting = record {
          linked = x.linked;
          hosts = λ k d found. elim (Bool-cases (k == a)) [
            | inl hit ↦
                let at : k ≡ a = ground (arith, hit) in
                let same : d ≡ c = cc (found, at, here) in rw (at, same) host
            | inr miss ↦
                let ne : k ≢ a = ground (arith, miss) in x.hosts k d (sym (rest k ne) ∙ found)
          ];
          few =
              rw (length-write_back (put cs.mp a fresh) a c, erase-absent cs.mp a missing)
                (omega (arith, room));
        };
        shows = rw (arriving, missing, none_known) shows;
        others = rest;
      },
    )

-- An address whose packet is not ignored is admitted, with the sockets of its connection.
pub accept-Admitted :
    (now : ℕ) (h : Handles FdInfo) (was : Conn) (fd a : ℕ) (cs cs' : Conns)
    → Hosting now h cs.mp
    → accept was fd cs a ≡ some cs'
    → (known : List (Binding ℕ)) × Admitted cs h a known
unfolding accept exist
accept-Admitted now h was fd a cs cs' x run = elim (Option-cases (find cs.mp a)) [
  | inr (c, given) ↦ (
    shown h c.conv_manager.conv_to_data,
    inl (c, given, shown-Shows a h c.conv_manager (x.hosts a c given).served),
  )
  | inl missing ↦ elim (Bool-cases (leb max_conn_num (length cs.mp))) [
    | inl full ↦ absurd (cc (rw (exist, missing, full) at run))
    | inr room ↦ ([], inr (missing, ground (arith, room), refl))
  ]
]
