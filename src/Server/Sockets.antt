-- ===== src/Server/Sockets.antt =====
-- The handles of the server: each stands for the socket of one conversation and carries the address and the
-- watcher of its connection.
use native.Mathlib.Nat.{mod-eq_of_lt}
use udpspeeder.Base.{
  ℕ, ◌+◌, ◌^◌, ◌<◌, ◌≡◌, ◌≢◌, refl, ◌∙◌, false, Option, none, some, arith, Option-cases, inl, inr,
}
use udpspeeder.Handles.{Handles, put, fd_exist, exist, to_fd, create, get_info}
use udpspeeder.Handles.Links.{Linked}
use udpspeeder.Server.{FdInfo, no_info, create_watched}

-- An open handle, with what remote_cb and server_clear_function read from it.
pub record Registered (addr : ℕ) (h : Handles FdInfo) (d : ℕ) : Type 0 where
  pub fd : ℕ
  pub is_open : to_fd FdInfo h d ≡ some fd
  pub info :
      h.fd_info_mp d
      ≡ some (record { addr = addr; io_watcher = some (record { u64 = d; conn = addr; fd = fd }) })

-- What is open stays open, with its information.
pub record Extends (h h' : Handles FdInfo) : Type 0 where
  pub same_fd : (d fd : ℕ) → to_fd FdInfo h d ≡ some fd → to_fd FdInfo h' d ≡ some fd
  pub same_info : (d fd : ℕ) → to_fd FdInfo h d ≡ some fd → h'.fd_info_mp d ≡ h.fd_info_mp d

pub Extends-refl : (h : Handles FdInfo) → Extends h h
Extends-refl h = record { same_fd = λ d fd e. e; same_info = λ d fd e. refl }

pub Extends-trans : (h h' h'' : Handles FdInfo) → Extends h h' → Extends h' h'' → Extends h h''
Extends-trans h h' h'' e f = record {
  same_fd = λ d fd p. f.same_fd d fd (e.same_fd d fd p);
  same_info = λ d fd p. f.same_info d fd (e.same_fd d fd p) ∙ e.same_info d fd p;
}

pub Extends-Registered :
    (addr : ℕ) (h h' : Handles FdInfo) (d : ℕ)
    → Extends h h'
    → Registered addr h d
    → Registered addr h' d
Extends-Registered addr h h' d e r = record {
  fd = r.fd;
  is_open = e.same_fd d r.fd r.is_open;
  info = e.same_info d r.fd r.is_open ∙ r.info;
}

abbrev info_for : (addr d fd : ℕ) → FdInfo
info_for addr d fd = record {
  addr = addr;
  io_watcher = some (record { u64 = d; conn = addr; fd = fd });
}

module _ (h : Handles FdInfo) (fd addr : ℕ) (infos : ℕ → Option FdInfo) where
  -- The handles with one more, whose information is among `infos`.
  abbrev with_one : Handles FdInfo
  with_one = record {
    counter = h.counter + 1;
    fd_to_fd64_mp = put h.fd_to_fd64_mp fd h.counter;
    fd64_to_fd_mp = put h.fd64_to_fd_mp h.counter fd;
    fd_info_mp = infos;
  }

  record Grown : Type 0 where
    linked : Linked FdInfo with_one
    fresh : to_fd FdInfo h h.counter ≡ none
    is_open : to_fd FdInfo with_one h.counter ≡ some fd
    registered : Registered addr with_one h.counter
    extends : Extends h with_one
    others : (fd' : ℕ) → fd' ≢ fd → fd_exist FdInfo with_one fd' ≡ fd_exist FdInfo h fd'

  with_one-Grown :
      Linked FdInfo h
      → fd_exist FdInfo h fd ≡ false
      → infos h.counter ≡ some (info_for addr h.counter fd)
      → ((d : ℕ) → d ≢ h.counter → infos d ≡ h.fd_info_mp d)
      → Grown
  unfolding fd_exist to_fd
  with_one-Grown l unused this rest = record {
    linked = record {
      there = λ fd' d e. ground (arith, l.there fd' d, fresh, l.old fd' d);
      back = λ fd' d e. ground (arith, l.back fd' d, free, fresh);
      old = λ fd' d e. ground (arith, l.old fd' d);
    };
    fresh = fresh;
    is_open = ground arith;
    registered = record { fd = fd; is_open = ground arith; info = this };
    extends = record {
      same_fd = λ d fd' e. ground (arith, l.old fd' d);
      same_info = λ d fd' e. ground (arith, l.old fd' d, rest d);
    };
    others = λ fd' ne. ground arith;
  }
    where
      fresh : h.fd64_to_fd_mp h.counter ≡ none
      fresh = elim (Option-cases (h.fd64_to_fd_mp h.counter)) [
        | inl missing ↦ missing
        | inr (fd', given) ↦ absurd (omega (arith, l.old fd' h.counter given))
      ]

      free : h.fd_to_fd64_mp fd ≡ none
      free = elim (Option-cases (h.fd_to_fd64_mp fd)) [
        | inl missing ↦ missing
        | inr (d, given) ↦ absurd (cc (given, unused))
      ]

-- A descriptor of the system without a handle gets one that was not in use, for the address.
pub create_watched-Registered :
    (h : Handles FdInfo) (fd addr : ℕ)
    → Linked FdInfo h
    → fd_exist FdInfo h fd ≡ false
    → h.counter + 1 < 2 ^ 64
    → (h' : Handles FdInfo) × (create_watched h fd addr ≡ some (h', h.counter))
      × Linked FdInfo h'
      × (h'.counter ≡ h.counter + 1)
      × (to_fd FdInfo h h.counter ≡ none)
      × (to_fd FdInfo h' h.counter ≡ some fd)
      × Registered addr h' h.counter
      × Extends h h'
      × ((fd' : ℕ) → fd' ≢ fd → fd_exist FdInfo h' fd' ≡ fd_exist FdInfo h fd')
unfolding create_watched create get_info fd_exist exist
create_watched-Registered h fd addr l unused room = elim (Option-cases (h.fd_info_mp h.counter)) [
  | inl missing ↦
      let infos =
        put
          (put (put h.fd_info_mp h.counter no_info) h.counter
            (record { addr = addr; io_watcher = none }))
          h.counter (info_for addr h.counter fd) in
      let w = with_one-Grown h fd addr infos l unused (ground arith) (λ d ne. ground arith) in
      (
        with_one h fd addr infos,
        ground (arith, missing, mod-eq_of_lt room),
        w.linked,
        refl,
        w.fresh,
        w.is_open,
        w.registered,
        w.extends,
        w.others,
      )
  | inr (i, stale) ↦
      let infos =
        put (put h.fd_info_mp h.counter (record i { addr = addr })) h.counter
          (info_for addr h.counter fd) in
      let w = with_one-Grown h fd addr infos l unused (ground arith) (λ d ne. ground arith) in
      (
        with_one h fd addr infos,
        ground (arith, stale, mod-eq_of_lt room),
        w.linked,
        refl,
        w.fresh,
        w.is_open,
        w.registered,
        w.extends,
        w.others,
      )
]
