-- ===== src/Handles/Links.antt =====
-- The two maps of the handles are inverse, and no handle is given twice.
use native.Mathlib.Nat.{mod-eq_of_lt}
use udpspeeder.Base.{ℕ, ◌+◌, ◌^◌, ◌<◌, ◌≡◌, ◌≢◌, false, none, some, arith, Option-cases, inl, inr}
use udpspeeder.Handles.{Handles, put, erase, fd_exist, exist, to_fd, create, fd64_close, empty}

module _ (Info : Type 0) where
  pub record Linked (s : Handles Info) : Type 0 where
    pub there : (fd h : ℕ) → s.fd_to_fd64_mp fd ≡ some h → s.fd64_to_fd_mp h ≡ some fd
    pub back : (fd h : ℕ) → s.fd64_to_fd_mp h ≡ some fd → s.fd_to_fd64_mp fd ≡ some h
    pub old : (fd h : ℕ) → s.fd64_to_fd_mp h ≡ some fd → h < s.counter

  pub empty-Linked : Linked (empty Info)
  unfolding empty
  empty-Linked = record { there = λ fd h e. cc; back = λ fd h e. cc; old = λ fd h e. cc }

  -- Where the two maps are inverse and hold handles below the counter, and the counter does not pass 64
  -- bits, a descriptor without a handle gets one that was not in use; the other handles stay, and the
  -- maps stay inverse with all handles below the counter.
  pub create-Linked :
      (s : Handles Info) (fd : ℕ)
      → Linked s
      → fd_exist Info s fd ≡ false
      → s.counter + 1 < 2 ^ 64
      → (s' : Handles Info) × (create Info s fd ≡ some (s', s.counter))
        × Linked s'
        × (exist Info s s.counter ≡ false)
        × (to_fd Info s' s.counter ≡ some fd)
        × ((h : ℕ) → h ≢ s.counter → to_fd Info s' h ≡ to_fd Info s h)
  unfolding create fd_exist exist to_fd
  create-Linked s fd l unused room = (
    record s {
      counter = s.counter + 1;
      fd_to_fd64_mp = put s.fd_to_fd64_mp fd s.counter;
      fd64_to_fd_mp = put s.fd64_to_fd_mp s.counter fd;
    },
    ground (arith, free, mod-eq_of_lt room),
    record {
      there = λ fd' h e. ground (arith, l.there fd' h, fresh, l.old fd' h);
      back = λ fd' h e. ground (arith, l.back fd' h, free, fresh);
      old = λ fd' h e. ground (arith, l.old fd' h);
    },
    ground (arith, fresh),
    ground arith,
    λ h ne. ground arith,
  )
    where
      fresh : s.fd64_to_fd_mp s.counter ≡ none
      fresh = elim (Option-cases (s.fd64_to_fd_mp s.counter)) [
        | inl missing ↦ missing
        | inr (fd', given) ↦ absurd (omega (arith, l.old fd' s.counter given))
      ]

      free : s.fd_to_fd64_mp fd ≡ none
      free = elim (Option-cases (s.fd_to_fd64_mp fd)) [
        | inl missing ↦ missing
        | inr (h, given) ↦ absurd (cc (given, unused))
      ]

  -- Where the two maps are inverse, an open handle that is closed is gone with its descriptor; the other
  -- handles stay, and so does the relation of the maps.
  pub fd64_close-Linked :
      (s : Handles Info) (fd h : ℕ)
      → Linked s
      → to_fd Info s h ≡ some fd
      → (s' : Handles Info) × (fd64_close Info s h ≡ some s')
        × Linked s'
        × (exist Info s' h ≡ false)
        × (fd_exist Info s' fd ≡ false)
        × ((h' : ℕ) → h' ≢ h → to_fd Info s' h' ≡ to_fd Info s h')
  unfolding fd64_close fd_exist exist to_fd
  fd64_close-Linked s fd h l open_handle = (
    record s {
      fd_to_fd64_mp = erase s.fd_to_fd64_mp fd;
      fd64_to_fd_mp = erase s.fd64_to_fd_mp h;
      fd_info_mp = erase s.fd_info_mp h;
    },
    ground arith,
    record {
      there = λ fd' h' e. ground (arith, l.there fd' h', l.back fd h, l.there fd h);
      back = λ fd' h' e. ground (arith, l.back fd' h', l.back fd h, l.there fd h);
      old = λ fd' h' e. ground (arith, l.old fd' h');
    },
    ground arith,
    ground arith,
    λ h' ne. ground arith,
  )
