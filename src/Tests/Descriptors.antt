-- ===== src/Tests/Descriptors.antt =====
-- Descriptor 7 gets the first handle and gives it back.
use udpspeeder.Base.{ℕ, ◌+◌, ◌≡◌, ◌≢◌, refl, false, none, some, arith}
use udpspeeder.Handles.{Handles, put, fd64_close, fd_exist, exist, to_fd}
use udpspeeder.Handles.Links.{Linked, fd64_close-Linked}

abbrev first : ℕ
first = 0xffff_ffff + 100

abbrev one_open : Handles ℕ
one_open = record {
  counter = first + 1;
  fd_to_fd64_mp = put (λ i. none) 7 first;
  fd64_to_fd_mp = put (λ i. none) first 7;
  fd_info_mp = λ i. none;
}

one_open-Linked : Linked ℕ one_open
one_open-Linked = record {
  there = λ fd h e. ground arith;
  back = λ fd h e. ground arith;
  old = λ fd h e. ground arith;
}

fd64_close-Linked_example :
    (s' : Handles ℕ) × (fd64_close ℕ one_open first ≡ some s')
    × Linked ℕ s'
    × (exist ℕ s' first ≡ false)
    × (fd_exist ℕ s' 7 ≡ false)
    × ((h' : ℕ) → h' ≢ first → to_fd ℕ s' h' ≡ to_fd ℕ one_open h')
unfolding to_fd
fd64_close-Linked_example = fd64_close-Linked ℕ one_open 7 first one_open-Linked refl
