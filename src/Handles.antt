-- ===== src/Handles.antt =====
-- fd_manager_t of fd_manager.h and fd_manager.cpp: a descriptor of the system under a number of 64 bits
-- that is not used again when the descriptor is. A map is a function to options; `none` as a result is a
-- failed `assert`. The call of `sock_close` has no part in the state.
pub mod Links
use udpspeeder.Base.{
  ℕ, ◌+◌, ◌%◌, ◌^◌, Bool, true, false, not, Option, none, some, ◌==◌, if◌then◌else◌, assert, ◌>>=◌,
  ◌>>◌,
}

abbrev pub put {ℓ} : {V : Type ℓ} → (ℕ → Option V) → ℕ → V → ℕ → Option V
put m k v i = if i == k then some v else m i

abbrev pub erase {ℓ} : {V : Type ℓ} → (ℕ → Option V) → ℕ → ℕ → Option V
erase m k i = if i == k then none else m i

abbrev pub has {ℓ} : {V : Type ℓ} → Option V → Bool
has none = false
has (some v) = true

-- `Info` stands for fd_info_t, whose default is made where a handle has none.
module _ (Info : Type 0) where
  pub record Handles : Type 0 where
    pub counter : ℕ
    pub fd_to_fd64_mp : ℕ → Option ℕ
    pub fd64_to_fd_mp : ℕ → Option ℕ
    pub fd_info_mp : ℕ → Option Info

  -- `counter = u32_t(-1); counter += 100;`
  unfoldable pub empty : Handles
  empty = record {
    counter = 0xffff_ffff + 100;
    fd_to_fd64_mp = λ i. none;
    fd64_to_fd_mp = λ i. none;
    fd_info_mp = λ i. none;
  }

  unfoldable pub fd_exist : Handles → ℕ → Bool
  fd_exist s fd = has (s.fd_to_fd64_mp fd)

  unfoldable pub exist : Handles → ℕ → Bool
  exist s fd64 = has (s.fd64_to_fd_mp fd64)

  unfoldable pub exist_info : Handles → ℕ → Bool
  exist_info s fd64 = has (s.fd_info_mp fd64)

  unfoldable pub to_fd : Handles → ℕ → Option ℕ
  to_fd s fd64 = s.fd64_to_fd_mp fd64

  unfoldable pub create : Handles → ℕ → Option (Handles × ℕ)
  create s fd = do
    assert (not (fd_exist s fd))
    let fd64 = s.counter
    some (
      record s {
        counter = (s.counter + 1) % 2 ^ 64;
        fd_to_fd64_mp = put s.fd_to_fd64_mp fd fd64;
        fd64_to_fd_mp = put s.fd64_to_fd_mp fd64 fd;
      },
      fd64,
    )

  unfoldable pub fd64_close : Handles → ℕ → Option Handles
  fd64_close s fd64 = do
    fd ← to_fd s fd64
    some (record s {
      fd_to_fd64_mp = erase s.fd_to_fd64_mp fd;
      fd64_to_fd_mp = erase s.fd64_to_fd_mp fd64;
      fd_info_mp = erase s.fd_info_mp fd64;
    })

  -- The reference is to the value in the map, which is put there if it is missing.
  unfoldable pub get_info : Info → Handles → ℕ → Option (Handles × Info)
  get_info default s fd64 = do
    assert (exist s fd64)
    elim (s.fd_info_mp fd64) [
      | none ↦ some (record s { fd_info_mp = put s.fd_info_mp fd64 default }, default)
      | some info ↦ some (s, info)
    ]
