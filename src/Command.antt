-- ===== src/Command.antt =====
-- handle_command of misc.cpp: the settings that a line from the fifo changes while the program runs. Of the
-- text of a table in rs_par_str and the parameters it makes, the parameters are those that new groups use.
pub mod Parsed
pub mod Kept
pub mod Waits
use udpspeeder.Base.{
  ℕ, suc, ◌+◌, ◌*◌, List, [], ◌∷◌, Option, none, some, ltb, leb, ◌==◌, ◌||◌, length, assert,
  if◌then◌else◌, ◌>>=◌,
}
use udpspeeder.Blob.{max_fec_packet_num}
use udpspeeder.Text.{ℤ, after, scan_int, scan_word}
use udpspeeder.Param.{FecParameter, copy_fec}
use udpspeeder.Param.Str.{rs_from_str}

-- g_fec_par and rs_par_str.
pub record Settings : Type 0 where
  pub g_fec_par : FecParameter
  pub rs_par_str : List ℕ

-- The values that handle_command returns: 0 and -1.
pub data Reply : Type 0 where
  ok fail : Reply

-- `while (len >= 1 && s[len - 1] == '\n') s[len - 1] = 0;`, where `len` stays.
unfoldable pub strip : List ℕ → List ℕ
strip [] = []
strip (c ∷ []) = if c == 10 then [] else c ∷ []
strip (c ∷ d ∷ s) = c ∷ strip (d ∷ s)

-- The number behind the word, or -1.
unfoldable pub scan_value : List ℕ → ℤ
scan_value s = elim (scan_int s) [ none ↦ ℤ.negsuc 0 | some (a, rest) ↦ a ]

-- A value that the command allows.
unfoldable pub in_range : (lo hi : ℕ) → ℤ → Option ℕ
in_range lo hi (ℤ.pos a) = if ltb a lo || ltb hi a then none else some a
in_range lo hi (ℤ.negsuc a) = none

abbrev pub set_value : Settings → Option ℕ → (ℕ → FecParameter) → Option (Settings × Reply)
set_value x none change = some (x, fail)
set_value x (some a) change = some (record x { g_fec_par = change a }, ok)

-- tmp_str after `sscanf(s, "fec %s", tmp_str)`, before which it was `was`.
abbrev pub word : (was : List ℕ) → List ℕ → List ℕ
word was s = elim (scan_word s) [ none ↦ was | some w ↦ w ]

abbrev pub rs_str_len : ℕ
rs_str_len = max_fec_packet_num * 10 + 100

-- `fresh` is tmp_par before it is written. A word with no room in tmp_str is written behind it, which C leaves
-- open: that is `none` here.
unfoldable pub set_fec :
    (fresh : FecParameter) (was : List ℕ) → Settings → List ℕ → Option (Settings × Reply)
set_fec fresh was x s =
    let tmp_str = word was s in
    assert (ltb (length tmp_str) rs_str_len) >>= λ u. elim (rs_from_str fresh tmp_str) [
      | none ↦ some (x, fail)
      | some tmp_par ↦ copy_fec x.g_fec_par tmp_par >>= λ g. some (
        record { g_fec_par = record g { version = x.g_fec_par.version + 1 }; rs_par_str = tmp_str },
        ok,
      )
    ]

unfoldable pub set_mode : Settings → Option ℕ → Option (Settings × Reply)
set_mode x none = some (x, fail)
set_mode x (some a) =
    if x.g_fec_par.mode == a
    then some (x, ok)
    else (rs_from_str (record x.g_fec_par { mode = a }) x.rs_par_str >>= λ g.
        some (record x { g_fec_par = record g { version = g.version + 1 } }, ok))

abbrev pub fec : List ℕ
fec = b'f' ∷ b'e' ∷ b'c' ∷ []

abbrev pub mtu : List ℕ
mtu = b'm' ∷ b't' ∷ b'u' ∷ []

abbrev pub queue_len : List ℕ
queue_len = b'q' ∷ b'u' ∷ b'e' ∷ b'u' ∷ b'e' ∷ b'-' ∷ b'l' ∷ b'e' ∷ b'n' ∷ []

abbrev pub mode : List ℕ
mode = b'm' ∷ b'o' ∷ b'd' ∷ b'e' ∷ []

abbrev pub timeout : List ℕ
timeout = b't' ∷ b'i' ∷ b'm' ∷ b'e' ∷ b'o' ∷ b'u' ∷ b't' ∷ []

unfoldable pub set_timeout : Settings → List ℕ → Option (Settings × Reply)
set_timeout x s = elim (after timeout s) [
  | some r ↦
      set_value x (in_range 0 1000 (scan_value r)) (λ a. record x.g_fec_par { timeout = a * 1000 })
  | none ↦ some (x, ok)
]

-- `none` is a failed `assert`, or the writing behind tmp_str.
unfoldable pub handle_command :
    (fresh : FecParameter) (was : List ℕ) → Settings → List ℕ → Option (Settings × Reply)
handle_command fresh was x line =
    let s = strip line in
    elim (after fec s) [
      | some r ↦ set_fec fresh was x r
      | none ↦ elim (after mtu s) [
        | some r ↦
            set_value x (in_range 100 2000 (scan_value r)) (λ a. record x.g_fec_par { mtu = a })
        | none ↦ elim (after queue_len s) [
          | some r ↦
              set_value x (in_range 1 10000 (scan_value r))
                (λ a. record x.g_fec_par { queue_len = a })
          | none ↦ elim (after mode s) [
            | some r ↦ set_mode x (in_range 0 1 (scan_value r))
            | none ↦ set_timeout x s
          ]
        ]
      ]
    ]
