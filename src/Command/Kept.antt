-- ===== src/Command/Kept.antt =====
-- Every command leaves settings that the program can run with.
use udpspeeder.Base.{
  ℕ, ◌+◌, ◌*◌, ◌≤◌, ◌<◌, ◌≡◌, refl, List, Option, some, arith, Option-cases, Bool-cases, inl, inr,
  ◌==◌, ◌>>=◌, length, lt→ltb,
}
use udpspeeder.Text.{ℤ, after}
use udpspeeder.Param.{FecParameter}
use udpspeeder.Param.Laws.{IsTable}
use udpspeeder.Param.Str.{rs_from_str}
use udpspeeder.Command.Parsed.{SumsFit, rs_from_str-Parsed, copy_fec-copied}
use udpspeeder.Command.{
  Settings, Reply, ok, fail, in_range, scan_value, set_value, set_fec, set_mode, set_timeout,
  handle_command, strip, word, rs_str_len, fec, mtu, queue_len, mode, timeout,
}

-- The text of the table can be parsed again, and the values are those that the commands allow.
pub record IsSettings (x : Settings) : Type 0 where
  pub table : IsTable 255 x.g_fec_par
  pub parses :
      (par : FecParameter) → (par' : FecParameter) × (rs_from_str par x.rs_par_str ≡ some par')
  pub sums : SumsFit x.rs_par_str
  pub mtu_low : 100 ≤ x.g_fec_par.mtu
  pub mtu_high : x.g_fec_par.mtu ≤ 2000
  pub queue_low : 1 ≤ x.g_fec_par.queue_len
  pub queue_high : x.g_fec_par.queue_len ≤ 10000
  pub mode_high : x.g_fec_par.mode ≤ 1
  pub timeout_high : x.g_fec_par.timeout ≤ 1000 * 1000

-- The word of a line `fec` has room in tmp_str, and the pairs in it have sums that are an `int`.
abbrev pub Sound : (was line : List ℕ) → Type 0
Sound was line =
    (r : List ℕ)
    → after fec (strip line) ≡ some r
    → (length (word was r) < 2650) × SumsFit (word was r)

-- What a command may do.
abbrev Answered : Settings → Option (Settings × Reply) → Type 0
Answered x r =
    (x' : Settings) × (a : Reply) × (r ≡ some (x', a)) × IsSettings x' × (a ≡ fail → x' ≡ x)

unchanged : (x : Settings) (a : Reply) → IsSettings x → Answered x (some (x, a))
unchanged x a h = (x, a, refl, h, λ e. refl)

in_range-bounds : (lo hi : ℕ) (v : ℤ) (a : ℕ) → in_range lo hi v ≡ some a → (lo ≤ a) × (a ≤ hi)
unfolding in_range
in_range-bounds lo hi (ℤ.pos n) a h = ground arith
in_range-bounds lo hi (ℤ.negsuc n) a h = cc

-- A value in the range is set by a change that keeps the settings good.
set_value-Answered :
    (x : Settings) (lo hi : ℕ) (v : ℤ) (change : ℕ → FecParameter)
    → IsSettings x
    → ((a : ℕ) → lo ≤ a → a ≤ hi → IsSettings (record x { g_fec_par = change a }))
    → Answered x (set_value x (in_range lo hi v) change)
set_value-Answered x lo hi v change h good = elim (Option-cases (in_range lo hi v)) [
  | inl out ↦ rw (set_value, out) (unchanged x fail h)
  | inr (a, within) ↦
      let (low, high) = in_range-bounds lo hi v a within in
      rw (set_value, within) (record x { g_fec_par = change a }, ok, refl, good a low high, λ e. cc)
]

set_fec-Answered :
    (fresh : FecParameter) (was : List ℕ) (x : Settings) (s : List ℕ)
    → length (word was s) < 2650
    → SumsFit (word was s)
    → IsSettings x
    → Answered x (set_fec fresh was x s)
unfolding set_fec
set_fec-Answered fresh was x s fits sums h =
    let str = word was s in
    let room = lt→ltb (length str) rs_str_len fits in
    elim (Option-cases (rs_from_str fresh str)) [
      | inl bad ↦ rw (set_fec, room, ◌>>=◌, bad) (unchanged x fail h)
      | inr (tmp, read) ↦
          let p = rs_from_str-Parsed fresh tmp str sums read in
          let (g, copied, table, fields) = copy_fec-copied x.g_fec_par tmp p.table in
          (
            record { g_fec_par = record g { version = x.g_fec_par.version + 1 }; rs_par_str = str },
            ok,
            rw (set_fec, room, ◌>>=◌, read, copied) refl,
            record {
              table = record { not_empty = table.not_empty; rows = table.rows };
              parses = p.others;
              sums = sums;
              mtu_low = rw fields h.mtu_low;
              mtu_high = rw fields h.mtu_high;
              queue_low = rw fields h.queue_low;
              queue_high = rw fields h.queue_high;
              mode_high = rw fields h.mode_high;
              timeout_high = rw fields h.timeout_high;
            },
            λ e. cc,
          )
    ]

set_mode-Answered : (x : Settings) (v : ℤ) → IsSettings x → Answered x (set_mode x (in_range 0 1 v))
unfolding set_mode
set_mode-Answered x v h = elim (Option-cases (in_range 0 1 v)) [
  | inl out ↦ rw (set_mode, out) (unchanged x fail h)
  | inr (a, within) ↦ elim (Bool-cases (x.g_fec_par.mode == a)) [
    | inl same ↦ rw (within, set_mode, same) (unchanged x ok h)
    | inr other ↦
        let (low, high) = in_range-bounds 0 1 v a within in
        let par : FecParameter = record x.g_fec_par { mode = a } in
        let (g, read) = h.parses par in
        let p = rs_from_str-Parsed par g x.rs_par_str h.sums read in
        (
          record x { g_fec_par = record g { version = g.version + 1 } },
          ok,
          rw (within, set_mode, other, read, ◌>>=◌) refl,
          record {
            table = record { not_empty = p.table.not_empty; rows = p.table.rows };
            parses = h.parses;
            sums = h.sums;
            mtu_low = rw p.fields h.mtu_low;
            mtu_high = rw p.fields h.mtu_high;
            queue_low = rw p.fields h.queue_low;
            queue_high = rw p.fields h.queue_high;
            mode_high = rw p.fields high;
            timeout_high = rw p.fields h.timeout_high;
          },
          λ e. cc,
        )
  ]
]

-- Only numbers of the parameters change.
changed :
    (x : Settings) (p : FecParameter)
    → IsSettings x
    → p.rs_cnt ≡ x.g_fec_par.rs_cnt
    → p.rs_par ≡ x.g_fec_par.rs_par
    → (100 ≤ p.mtu)
      × (p.mtu ≤ 2000)
      × (1 ≤ p.queue_len)
      × (p.queue_len ≤ 10000)
      × (p.mode ≤ 1)
      × (p.timeout ≤ 1000 * 1000)
    → IsSettings (record x { g_fec_par = p })
changed x p h cnt par (a, b, c, d, e, f) = record {
  table = record {
    not_empty = omega (arith, cnt, h.table.not_empty);
    rows = λ i b. rw par (h.table.rows i (omega (arith, cnt, b)));
  };
  parses = h.parses;
  sums = h.sums;
  mtu_low = a;
  mtu_high = b;
  queue_low = c;
  queue_high = d;
  mode_high = e;
  timeout_high = f;
}

set_timeout-Answered : (x : Settings) (s : List ℕ) → IsSettings x → Answered x (set_timeout x s)
unfolding set_timeout
set_timeout-Answered x s h = elim (Option-cases (after timeout s)) [
  | inl unknown ↦ rw (set_timeout, unknown) (unchanged x ok h)
  | inr (r, e) ↦
      rw (set_timeout, e)
        (set_value-Answered x 0 1000 (scan_value r) (λ a. record x.g_fec_par { timeout = a * 1000 })
          h
          (λ a low high.
            changed x (record x.g_fec_par { timeout = a * 1000 }) h refl refl
              (omega (arith, low, high))))
]

-- From settings that the program can run with, each line is answered, with no failed `assert`, if a word
-- behind `fec` has room in tmp_str and the sums of its pairs are an `int`: what it leaves are such settings
-- again, whose table is good and whose text can be parsed; a line that is refused changes nothing.
pub handle_command-IsSettings :
    (fresh : FecParameter) (was : List ℕ) (x : Settings) (line : List ℕ)
    → Sound was line
    → IsSettings x
    → (x' : Settings) × (a : Reply) × (handle_command fresh was x line ≡ some (x', a))
      × IsSettings x'
      × (a ≡ fail → x' ≡ x)
unfolding handle_command
handle_command-IsSettings fresh was x line sound h = elim (Option-cases (after fec s)) [
  | inr (r, e) ↦
      rw (handle_command, e) (set_fec-Answered fresh was x r (sound r e).0 (sound r e).1 h)
  | inl no_fec ↦ elim (Option-cases (after mtu s)) [
    | inr (r, e) ↦
        rw (handle_command, no_fec, e)
          (set_value-Answered x 100 2000 (scan_value r) (λ a. record x.g_fec_par { mtu = a }) h
            (λ a low high.
              changed x (record x.g_fec_par { mtu = a }) h refl refl (omega (arith, low, high))))
    | inl no_mtu ↦ elim (Option-cases (after queue_len s)) [
      | inr (r, e) ↦
          rw (handle_command, no_fec, no_mtu, e)
            (set_value-Answered x 1 10000 (scan_value r) (λ a. record x.g_fec_par { queue_len = a })
              h
              (λ a low high.
                changed x (record x.g_fec_par { queue_len = a }) h refl refl
                  (omega (arith, low, high))))
      | inl no_queue ↦ elim (Option-cases (after mode s)) [
        | inr (r, e) ↦
            rw (handle_command, no_fec, no_mtu, no_queue, e) (set_mode-Answered x (scan_value r) h)
        | inl no_mode ↦
            rw (handle_command, no_fec, no_mtu, no_queue, no_mode) (set_timeout-Answered x s h)
      ]
    ]
  ]
]
  where
    s : List ℕ
    s = strip line
