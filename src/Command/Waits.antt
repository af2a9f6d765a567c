-- ===== src/Command/Waits.antt =====
-- The commands that set one number leave the version of the parameters, by which an encoder sees a change.
use udpspeeder.Base.{
  ℕ, ◌*◌, ◌≡◌, ◌≢◌, refl, ◌∙◌, ap, List, [], ◌∷◌, Option, none, some, true, false, ◌==◌, ◌⊎◌, arith,
  Bool-cases, inl, inr,
}
use udpspeeder.Text.{after}
use udpspeeder.Rs.{Codec}
use udpspeeder.Param.{FecParameter}
use udpspeeder.Encoder.Flush.{Encoder}
use udpspeeder.Encoder.{input}
use udpspeeder.Command.{
  Settings, Reply, in_range, scan_value, set_value, set_timeout, handle_command, strip, fec, mtu,
  queue_len, mode, timeout,
}

-- No text begins with two words that differ in their first characters.
after-one :
    (c d : ℕ) (w w' s r : List ℕ) → c ≢ d → after (c ∷ w) s ≡ some r → after (d ∷ w') s ≡ none
after-one c d w w' [] r ne h = cc
after-one c d w w' (k ∷ s) r ne h = elim (Bool-cases (k == d)) [
  | inr off ↦ rw off refl
  | inl on ↦
      let same : k ≡ d = ground (arith, on) in
      let miss : (k == c) ≡ false = ground (arith, same, ne) in absurd (cc (rw miss at h))
]

abbrev SameVersion : Settings → Option (Settings × Reply) → Type 0
SameVersion x r =
    (x' : Settings) (a : Reply) → r ≡ some (x', a) → x'.g_fec_par.version ≡ x.g_fec_par.version

set_value-SameVersion :
    (x : Settings) (v : Option ℕ) (change : ℕ → FecParameter)
    → ((a : ℕ) → (change a).version ≡ x.g_fec_par.version)
    → SameVersion x (set_value x v change)
set_value-SameVersion x none change same x' a e = cc
set_value-SameVersion x (some n) change same x' a e =
    let there : x'.g_fec_par ≡ change n = cc e in
    ap (λ (p : FecParameter). p.version) there ∙ same n

-- The words of the commands that set one number.
abbrev pub SetsNumber : List ℕ → Type 0
SetsNumber s =
    ((r : List ℕ) × (after mtu s ≡ some r))
    ⊎ ((r : List ℕ) × (after queue_len s ≡ some r))
    ⊎ ((r : List ℕ) × (after timeout s ≡ some r))

handle_command-SameVersion :
    (fresh : FecParameter) (was : List ℕ) (x : Settings) (line : List ℕ)
    → SetsNumber (strip line)
    → SameVersion x (handle_command fresh was x line)
unfolding handle_command set_timeout
handle_command-SameVersion fresh was x line (inl (r, e)) =
    let s = strip line in
    let no_fec : after fec s ≡ none =
      after-one b'm' b'f' (b't' ∷ b'u' ∷ []) (b'e' ∷ b'c' ∷ []) s r (omega arith) e in
    rw (handle_command, no_fec, e)
      (set_value-SameVersion x (in_range 100 2000 (scan_value r))
        (λ a. record x.g_fec_par { mtu = a }) (λ a. refl))
handle_command-SameVersion fresh was x line (inr (inl (r, e))) =
    let s = strip line in
    let no_fec : after fec s ≡ none =
      after-one b'q' b'f' (b'u' ∷ b'e' ∷ b'u' ∷ b'e' ∷ b'-' ∷ b'l' ∷ b'e' ∷ b'n' ∷ [])
        (b'e' ∷ b'c' ∷ []) s r (omega arith) e in
    let no_mtu : after mtu s ≡ none =
      after-one b'q' b'm' (b'u' ∷ b'e' ∷ b'u' ∷ b'e' ∷ b'-' ∷ b'l' ∷ b'e' ∷ b'n' ∷ [])
        (b't' ∷ b'u' ∷ []) s r (omega arith) e in
    rw (handle_command, no_fec, no_mtu, e)
      (set_value-SameVersion x (in_range 1 10000 (scan_value r))
        (λ a. record x.g_fec_par { queue_len = a }) (λ a. refl))
handle_command-SameVersion fresh was x line (inr (inr (r, e))) =
    let s = strip line in
    let no_fec : after fec s ≡ none =
      after-one b't' b'f' (b'i' ∷ b'm' ∷ b'e' ∷ b'o' ∷ b'u' ∷ b't' ∷ []) (b'e' ∷ b'c' ∷ []) s r
        (omega arith) e in
    let no_mtu : after mtu s ≡ none =
      after-one b't' b'm' (b'i' ∷ b'm' ∷ b'e' ∷ b'o' ∷ b'u' ∷ b't' ∷ []) (b't' ∷ b'u' ∷ []) s r
        (omega arith) e in
    let no_queue_len : after queue_len s ≡ none =
      after-one b't' b'q' (b'i' ∷ b'm' ∷ b'e' ∷ b'o' ∷ b'u' ∷ b't' ∷ [])
        (b'u' ∷ b'e' ∷ b'u' ∷ b'e' ∷ b'-' ∷ b'l' ∷ b'e' ∷ b'n' ∷ []) s r (omega arith) e in
    let no_mode : after mode s ≡ none =
      after-one b't' b'm' (b'i' ∷ b'm' ∷ b'e' ∷ b'o' ∷ b'u' ∷ b't' ∷ []) (b'o' ∷ b'd' ∷ b'e' ∷ []) s
        r (omega arith) e in
    rw (handle_command, no_fec, no_mtu, no_queue_len, no_mode, set_timeout, e)
      (set_value-SameVersion x (in_range 0 1000 (scan_value r))
        (λ a. record x.g_fec_par { timeout = a * 1000 }) (λ a. refl))

-- A line that sets the mtu, the length of the queue or the timeout does not reach an encoder that has taken
-- over the parameters before it: whatever it is given, the encoder does what it would have done without the
-- line.
pub handle_command-waits :
    (fresh : FecParameter) (was : List ℕ) (x x' : Settings) (a : Reply) (line : List ℕ)
    (codec : Codec) (now : ℕ) (e : Encoder) (s : Option (List ℕ))
    → SetsNumber (strip line)
    → handle_command fresh was x line ≡ some (x', a)
    → e.fec_par.version ≡ x.g_fec_par.version
    → input codec x'.g_fec_par now e s ≡ input codec x.g_fec_par now e s
unfolding input
handle_command-waits fresh was x x' a line codec now e s word run taken =
    let same = handle_command-SameVersion fresh was x line word x' a run in
    let old : (e.fec_par.version == x.g_fec_par.version) ≡ true = ground (arith, taken) in
    let new : (e.fec_par.version == x'.g_fec_par.version) ≡ true = ground (arith, taken, same) in
    elim (Bool-cases (e.counter == 0)) [
      | inl empty ↦ rw (empty, old, new) refl
      | inr full ↦ rw full refl
    ]
