-- ===== src/Tests/Commands.antt =====
-- A table of two rows as a text, and a line for the mtu.
use udpspeeder.Base.{
  ℕ, ◌+◌, ◌-◌, ◌<◌, ◌≡◌, refl, List, [], ◌∷◌, some, inl, arith, All, subst, length,
}
use udpspeeder.Text.{ℤ, scan_int, skip_space, scan_nat, scan_digits, split, string_to_vec}
use udpspeeder.Param.{FecParameter}
use udpspeeder.Param.Table.{
  is_over, check_pair, check_pairs, ascending, fill, fill_first, fill_rest, rs_from_pairs,
}
use udpspeeder.Param.Laws.{FitsInt, IsTable}
use udpspeeder.Param.Str.{scan_pair, scan_pairs, rs_from_str, rs_to_str}
use udpspeeder.Param.Printed.{rs_from_str-rs_to_str}
use udpspeeder.Command.{
  word, Settings, Reply, ok, fail, handle_command, strip, scan_value, in_range,
}
use udpspeeder.Command.Parsed.{SumsFit}
use udpspeeder.Command.Kept.{IsSettings, Sound, handle_command-IsSettings}
use udpspeeder.Command.Waits.{handle_command-waits}
use udpspeeder.Encoder.{input}
use udpspeeder.Tests.Codecs.{sum_codec}
use udpspeeder.Tests.Groups.{encoder, parameter}

-- "1:3,2:1"
abbrev text : List ℕ
text = b'1' ∷ b':' ∷ b'3' ∷ b',' ∷ b'2' ∷ b':' ∷ b'1' ∷ []

abbrev par : FecParameter
par = record {
  version = 0;
  mtu = 1250;
  queue_len = 200;
  timeout = 8000;
  mode = 0;
  rs_cnt = 2;
  rs_par = λ i. record { x = i + 1; y = 3 - (i + i) };
}

par-IsTable : IsTable 255 par
par-IsTable = record { not_empty = omega arith; rows = λ i b. (omega arith, omega (arith, b)) }

text-parses : (p : FecParameter) → (p' : FecParameter) × (rs_from_str p text ≡ some p')
unfolding rs_from_str scan_pairs scan_pair scan_int skip_space scan_nat scan_digits string_to_vec
    split rs_from_pairs check_pairs check_pair is_over fill ascending
text-parses p = (
  record p {
    rs_cnt = 2;
    rs_par =
        fill_rest (record { x = 1; y = 3 }) (record { x = 2; y = 1 } ∷ [])
          (fill_first 3 1 1 p.rs_par);
  },
  refl,
)

abbrev text_pairs : List (ℤ × ℤ)
text_pairs = (ℤ.pos 1, ℤ.pos 3) ∷ (ℤ.pos 2, ℤ.pos 1) ∷ []

text_read : scan_pairs (string_to_vec text b',') ≡ some text_pairs
unfolding scan_pairs scan_pair scan_int skip_space scan_nat scan_digits string_to_vec split
text_read = refl

text-SumsFit : SumsFit text
text-SumsFit ps e =
    let same : text_pairs ≡ ps = cc (text_read, e) in
    subst (λ qs. All FitsInt qs) same (omega arith, (omega arith, tt))

abbrev settings : Settings
settings = record { g_fec_par = par; rs_par_str = text }

settings-IsSettings : IsSettings settings
settings-IsSettings = record {
  table = par-IsTable;
  parses = text-parses;
  sums = text-SumsFit;
  mtu_low = omega arith;
  mtu_high = omega arith;
  queue_low = omega arith;
  queue_high = omega arith;
  mode_high = omega arith;
  timeout_high = omega arith;
}

-- "mtu 900\n"
abbrev line : List ℕ
line = b'm' ∷ b't' ∷ b'u' ∷ b' ' ∷ b'9' ∷ b'0' ∷ b'0' ∷ 10 ∷ []

rs_from_str-rs_to_str_example :
    (s : List ℕ) × (par' : FecParameter) × (rs_to_str par ≡ some s)
    × (rs_from_str parameter s ≡ some par')
    × (par'.rs_cnt ≡ 2)
    × ((i : ℕ) → i < 2 → par'.rs_par i ≡ par.rs_par i)
    × (par' ≡ record parameter { rs_cnt = par'.rs_cnt; rs_par = par'.rs_par })
rs_from_str-rs_to_str_example = rs_from_str-rs_to_str par parameter par-IsTable

-- "fec 1:3,2:1\n"
abbrev fec_line : List ℕ
fec_line = b'f' ∷ b'e' ∷ b'c' ∷ b' ' ∷ b'1' ∷ b':' ∷ b'3' ∷ b',' ∷ b'2' ∷ b':' ∷ b'1' ∷ 10 ∷ []

fec_line-Sound : Sound [] fec_line
unfolding strip skip_space
fec_line-Sound r e =
    let same : b' ' ∷ text ≡ r = cc e in
    subst (λ s. (length (word [] s) < 2650) × SumsFit (word [] s)) same (omega arith, text-SumsFit)

handle_command-IsSettings_example :
    (x' : Settings) × (a : Reply) × (handle_command par [] settings fec_line ≡ some (x', a))
    × IsSettings x'
    × (a ≡ fail → x' ≡ settings)
handle_command-IsSettings_example =
    handle_command-IsSettings par [] settings fec_line fec_line-Sound settings-IsSettings

handle_command-waits_example :
    input sum_codec (record par { mtu = 900 }) 7 (record encoder { fec_par = par }) (some (5 ∷ []))
    ≡ input sum_codec par 7 (record encoder { fec_par = par }) (some (5 ∷ []))
unfolding handle_command strip scan_value scan_int skip_space scan_nat scan_digits in_range
handle_command-waits_example =
    handle_command-waits par [] settings (record settings { g_fec_par = record par { mtu = 900 } })
      ok line sum_codec 7 (record encoder { fec_par = par }) (some (5 ∷ []))
      (inl (b' ' ∷ b'9' ∷ b'0' ∷ b'0' ∷ [], refl)) refl refl
