-- ===== src/Convs.antt =====
-- conv_manager_t of connection.h: the conversations of one connection, each with the data it stands for:
-- an address on the client, a handle of 64 bits on the server; here a number. disable_conv_clear is 0.
-- The calls of additional_clear_function are kept in `closed`, the latest first; `none` is a failed
-- `assert`. `now` is what get_current_time returns, of 64 bits, so that a difference wraps.
pub mod Links
pub mod Idle
pub mod Erasing
pub mod Fresh
use udpspeeder.Base.{
  ℕ, zero, suc, ◌+◌, ◌-◌, ◌/◌, ◌%◌, ◌^◌, min, Bool, true, false, not, List, [], ◌∷◌, ◌++◌, Option,
  none, some, length, ltb, leb, ◌==◌, if◌then◌else◌, assert, ◌>>=◌, ◌>>◌,
}
use udpspeeder.Lru.{LruPair, peek_back, is_empty, size}
use udpspeeder.Lru
use udpspeeder.Dict.{Binding, find, put, erase, is_found, at, values}

abbrev pub conv_timeout : ℕ
conv_timeout = 180000

abbrev pub conv_clear_ratio : ℕ
conv_clear_ratio = 30

abbrev pub conv_clear_min : ℕ
conv_clear_min = 1

abbrev pub conv_clear_interval : ℕ
conv_clear_interval = 1000

pub record Convs : Type 0 where
  pub data_to_conv : List (Binding ℕ)
  pub conv_to_data : List (Binding ℕ)
  pub lru : List LruPair
  pub last_clear_time : ℕ
  pub additional_clear_function : Bool
  pub closed : List ℕ

-- `if (additional_clear_function != 0) additional_clear_function(data);`
abbrev pub notify : Bool → List ℕ → List ℕ → List ℕ
notify is_set datum calls = if is_set then datum ++ calls else calls

-- A difference of two u64_t.
abbrev pub since : ℕ → ℕ → ℕ
since now t = (now + 2 ^ 64 - t) % 2 ^ 64

unfoldable pub get_size : Convs → ℕ
get_size s = length s.conv_to_data

unfoldable pub clear : Convs → Convs
clear s = record s {
  data_to_conv = [];
  conv_to_data = [];
  lru = Lru.clear s.lru;
  closed = notify s.additional_clear_function (values s.conv_to_data) s.closed;
}

unfoldable pub is_conv_used : Convs → ℕ → Bool
is_conv_used s conv = is_found (find s.conv_to_data conv)

unfoldable pub is_data_used : Convs → ℕ → Bool
is_data_used s datum = is_found (find s.data_to_conv datum)

-- get_fake_random_number_nz on the numbers that get_fake_random_number will give; `none` when they do not
-- reach.
abbrev pub draw_nz : List ℕ → Option (ℕ × List ℕ)
draw_nz [] = none
draw_nz (r ∷ rs) = let rest = draw_nz rs in if r == 0 then rest else some (r, rs)

-- The loop on the numbers above zero that are drawn, at most `fuel` times.
abbrev pub draw_unused : ℕ → Convs → List ℕ → Option (ℕ × List ℕ)
draw_unused zero s rs = none
draw_unused (suc fuel) s rs = draw_nz rs >>= λ (conv, rest). elim (is_conv_used s conv) [
  | true ↦ draw_unused fuel s rest
  | false ↦ some (conv, rest)
]

unfoldable pub get_new_conv : Convs → List ℕ → Option (ℕ × List ℕ)
get_new_conv s rs = draw_unused (length rs) s rs

unfoldable pub find_conv_by_data : Convs → ℕ → Convs × ℕ
find_conv_by_data s datum =
    let (m, conv) = at 0 s.data_to_conv datum in (record s { data_to_conv = m }, conv)

unfoldable pub find_data_by_conv : Convs → ℕ → Convs × ℕ
find_data_by_conv s conv =
    let (m, datum) = at 0 s.conv_to_data conv in (record s { conv_to_data = m }, datum)

unfoldable pub update_active_time : Convs → ℕ → ℕ → Option Convs
update_active_time s conv now = do q ← Lru.update s.lru conv now; some (record s { lru = q })

unfoldable pub insert_conv : Convs → ℕ → ℕ → ℕ → Option Convs
insert_conv s conv datum now = do
  q ← Lru.new_key s.lru conv now
  some (record s {
    data_to_conv = put s.data_to_conv datum conv;
    conv_to_data = put s.conv_to_data conv datum;
    lru = q;
  })

unfoldable pub erase_conv : Convs → ℕ → Option Convs
erase_conv s conv = do
  let (m, datum) = at 0 s.conv_to_data conv
  q ← Lru.erase s.lru conv
  some (record s {
    data_to_conv = erase s.data_to_conv datum;
    conv_to_data = erase m conv;
    lru = q;
    closed = notify s.additional_clear_function (datum ∷ []) s.closed;
  })

-- The loop of clear_inactive0, with the number of conversations it may still clear.
abbrev pub clear_some : ℕ → ℕ → Convs → Option Convs
clear_some zero now s = some s
clear_some (suc n) now s = elim (is_empty s.lru) [
  | true ↦ some s
  | false ↦ peek_back s.lru >>= λ e. elim (ltb (since now e.ts) conv_timeout) [
    | true ↦ some s
    | false ↦ erase_conv s e.key >>= λ t. clear_some n now t
  ]
]

abbrev pub num_to_clean : Convs → ℕ
num_to_clean s = min (size s.lru / conv_clear_ratio + conv_clear_min) (size s.lru)

unfoldable pub clear_inactive0 : Convs → ℕ → Option Convs
clear_inactive0 s now = clear_some (num_to_clean s) now s

unfoldable pub clear_inactive : Convs → ℕ → Option Convs
clear_inactive s now =
    if ltb conv_clear_interval (since now s.last_clear_time)
    then clear_inactive0 (record s { last_clear_time = now }) now
    else some s
