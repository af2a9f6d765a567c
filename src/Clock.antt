-- ===== src/Clock.antt =====
-- get_current_time_us, get_current_time and random_between of common.cpp. `raw` is what ev_time gives, in
-- microseconds; `random` what get_fake_random_number gives. `none` is the end of the process, or a division
-- by 0.
pub mod Steady
use udpspeeder.Base.{
  ℕ, ◌+◌, ◌-◌, ◌/◌, ◌%◌, ◌^◌, List, [], ◌∷◌, Option, none, some, ltb, ◌==◌, if◌then◌else◌,
}

pub record Clock : Type 0 where
  pub value_fix : ℕ
  pub largest_value : ℕ

unfoldable pub get_current_time_us : Clock → (raw : ℕ) → Clock × ℕ
get_current_time_us c raw =
    let fixed_value = (raw + c.value_fix) % 2 ^ 64 in
    if ltb fixed_value c.largest_value
    then (let fix = (c.value_fix + (c.largest_value - fixed_value)) % 2 ^ 64 in
        (record c { value_fix = fix }, (raw + fix) % 2 ^ 64))
    else (record c { largest_value = fixed_value }, (raw + c.value_fix) % 2 ^ 64)

unfoldable pub get_current_time : Clock → (raw : ℕ) → Clock × ℕ
get_current_time c raw = let (c', us) = get_current_time_us c raw in (c', us / 1000)

unfoldable pub random_between : (a b random : ℕ) → Option ℕ
random_between a b random =
    if ltb b a
    then none
    else if a == b
    then some a
    else if (b + 1 - a) % 2 ^ 32 == 0
    then none
    else some ((a + random % (b + 1 - a)) % 2 ^ 32)
