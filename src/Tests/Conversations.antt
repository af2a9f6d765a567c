-- ===== src/Tests/Conversations.antt =====
-- Conversations 7 and 8 of the handles 70 and 80, used at the times 5 and 200000.
use udpspeeder.Base.{
  All, ◌^◌, ◌≤◌, ℕ, ◌<◌, ◌≡◌, ◌≢◌, refl, true, false, List, [], ◌∷◌, some, length, arith,
}
use udpspeeder.Lru.{ts_of, remove}
use udpspeeder.Dict.{find}
use udpspeeder.Convs.{
  Convs, notify, is_conv_used, is_data_used, find_conv_by_data, find_data_by_conv, insert_conv,
  erase_conv, num_to_clean, clear_inactive0, get_new_conv,
}
use udpspeeder.Convs.Links.{Kept, insert_conv-Kept, erase_conv-Kept}
use udpspeeder.Convs.Idle.{Cleared, clear_inactive0-Cleared, clear_inactive0-progress}
use udpspeeder.Convs.Fresh.{get_new_conv_returns}

abbrev pub two_convs : Convs
two_convs = record {
  data_to_conv = record { name = 80; value = 8 } ∷ record { name = 70; value = 7 } ∷ [];
  conv_to_data = record { name = 8; value = 80 } ∷ record { name = 7; value = 70 } ∷ [];
  lru = record { key = 8; ts = 200000 } ∷ record { key = 7; ts = 5 } ∷ [];
  last_clear_time = 0;
  additional_clear_function = true;
  closed = [];
}

pub two_convs-Kept : Kept two_convs
two_convs-Kept = record {
  there = λ d c e. ground (arith, e);
  back = λ d c e. ground (arith, e);
  timed = λ c. ground arith;
  ordered = ((omega arith, tt), refl, (tt, refl, tt));
  word = λ c d e. ground (arith, e);
}

insert_conv-Kept_example :
    (s' : Convs) × (insert_conv two_convs 9 90 200001 ≡ some s')
    × Kept s'
    × (find s'.conv_to_data 9 ≡ some 90)
    × (find_conv_by_data s' 90 ≡ (s', 9))
    × (find_data_by_conv s' 9 ≡ (s', 90))
    × All (λ e. e.ts ≤ 200001) s'.lru
    × (ts_of s'.lru 9 ≡ some 200001)
    × ((c' : ℕ) → c' ≢ 9 → find s'.conv_to_data c' ≡ find two_convs.conv_to_data c')
unfolding is_conv_used is_data_used
insert_conv-Kept_example =
    insert_conv-Kept two_convs 9 90 200001 two_convs-Kept refl refl (omega arith, (omega arith, tt))
      (omega arith)

erase_conv-Kept_example :
    (s' : Convs) × (erase_conv two_convs 7 ≡ some s')
    × Kept s'
    × (is_conv_used s' 7 ≡ false)
    × (is_data_used s' 70 ≡ false)
    × (s'.closed ≡ notify true (70 ∷ []) [])
    × (s'.lru ≡ remove two_convs.lru 7)
    × ((c' : ℕ)
        → c' ≢ 7
        → (find s'.conv_to_data c' ≡ find two_convs.conv_to_data c')
          × (ts_of s'.lru c' ≡ ts_of two_convs.lru c'))
erase_conv-Kept_example = erase_conv-Kept two_convs 7 70 two_convs-Kept refl

clear_inactive0-Cleared_example :
    (s' : Convs) × (clear_inactive0 two_convs 200001 ≡ some s')
    × Cleared (num_to_clean two_convs) 200001 two_convs s'
clear_inactive0-Cleared_example = clear_inactive0-Cleared two_convs 200001 two_convs-Kept

clear_inactive0-progress_example :
    (s' : Convs) × (clear_inactive0 two_convs 200001 ≡ some s') × (length s'.lru < 2)
clear_inactive0-progress_example =
    clear_inactive0-progress two_convs 200001 7 5 two_convs-Kept (omega arith)
      (omega arith, (omega arith, tt)) refl (omega arith)

get_new_conv_returns_example :
    (conv : ℕ) × (rest : List ℕ) × (get_new_conv two_convs (0 ∷ 7 ∷ 9 ∷ 11 ∷ [])
      ≡ some (conv, rest))
    × (conv ≢ 0)
    × (is_conv_used two_convs conv ≡ false)
    × (conv < 2 ^ 32)
unfolding is_conv_used
get_new_conv_returns_example =
    get_new_conv_returns two_convs (0 ∷ 7 ∷ []) 9 (11 ∷ []) (omega arith) refl
      (omega arith, (omega arith, (omega arith, (omega arith, tt))))
