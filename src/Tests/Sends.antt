-- ===== src/Tests/Sends.antt =====
-- Packets to the handle 3, which is the descriptor 7, one of them late.
use udpspeeder.Base.{
  ℕ, ◌+◌, ◌%◌, ◌≤◌, ◌<◌, ◌≡◌, ◌⊎◌, inr, refl, true, false, List, [], ◌∷◌, ◌++◌, some, none, length,
  All, ◌>>=◌, arith,
}
use udpspeeder.Base.Memory.{Memory}
use udpspeeder.Handles.{put}
use udpspeeder.Cook.Xor.{Platform}
use udpspeeder.Cook.{CookCtx}
use udpspeeder.Framing.{put_conv, put_conv_inplace}
use udpspeeder.Framing.RoundTrip.{put_conv_inplace-put_conv}
use udpspeeder.Sending.{Target, Dest, Net, Setting}
use udpspeeder.Delay.{
  Timed, Delay, Moment, Reply, ok, fail, timer_for, add, check, delay_send_each, delay_send_batch,
}
use udpspeeder.Delay.Order.{IsSorted, add-IsSorted, add-capacity}
use udpspeeder.Delay.Check.{handle_all, check_sends_due}
use udpspeeder.Delay.Paths.{view, delay_send_batch-delay_send}

abbrev pub zeros : Memory
zeros i = 0

put_conv_inplace-put_conv_example :
    ((put_conv_inplace 0x0102_0304 (λ q. q % 256) 3).1
      ≡ (put_conv zeros 0x0102_0304 (λ q. (4 + q) % 256) 3).1)
    × ((q : ℕ)
        → q < 7
        → (put_conv_inplace 0x0102_0304 (λ q. q % 256) 3).0 q
          ≡ (put_conv zeros 0x0102_0304 (λ q. (4 + q) % 256) 3).0 q)
put_conv_inplace-put_conv_example =
    put_conv_inplace-put_conv (λ q. q % 256) zeros 0x0102_0304 (λ q. (4 + q) % 256) 3 (λ q h. refl)

abbrev pub plain : CookCtx
plain = record {
  key = [];
  key_len = 0;
  key_tile_len = 0;
  key_tile = zeros;
  iv_min = 2;
  iv_max = 32;
  disable_checksum = false;
  disable_obscure = false;
  disable_xor = false;
}

abbrev pub setting : Setting
setting = record {
  is_linux = true;
  platform = Platform.avx2;
  crc32c = length;
  ctx = plain;
  ivs = λ n. 9 ∷ n ∷ [];
  junk = λ n. zeros;
  behind = λ n. zeros;
}

abbrev pub one_handle : Net ℕ
one_handle = record {
  handles = record {
    counter = 4;
    fd_to_fd64_mp = put (λ i. none) 7 3;
    fd64_to_fd_mp = put (λ i. none) 3 7;
    fd_info_mp = λ i. none;
  };
  cooked = 0;
  calls = [];
}

abbrev to_handle : Dest
to_handle = record { target = Target.type_fd64 3; cook = true }

abbrev late : Timed
late = record { time = 500; item = record { dest = to_handle; bytes = 1 ∷ [] } }

abbrev pub one_waits : Delay
one_waits = record { capacity = 2; delay_mp = late ∷ []; timer = none }

add-IsSorted_example :
    (q' : Delay) × (before : List Timed) × (after : List Timed) × (add ℕ setting 100 true one_handle
        one_waits 300 to_handle
        (2 ∷ [])
      ≡ some (one_handle, q', ok))
    × IsSorted q'.delay_mp
    × (late ∷ [] ≡ before ++ after)
    × (q'.delay_mp
        ≡ before
          ++ record { time = 400; item = record { dest = to_handle; bytes = 2 ∷ [] } } ∷ after)
    × All (λ y. y.time ≤ 400) before
    × All (λ y. 400 < y.time) after
add-IsSorted_example =
    add-IsSorted ℕ setting 100 one_handle one_waits 300 to_handle (2 ∷ []) (tt, tt)
      (inr (omega arith)) (omega arith) (omega arith)

add-capacity_example :
    ((length one_waits.delay_mp ≡ one_waits.capacity)
      × (add ℕ setting 100 true one_handle one_waits 300 to_handle (2 ∷ [])
          ≡ some (one_handle, one_waits, fail)))
    ⊎ ((length one_waits.delay_mp < one_waits.capacity)
        × ((w' : Net ℕ) (q' : Delay) (r : Reply)
            → add ℕ setting 100 true one_handle one_waits 300 to_handle (2 ∷ []) ≡ some (w', q', r)
            → length q'.delay_mp ≤ q'.capacity))
add-capacity_example =
    add-capacity ℕ setting 100 true one_handle one_waits 300 to_handle (2 ∷ []) (omega arith)
      (omega arith)

check_sends_due_example :
    (sent : List Timed) × (rest : List Timed) × (n : ℕ) × (late ∷ [] ≡ sent ++ rest)
    × (check ℕ setting (λ i. 499 + i) one_handle one_waits
        ≡ handle_all ℕ setting one_handle sent >>= (λ w'.
          some (w', record one_waits { delay_mp = rest; timer = timer_for (499 + n) rest })))
    × All (λ y. y.time ≤ 499 + n) sent
    × All (λ y. 499 < y.time) rest
check_sends_due_example =
    check_sends_due ℕ setting (λ i. 499 + i) (λ i. omega arith) one_handle one_waits late []
      (tt, tt) refl

abbrev pub moments : ℕ → Moment
moments i = record { now = 100 + i; allocated = true; random = i }

delay_send_batch-delay_send_example :
    delay_send_batch ℕ setting moments 0 one_handle one_waits to_handle
        ((0, 5 ∷ []) ∷ (0, 6 ∷ 7 ∷ []) ∷ [])
      >>= view ℕ setting
    ≡ delay_send_each ℕ setting moments 0 0 one_handle one_waits to_handle
        ((0, 5 ∷ []) ∷ (0, 6 ∷ 7 ∷ []) ∷ [])
      >>= view ℕ setting
delay_send_batch-delay_send_example =
    delay_send_batch-delay_send ℕ setting one_waits moments 0 one_handle to_handle
      ((0, 5 ∷ []) ∷ (0, 6 ∷ 7 ∷ []) ∷ []) tt (omega arith) (inr (omega arith))
