-- ===== src/Convs/Links.antt =====
-- The two maps of the conversations are inverse, and the list of last uses knows the same conversations.
use udpspeeder.Base.{
  ◌<◌, ◌^◌, ℕ, ◌≤◌, ◌≡◌, ◌≢◌, refl, ◌∙◌, sym, subst, true, false, [], ◌∷◌, none, some, arith, All,
}
use udpspeeder.Lru
use udpspeeder.Lru.{ts_of, is_known, remove}
use udpspeeder.Lru.Order.{
  IsOrdered, ts_of-remove_self, ts_of-remove_other, remove-IsOrdered, not_before-All,
  none_of_unknown, update-IsOrdered, update-known, update-All,
}
use udpspeeder.Dict.{find, put, erase, is_found}
use udpspeeder.Dict.Laws.{find-erase_self, find-erase_other, none_of_not_found}
use udpspeeder.Convs.{
  Convs, notify, is_conv_used, is_data_used, find_conv_by_data, find_data_by_conv,
  update_active_time, insert_conv, erase_conv,
}

pub record Kept (s : Convs) : Type 0 where
  pub there : (d c : ℕ) → find s.data_to_conv d ≡ some c → find s.conv_to_data c ≡ some d
  pub back : (d c : ℕ) → find s.conv_to_data c ≡ some d → find s.data_to_conv d ≡ some c
  pub timed : (c : ℕ) → is_known (ts_of s.lru c) ≡ is_found (find s.conv_to_data c)
  pub ordered : IsOrdered s.lru
  -- The number of a conversation has 32 bits.
  pub word : (c d : ℕ) → find s.conv_to_data c ≡ some d → c < 2 ^ 32

-- Where neither the conversation, a number of 32 bits, nor the data is in use and no use was after `now`,
-- insert_conv binds them to each other and notes the time; the others stay, and the maps stay inverse.
pub insert_conv-Kept :
    (s : Convs) (c d now : ℕ)
    → Kept s
    → is_conv_used s c ≡ false
    → is_data_used s d ≡ false
    → All (λ e. e.ts ≤ now) s.lru
    → c < 2 ^ 32
    → (s' : Convs) × (insert_conv s c d now ≡ some s')
      × Kept s'
      × (find s'.conv_to_data c ≡ some d)
      × (find_conv_by_data s' d ≡ (s', c))
      × (find_data_by_conv s' c ≡ (s', d))
      × All (λ e. e.ts ≤ now) s'.lru
      × (ts_of s'.lru c ≡ some now)
      × ((c' : ℕ) → c' ≢ c → find s'.conv_to_data c' ≡ find s.conv_to_data c')
unfolding insert_conv is_conv_used is_data_used find_conv_by_data find_data_by_conv Lru.new_key
insert_conv-Kept s c d now k fresh_conv fresh_data a small = (
  record s {
    data_to_conv = put s.data_to_conv d c;
    conv_to_data = put s.conv_to_data c d;
    lru = record { key = c; ts = now } ∷ s.lru;
  },
  rw (k.timed c, fresh_conv, not_before-All s.lru now a) refl,
  record {
    there = λ d' c' e. ground (
      arith,
      k.there d' c',
      k.back d' c',
      fresh_d,
      fresh_c,
      find-erase_other s.conv_to_data c c',
      find-erase_other s.data_to_conv d d',
    );
    back = λ d' c' e. ground (
      arith,
      k.there d' c',
      k.back d' c',
      fresh_d,
      fresh_c,
      find-erase_other s.conv_to_data c c',
      find-erase_other s.data_to_conv d d',
    );
    timed = λ c'. ground (arith, k.timed c', find-erase_other s.conv_to_data c c');
    ordered = (a, none_of_unknown (ts_of s.lru c) (k.timed c ∙ fresh_conv), k.ordered);
    word = λ c' d' e. ground (arith, k.word c' d', small, find-erase_other s.conv_to_data c c');
  },
  ground arith,
  ground arith,
  ground arith,
  (omega arith, a),
  ground arith,
  λ c' ne. ground (arith, find-erase_other s.conv_to_data c c' ne),
)
  where
    fresh_c : find s.conv_to_data c ≡ none
    fresh_c = none_of_not_found (find s.conv_to_data c) fresh_conv

    fresh_d : find s.data_to_conv d ≡ none
    fresh_d = none_of_not_found (find s.data_to_conv d) fresh_data

-- A conversation that is in use is erased with its data, which is handed to the clear function if one is
-- set; the others keep their data and times, and the maps stay inverse.
pub erase_conv-Kept :
    (s : Convs) (c d : ℕ)
    → Kept s
    → find s.conv_to_data c ≡ some d
    → (s' : Convs) × (erase_conv s c ≡ some s')
      × Kept s'
      × (is_conv_used s' c ≡ false)
      × (is_data_used s' d ≡ false)
      × (s'.closed ≡ notify s.additional_clear_function (d ∷ []) s.closed)
      × (s'.lru ≡ remove s.lru c)
      × ((c' : ℕ)
          → c' ≢ c
          → (find s'.conv_to_data c' ≡ find s.conv_to_data c') × (ts_of s'.lru c' ≡ ts_of s.lru c'))
unfolding erase_conv is_conv_used is_data_used Lru.erase
erase_conv-Kept s c d k given = (
  record s {
    data_to_conv = erase s.data_to_conv d;
    conv_to_data = erase s.conv_to_data c;
    lru = remove s.lru c;
    closed = notify s.additional_clear_function (d ∷ []) s.closed;
  },
  ground (arith, given, k.timed c),
  record {
    there = λ d' c' e. ground (
      arith,
      k.there d' c',
      k.back d c,
      find-erase_self s.data_to_conv d,
      find-erase_other s.conv_to_data c c',
      find-erase_other s.data_to_conv d d',
    );
    back = λ d' c' e. ground (
      arith,
      k.back d' c',
      k.there d c,
      k.back d c,
      find-erase_self s.conv_to_data c,
      find-erase_other s.conv_to_data c c',
      find-erase_other s.data_to_conv d d',
    );
    timed = λ c'. ground (
      arith,
      k.timed c',
      find-erase_self s.conv_to_data c,
      find-erase_other s.conv_to_data c c',
      ts_of-remove_self s.lru c k.ordered,
      ts_of-remove_other s.lru c c',
    );
    ordered = remove-IsOrdered s.lru c k.ordered;
    word = λ c' d' e. ground (
      arith,
      k.word c' d',
      find-erase_self s.conv_to_data c,
      find-erase_other s.conv_to_data c c',
    );
  },
  rw (find-erase_self s.conv_to_data c) refl,
  rw (find-erase_self s.data_to_conv d) refl,
  refl,
  refl,
  λ c' ne. (find-erase_other s.conv_to_data c c' ne, ts_of-remove_other s.lru c c' ne),
)

-- A conversation in use is noted at the time `now`, which no use was after; nothing else changes.
pub update_active_time-Kept :
    (s : Convs) (c d now : ℕ)
    → Kept s
    → find s.conv_to_data c ≡ some d
    → All (λ e. e.ts ≤ now) s.lru
    → (s' : Convs) × (update_active_time s c now ≡ some s')
      × Kept s'
      × (s'.conv_to_data ≡ s.conv_to_data)
      × (s'.data_to_conv ≡ s.data_to_conv)
      × All (λ e. e.ts ≤ now) s'.lru
      × (ts_of s'.lru c ≡ some now)
      × ((c' : ℕ) → c' ≢ c → ts_of s'.lru c' ≡ ts_of s.lru c')
unfolding update_active_time
update_active_time-Kept s c d now k given a =
    let known : is_known (ts_of s.lru c) ≡ true = k.timed c ∙ rw given in
    let (q, moved, o, at_now, others) = update-IsOrdered s.lru c now k.ordered a known in
    let shape : q ≡ record { key = c; ts = now } ∷ remove s.lru c =
      cc (moved, update-known s.lru c now a known) in
    (
      record s { lru = q },
      rw moved refl,
      record {
        there = k.there;
        back = k.back;
        timed = λ c'. ground (arith, k.timed c', others c', known);
        ordered = o;
        word = k.word;
      },
      refl,
      refl,
      subst (λ q'. All (λ e. e.ts ≤ now) q') (sym shape) (update-All s.lru c now a),
      at_now,
      others,
    )

-- A look-up of what is there changes nothing.
pub find_data_by_conv-found :
    (s : Convs) (c d : ℕ) → find s.conv_to_data c ≡ some d → find_data_by_conv s c ≡ (s, d)
unfolding find_data_by_conv
find_data_by_conv-found s c d given = ground (arith, given)

pub find_conv_by_data-found :
    (s : Convs) (c d : ℕ) → find s.data_to_conv d ≡ some c → find_conv_by_data s d ≡ (s, c)
unfolding find_conv_by_data
find_conv_by_data-found s c d given = ground (arith, given)
