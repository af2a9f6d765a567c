-- ===== src/Lru.antt =====
-- lru_collector_t of common.h, with numbers for keys: keys by the time of their last use, the latest in
-- front. The map `mp` holds for each key in `q` the place of its entry there, so a look-up in it is a
-- search of `q`. `none` is a failed `assert`; `now` is what get_current_time returns.
pub mod Order
use udpspeeder.Base.{
  ℕ, ◌≤◌, ◌≡◌, Bool, true, false, not, List, [], ◌∷◌, Option, none, some, length, ltb, leb, ◌==◌,
  if◌then◌else◌, assert, ◌>>=◌, ◌>>◌,
}

pub record LruPair : Type 0 where
  pub key : ℕ
  pub ts : ℕ

-- The entry that `mp` leads to.
abbrev pub ts_of : List LruPair → ℕ → Option ℕ
ts_of [] k = none
ts_of (e ∷ q) k = if e.key == k then some e.ts else ts_of q k

abbrev pub is_known : Option ℕ → Bool
is_known none = false
is_known (some t) = true

-- `q.erase(mp[key])`
abbrev pub remove : List LruPair → ℕ → List LruPair
remove [] k = []
remove (e ∷ q) k = let rest = e ∷ remove q k in if e.key == k then q else rest

-- `if (!q.empty()) assert(value >= q.front().ts);`
abbrev pub not_before_front : List LruPair → ℕ → Bool
not_before_front [] now = true
not_before_front (e ∷ q) now = leb e.ts now

unfoldable pub update : List LruPair → ℕ → ℕ → Option (List LruPair)
update q k now = do
  assert (is_known (ts_of q k))
  let rest = remove q k
  assert (not_before_front rest now)
  some (record { key = k; ts = now } ∷ rest)

unfoldable pub new_key : List LruPair → ℕ → ℕ → Option (List LruPair)
new_key q k now = do
  assert (not (is_known (ts_of q k)))
  assert (not_before_front q now)
  some (record { key = k; ts = now } ∷ q)

unfoldable pub size : List LruPair → ℕ
size q = length q

unfoldable pub is_empty : List LruPair → Bool
is_empty [] = true
is_empty (e ∷ q) = false

unfoldable pub clear : List LruPair → List LruPair
clear q = []

-- The last entry: the key and the time.
unfoldable pub peek_back : List LruPair → Option LruPair
peek_back [] = none
peek_back (e ∷ []) = some e
peek_back (e ∷ f ∷ q) = peek_back (f ∷ q)

unfoldable pub erase : List LruPair → ℕ → Option (List LruPair)
erase q k = do assert (is_known (ts_of q k)); some (remove q k)
