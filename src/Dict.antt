-- ===== src/Dict.antt =====
-- The maps of the standard library (std::unordered_map) with numbers for keys, as a list of bindings in
-- the order they were made. `m[k]` on a key that is missing makes a binding with the default value.
pub mod Laws
use udpspeeder.Base.{
  ℕ, Bool, true, false, List, [], ◌∷◌, Option, none, some, length, ◌==◌, if◌then◌else◌,
}

pub record Binding (V : Type 0) : Type 0 where
  pub name : ℕ
  pub value : V

module _ {V : Type 0} where
  -- `mp.find(k)`: the value, or `mp.end()`.
  abbrev pub find : List (Binding V) → ℕ → Option V
  find [] k = none
  find (b ∷ m) k = if b.name == k then some b.value else find m k

  -- `mp.erase(k)`
  abbrev pub erase : List (Binding V) → ℕ → List (Binding V)
  erase [] k = []
  erase (b ∷ m) k = let rest = erase m k in if b.name == k then rest else b ∷ rest

  -- `mp[k] = v`
  abbrev pub put : List (Binding V) → ℕ → V → List (Binding V)
  put m k v = record { name = k; value = v } ∷ erase m k

  -- `mp.find(k) != mp.end()`
  abbrev pub is_found : Option V → Bool
  is_found none = false
  is_found (some v) = true

  -- `mp[k]` as a value: the map after it, and what the reference shows.
  abbrev pub at : V → List (Binding V) → ℕ → List (Binding V) × V
  at default m k = elim (find m k) [ none ↦ (put m k default, default) | some v ↦ (m, v) ]

  abbrev pub values : List (Binding V) → List V
  values [] = []
  values (b ∷ m) = b.value ∷ values m
