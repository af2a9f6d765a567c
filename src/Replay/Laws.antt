-- ===== src/Replay/Laws.antt =====
-- Which sequence numbers the table refuses after any calls of `set_invaild`.
use udpspeeder.Base.{
  ℕ, ◌+◌, ◌%◌, ◌≤◌, ◌<◌, ◌≡◌, ◌≢◌, refl, ◌⊎◌, inl, inr, true, false, List, [], ◌∷◌, ◌++◌, arith,
  All,
}
use udpspeeder.Base.Bits.{bit_and, bit_and-mask}
use udpspeeder.Replay.{Table, table_mask, clear, set_invaild, is_valid}

-- The calls in sequence.
unfoldable pub set_all : Table → List ℕ → Table
set_all t [] = t
set_all t (s ∷ ss) = set_all (set_invaild t s) ss

pub slot_mod : (s : ℕ) → bit_and s table_mask ≡ s % 32768
slot_mod s = bit_and-mask 15 s

-- Another number in the same slot pushes `s` out; any other call keeps it refused.
abbrev pub Spares : ℕ → ℕ → Type 0
Spares s t = (t ≡ s) ⊎ (t % 32768 ≢ s % 32768)

pub set_invaild_self : (t : Table) (s : ℕ) → is_valid (set_invaild t s) s ≡ false
unfolding is_valid set_invaild
set_invaild_self t s = ground arith

set_invaild-Spares :
    (t : Table) (s r : ℕ) → Spares s r → is_valid t s ≡ false → is_valid (set_invaild t r) s ≡ false
unfolding is_valid set_invaild
set_invaild-Spares t s r (inl e) h = rw e (ground arith)
set_invaild-Spares t s r (inr e) h = ground (arith, slot_mod s, slot_mod r)

set_all-Spares :
    (t : Table) (s : ℕ) (rs : List ℕ)
    → All (Spares s) rs
    → is_valid t s ≡ false
    → is_valid (set_all t rs) s ≡ false
unfolding set_all
set_all-Spares t s [] a h = h
set_all-Spares t s (r ∷ rs) a h =
    set_all-Spares (set_invaild t r) s rs a.1 (set_invaild-Spares t s r a.0 h)

set_all-append : (t : Table) (xs ys : List ℕ) → set_all t (xs ++ ys) ≡ set_all (set_all t xs) ys
unfolding set_all
set_all-append t [] ys = refl
set_all-append t (x ∷ xs) ys = set_all-append (set_invaild t x) xs ys

-- A number that was refused once stays refused until a later call names another number of the same
-- slot.
pub refused_until_evicted :
    (t : Table) (before after : List ℕ) (s : ℕ)
    → All (Spares s) after
    → is_valid (set_all t (before ++ s ∷ after)) s ≡ false
refused_until_evicted t before after s a =
    rw (set_all-append t before (s ∷ after)) (go (set_all t before))
  where
    go : (u : Table) → is_valid (set_all u (s ∷ after)) s ≡ false
    go u = unfold set_all in set_all-Spares (set_invaild u s) s after a (set_invaild_self u s)

-- The numbers between `s` and `s + 32767` spare it.
pub Spares-window : (s t : ℕ) → s ≤ t → t < s + 32768 → Spares s t
Spares-window s t lo hi = grind arith

pub set_invaild_other :
    (t : Table) (r s : ℕ) → r ≢ s → is_valid t s ≡ true → is_valid (set_invaild t r) s ≡ true
unfolding is_valid set_invaild
set_invaild_other t r s e h = ground arith

set_all_other :
    (t : Table) (rs : List ℕ) (s : ℕ)
    → All (λ r. r ≢ s) rs
    → is_valid t s ≡ true
    → is_valid (set_all t rs) s ≡ true
unfolding set_all
set_all_other t [] s a h = h
set_all_other t (r ∷ rs) s a h =
    set_all_other (set_invaild t r) rs s a.1 (set_invaild_other t r s a.0 h)

-- No number is refused that was never given, but for the mark of an empty slot.
pub fresh_is_valid :
    (seqs : List ℕ) (s : ℕ)
    → s ≢ 0xffff_ffff
    → All (λ t. t ≢ s) seqs
    → is_valid (set_all clear seqs) s ≡ true
unfolding is_valid clear
fresh_is_valid seqs s ne others = set_all_other clear seqs s others (ground arith)

-- A cleared table refuses the number 2 ^ 32 - 1, which no group has used.
pub cleared_refuses_last : is_valid clear 0xffff_ffff ≡ false
unfolding is_valid clear
cleared_refuses_last = refl
