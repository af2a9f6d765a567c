-- ===== src/Encoder/Best/Optimal.antt =====
-- The number of data shards chosen for a blob is the cheapest that fits the mtu.
use udpspeeder.Base.{
  ℕ, zero, suc, ◌+◌, ◌-◌, ◌≤◌, ◌<◌, ◌≡◌, ◌⊎◌, inl, inr, refl, Bool, true, false, some, ltb, leb,
  ◌==◌, ◌&&◌, subst, sym, ap, ◌∙◌, arith, Bool-cases, le→leb,
}
use udpspeeder.Blob.{BlobEncode, get_shard_len_with}
use udpspeeder.Param.{FecParameter, RsParameter}
use udpspeeder.Param.Laws.{IsTable}
use udpspeeder.Encoder.Best.{cost, best_from, best_data_num}

-- The number of data shards `j` keeps a shard within the mtu.
abbrev pub Affordable : FecParameter → BlobEncode → ℕ → Type 0
Affordable par blob j = get_shard_len_with blob j 0 ≤ par.mtu

abbrev pub cost_of : FecParameter → BlobEncode → ℕ → ℕ
cost_of par blob j = cost blob (par.rs_par (j - 1))

-- `k` is the number to start from or one of those from `lo` up to `hi`, and none of these is cheaper.
pub record IsBest (par : FecParameter) (blob : BlobEncode) (lo hi start start_cost k k_cost : ℕ)
    : Type 0 where
  pub chosen :
      ((k ≡ start) × (k_cost ≡ start_cost))
      ⊎ ((lo ≤ k) × (k < hi) × Affordable par blob k × (k_cost ≡ cost_of par blob k))
  pub not_above : k_cost ≤ start_cost
  pub cheapest : (j : ℕ) → lo ≤ j → j < hi → Affordable par blob j → k_cost ≤ cost_of par blob j

wins : FecParameter → BlobEncode → ℕ → ℕ → Bool
wins par blob i best_len =
    leb (get_shard_len_with blob (par.rs_par (i - 1)).x 0) par.mtu
    && ltb (cost_of par blob i) best_len

-- A round that finds a cheaper number, and one that does not.
IsBest-wins :
    (par : FecParameter) (blob : BlobEncode) (i hi start start_cost k k_cost : ℕ)
    → (par.rs_par (i - 1)).x ≡ i
    → i < hi
    → wins par blob i start_cost ≡ true
    → IsBest par blob (i + 1) hi (par.rs_par (i - 1)).x (cost_of par blob i) k k_cost
    → IsBest par blob i hi start start_cost k k_cost
unfolding wins
IsBest-wins par blob i hi start start_cost k k_cost row below w h = record {
  chosen = elim h.chosen [
    | inl (same, same_cost) ↦
        let e : k ≡ i = same ∙ row in rw e (inr (omega arith, below, within, same_cost))
    | inr (lo, below', aff, c) ↦ inr (omega arith, below', aff, c)
  ];
  not_above = ground (arith, h.not_above);
  cheapest = λ j a b aff. elim (Bool-cases (i == j)) [
    | inl e ↦
        let e' : i ≡ j = ground arith in subst (λ l. k_cost ≤ cost_of par blob l) e' h.not_above
    | inr e ↦ h.cheapest j (ground arith) b aff
  ];
}
  where
    within : Affordable par blob i
    within = ground (arith, w, row)

IsBest-loses :
    (par : FecParameter) (blob : BlobEncode) (i hi start start_cost k k_cost : ℕ)
    → (par.rs_par (i - 1)).x ≡ i
    → wins par blob i start_cost ≡ false
    → IsBest par blob (i + 1) hi start start_cost k k_cost
    → IsBest par blob i hi start start_cost k k_cost
unfolding wins
IsBest-loses par blob i hi start start_cost k k_cost row w h = record {
  chosen = ground (arith, h.chosen);
  not_above = h.not_above;
  cheapest = λ j a b aff. elim (Bool-cases (i == j)) [
    | inl e ↦
        let e' : i ≡ j = ground arith in
        let aff' : Affordable par blob i = subst (Affordable par blob) (sym e') aff in
        subst (λ l. k_cost ≤ cost_of par blob l) e' (ground (arith, h.not_above, aff', row))
    | inr e ↦ h.cheapest j (ground arith) b aff
  ];
}

best_from-IsBest :
    (par : FecParameter) (blob : BlobEncode) (i left start start_cost hi : ℕ)
    → ((j : ℕ) → 1 ≤ j → j < hi → (par.rs_par (j - 1)).x ≡ j)
    → 1 ≤ i
    → i + left ≡ hi
    → (k : ℕ) × (k_cost : ℕ) × (best_from par blob i left start_cost start ≡ some k)
      × IsBest par blob i hi start start_cost k k_cost
unfolding best_from wins
best_from-IsBest par blob i zero start start_cost hi rows pos e = (
  start,
  start_cost,
  refl,
  record {
    chosen = inl (refl, refl);
    not_above = omega arith;
    cheapest = λ j a b. absurd (omega arith);
  },
)
best_from-IsBest par blob i (suc left) start start_cost hi rows pos e =
    elim (Bool-cases (wins par blob i start_cost)) [
      | inl w ↦
          let (k, k_cost, run, h) =
            best_from-IsBest par blob (i + 1) left (par.rs_par (i - 1)).x (cost_of par blob i) hi
              rows (omega arith) (omega arith) in
          (
            k,
            k_cost,
            ground (arith, w, row, run),
            IsBest-wins par blob i hi start start_cost k k_cost row (omega arith) w h,
          )
      | inr w ↦
          let (k, k_cost, run, h) =
            best_from-IsBest par blob (i + 1) left start start_cost hi rows (omega arith)
              (omega arith) in
          (
            k,
            k_cost,
            ground (arith, w, row, run),
            IsBest-loses par blob i hi start start_cost k k_cost row w h,
          )
    ]
  where
    row : (par.rs_par (i - 1)).x ≡ i
    row = rows i pos (omega arith)

pub best_data_num-IsBest :
    (par : FecParameter) (blob : BlobEncode) (max : ℕ)
    → IsTable max par
    → (k : ℕ) × (best_data_num par blob (par.rs_par (par.rs_cnt - 1)) ≡ some k)
      × (1 ≤ k)
      × (k ≤ par.rs_cnt)
      × ((k ≡ par.rs_cnt) ⊎ Affordable par blob k)
      × (cost_of par blob k ≤ cost_of par blob par.rs_cnt)
      × ((j : ℕ)
          → 1 ≤ j
          → j < par.rs_cnt
          → Affordable par blob j
          → cost_of par blob k ≤ cost_of par blob j)
unfolding best_data_num
best_data_num-IsBest par blob max t =
    let (k, k_cost, run, h) =
      best_from-IsBest par blob 1 (tail.x - 1) tail.x (cost blob tail) tail.x
        (λ j a b. omega (arith, (t.rows (j - 1) (omega (arith, x_eq))).0)) (omega arith)
        (omega (arith, x_eq, t.not_empty)) in
    let own : k_cost ≡ cost_of par blob k = elim h.chosen [
      | inl (same, c) ↦ let e : k ≡ par.rs_cnt = same ∙ x_eq in c ∙ sym (ap (cost_of par blob) e)
      | inr (_, _, _, c) ↦ c
    ] in
    (
      k,
      rw (le→leb tail.x par.rs_cnt (omega (arith, x_eq))) run,
      ground (arith, h.chosen, x_eq, t.not_empty),
      ground (arith, h.chosen, x_eq),
      ground (arith, h.chosen, x_eq),
      omega (arith, own, h.not_above),
      λ j a b aff. omega (arith, own, h.cheapest j a (omega (arith, x_eq)) aff),
    )
  where
    tail : RsParameter
    tail = par.rs_par (par.rs_cnt - 1)

    x_eq : tail.x ≡ par.rs_cnt
    x_eq = omega (arith, (t.rows (par.rs_cnt - 1) (omega (arith, t.not_empty))).0, t.not_empty)
