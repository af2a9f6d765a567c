-- ===== src/Command/Parsed.antt =====
-- What rs_from_str makes of a text, and what copy_fec takes over.
use udpspeeder.Base.{
  ℕ, ◌≡◌, refl, List, [], ◌∷◌, some, arith, Option-cases, Bool-cases, inl, inr, le→leb, ltb, All,
  if◌then◌else◌, ◌>>=◌,
}
use udpspeeder.Text.{ℤ, string_to_vec}
use udpspeeder.Param.{RsParameter, FecParameter, copy_fec}
use udpspeeder.Param.Table.{
  ascending, fill, fill_first, fill_rest, last_x, check_pairs, rs_from_pairs,
}
use udpspeeder.Param.Laws.{FitsInt, IsTable, rs_from_pairs-IsTable}
use udpspeeder.Param.Str.{scan_pairs, rs_from_str}

-- The pairs that stand in a text have sums that are an `int`.
abbrev pub SumsFit : List ℕ → Type 0
SumsFit s = (ps : List (ℤ × ℤ)) → scan_pairs (string_to_vec s b',') ≡ some ps → All FitsInt ps

-- A text that is parsed into some parameters is parsed into all, gives a good table, and leaves the other
-- fields.
pub record Parsed (par : FecParameter) (s : List ℕ) (par' : FecParameter) : Type 0 where
  pub table : IsTable 255 par'
  pub fields : par' ≡ record par { rs_cnt = par'.rs_cnt; rs_par = par'.rs_par }
  pub others : (q : FecParameter) → (q' : FecParameter) × (rs_from_str q s ≡ some q')

fill-others :
    (par par' : FecParameter) (ps : List RsParameter)
    → fill par ps ≡ some par'
    → (par' ≡ record par { rs_cnt = par'.rs_cnt; rs_par = par'.rs_par })
      × ((q : FecParameter) → (q' : FecParameter) × (fill q ps ≡ some q'))
unfolding fill
fill-others par par' [] h = cc
fill-others par par' (p ∷ ps) h = elim (Bool-cases (ascending p ps)) [
  | inl up ↦ (
    ground (arith, up, h),
    λ q. (
      record q { rs_par = fill_rest p ps (fill_first p.y 1 p.x q.rs_par); rs_cnt = last_x p ps },
      rw up refl,
    ),
  )
  | inr down ↦ absurd (cc (rw down at h))
]

pub rs_from_str-Parsed :
    (par par' : FecParameter) (s : List ℕ)
    → SumsFit s
    → rs_from_str par s ≡ some par'
    → Parsed par s par'
unfolding rs_from_str rs_from_pairs
rs_from_str-Parsed par par' s fits h = elim (Option-cases (scan_pairs (string_to_vec s b','))) [
  | inl bad ↦ absurd (cc (rw (rs_from_str, bad) at h))
  | inr (ps, read) ↦
      let pairs : rs_from_pairs par ps ≡ some par' = rw (rs_from_str, read, ◌>>=◌) at h in
      elim (Option-cases (check_pairs ps)) [
        | inl wrong ↦ absurd (cc (rw (rs_from_pairs, wrong) at pairs))
        | inr (qs, good) ↦
            let filled : fill par qs ≡ some par' = rw (rs_from_pairs, good) at pairs in
            let (fields, others) = fill-others par par' qs filled in
            record {
              table = rs_from_pairs-IsTable par par' ps (fits ps read) pairs;
              fields = fields;
              others = λ q.
                  let (q', e) = others q in
                  (q', rw (rs_from_str, read, ◌>>=◌, rs_from_pairs, good) e);
            }
      ]
]

pub copy_fec-copied :
    (p other : FecParameter)
    → IsTable 255 other
    → (p' : FecParameter) × (copy_fec p other ≡ some p')
      × IsTable 255 p'
      × (p' ≡ record p { rs_cnt = p'.rs_cnt; rs_par = p'.rs_par })
unfolding copy_fec
copy_fec-copied p other h = (
  record p {
    rs_cnt = other.rs_cnt;
    rs_par = λ i. if ltb i other.rs_cnt then other.rs_par i else p.rs_par i;
  },
  rw (le→leb 1 other.rs_cnt h.not_empty) refl,
  record { not_empty = h.not_empty; rows = λ i b. ground (arith, h.rows i) },
  refl,
)
