-- ===== src/Tests/Parts.antt =====
-- Concrete inputs for the parts: the table of parameters, the search for the number of shards, the
-- replay table, the bitmap of a group, the codes, and the checks of a header.
use udpspeeder.Base.{
  ℕ, ◌+◌, ◌-◌, ◌≤◌, ◌<◌, ◌≡◌, refl, true, false, List, [], ◌∷◌, ◌++◌, Option, none, some, ◌==◌,
  if◌then◌else◌, arith, All,
}
use udpspeeder.Blob.{BlobEncode}
use udpspeeder.Rs.{rs_decode2, present_index}
use udpspeeder.Rs.Recover.{rs_decode2_recovers}
use udpspeeder.Replay.{is_valid, clear}
use udpspeeder.Replay.Laws.{set_all, refused_until_evicted, Spares-window}
use udpspeeder.Group.{init, has_shard, set_shard}
use udpspeeder.Group.Shards.{has_shard-set_shard}
use udpspeeder.Param.{FecParameter, RsParameter}
use udpspeeder.Text.{ℤ}
use udpspeeder.Param.Table.{
  is_over, check_pair, check_pairs, ascending, fill, last_x, rs_from_pairs, fill_first, fill_rest,
}
use udpspeeder.Param.Line.{Follows, rs_from_pairs-Follows, rs_from_pairs_overflow}
use udpspeeder.Param.Laws.{ints, IsTable, rs_from_pairs-IsTable}
use udpspeeder.Decoder.State.{fail}
use udpspeeder.Decoder
use udpspeeder.Link.Full.{Short, full_group_refused}
use udpspeeder.Encoder.Flush.{with_headers}
use udpspeeder.Base.Bits.{pow2}
use udpspeeder.Decoder.State.{table_size}
use udpspeeder.Decoder.TableSize.{table_size-covers}
use udpspeeder.Tests.Codecs.{sum_codec, sum_codec-Corrects}
use udpspeeder.Tests.Groups.{zeros, empty_group, decoder}

abbrev data_shards : List (List ℕ)
data_shards = (7 ∷ 1 ∷ []) ∷ (8 ∷ 9 ∷ []) ∷ []

abbrev one_lost : List (Option (List ℕ))
one_lost = none ∷ some (8 ∷ 9 ∷ []) ∷ some (15 ∷ 10 ∷ []) ∷ []

rs_decode2_recovers_example : rs_decode2 sum_codec 2 3 one_lost 2 ≡ some data_shards
unfolding present_index
rs_decode2_recovers_example =
    rs_decode2_recovers sum_codec 2 3 data_shards 2 one_lost sum_codec-Corrects refl
      (refl, (refl, tt)) (omega arith) refl (refl, (refl, tt)) (omega arith)

abbrev blank : FecParameter
blank = record {
  version = 0;
  mtu = 1250;
  queue_len = 200;
  timeout = 8000;
  mode = 0;
  rs_cnt = 0;
  rs_par = λ i. record { x = 0; y = 0 };
}

-- The setting `1:3,2:1`.
abbrev small_table : FecParameter
small_table = record blank {
  rs_cnt = 2;
  rs_par =
      fill_rest (record { x = 1; y = 3 }) (record { x = 2; y = 1 } ∷ [])
        (fill_first 3 1 1 blank.rs_par);
}

abbrev pairs : List (ℤ × ℤ)
pairs = (ℤ.pos 1, ℤ.pos 3) ∷ (ℤ.pos 2, ℤ.pos 1) ∷ []

small_table_lem : rs_from_pairs blank pairs ≡ some small_table
unfolding rs_from_pairs check_pairs check_pair is_over fill ascending
small_table_lem = refl

small_table-IsTable : IsTable 255 small_table
small_table-IsTable =
    rs_from_pairs-IsTable blank small_table pairs (omega arith, (omega arith, tt)) small_table_lem

-- The setting `1:3,10:6`.
abbrev line_pairs : List (ℤ × ℤ)
line_pairs = (ℤ.pos 1, ℤ.pos 3) ∷ (ℤ.pos 10, ℤ.pos 6) ∷ []

abbrev line_table : FecParameter
line_table = record blank {
  rs_cnt = 10;
  rs_par =
      fill_rest (record { x = 1; y = 3 }) (record { x = 10; y = 6 } ∷ [])
        (fill_first 3 1 1 blank.rs_par);
}

line_table_lem : rs_from_pairs blank line_pairs ≡ some line_table
unfolding rs_from_pairs check_pairs check_pair is_over fill ascending
line_table_lem = refl

rs_from_pairs-Follows_example :
    (p : RsParameter) × (ps : List RsParameter) × (line_pairs ≡ ints (p ∷ ps))
    × ((l : ℕ) → l < p.x → line_table.rs_par l ≡ record { x = l + 1; y = p.y })
    × Follows line_table.rs_par p ps
    × (10 ≡ last_x p ps)
    × IsTable 255 line_table
rs_from_pairs-Follows_example =
    rs_from_pairs-Follows blank line_table line_pairs (omega arith, (omega arith, tt))
      line_table_lem

-- The setting `2147483647:1`.
rs_from_pairs_overflow_example :
    (par' : FecParameter) × (rs_from_pairs blank ((ℤ.pos 2147483647, ℤ.pos 1) ∷ []) ≡ some par')
    × (par'.rs_cnt ≡ 255)
    × ((l : ℕ) → l < 255 → par'.rs_par l ≡ record { x = l + 1; y = 1 })
rs_from_pairs_overflow_example =
    rs_from_pairs_overflow blank 2147483647 1 (omega arith) (omega arith) (omega arith)

abbrev blob : BlobEncode
blob = record { input_buf = zeros; current_len = 900; counter = 3 }

abbrev straight : FecParameter
straight = record blank { rs_cnt = 3; rs_par = λ i. record { x = i + 1; y = 3 - i } }

refused_until_evicted_example :
    is_valid (set_all clear ((9 ∷ []) ++ 5 ∷ (6 ∷ 32767 ∷ []))) 5 ≡ false
refused_until_evicted_example = refused_until_evicted clear (9 ∷ []) (6 ∷ 32767 ∷ []) 5 (
  Spares-window 5 6 (omega arith) (omega arith),
  (Spares-window 5 32767 (omega arith) (omega arith), tt),
)

has_shard-set_shard_example :
    has_shard (set_shard (init empty_group 5) 40 3) 40
    ≡ (if 40 == 40 then true else has_shard (init empty_group 5) 40)
has_shard-set_shard_example = has_shard-set_shard (init empty_group 5) 40 3 40

-- The setting `20:235`.
full_group_refused_example :
    (par' : FecParameter) × (rs_from_pairs blank ((ℤ.pos 20, ℤ.pos 235) ∷ []) ≡ some par')
    × (par'.rs_cnt ≡ 20)
    × (par'.rs_par 19 ≡ record { x = 20; y = 235 })
    × ((seq type : ℕ) (ss : List (List ℕ))
        → Short ss
        → (let row = par'.rs_par 19 in
            All
              (λ (p : List ℕ). Decoder.input sum_codec decoder p ≡ some (fail, decoder))
              (with_headers seq type row.x row.y 0 ss)))
full_group_refused_example =
    full_group_refused sum_codec decoder blank 20 (omega arith) (omega arith)

-- The default of the source.
table_size-covers_example : (j : ℕ) × (table_size 2000 ≡ pow2 j) × (4000 ≤ table_size 2000)
table_size-covers_example = table_size-covers 2000 (omega arith)
