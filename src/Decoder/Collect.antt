-- ===== src/Decoder/Collect.antt =====
-- The group table under the steps of `input`.
use udpspeeder.Base.{
  ℕ, ◌+◌, ◌≤◌, ◌<◌, ◌≡◌, ◌≢◌, refl, ◌∙◌, Bool, true, false, List, [], ◌∷◌, some, length, arith,
  ◌==◌, if◌then◌else◌,
}
use udpspeeder.Replay.{is_valid}
use udpspeeder.Replay.Laws.{set_invaild_other}
use udpspeeder.Group.{Group, init, has_shard, set_shard}
use udpspeeder.Group.Shards.{has_shard-init, has_shard-set_shard}
use udpspeeder.Decoder.Wire.{Header}
use udpspeeder.Decoder.State.{
  Decoder, slot, group_at, put_group, group_erase, recycle, place, advance, join_group, join_type,
  join_numbers,
}

pub group_at-put_group :
    (d : Decoder) (seq : ℕ) (g : Group) (s : ℕ)
    → group_at (put_group d seq g) s ≡ (if slot d s == slot d seq then g else group_at d s)
unfolding group_at put_group
group_at-put_group d seq g s = refl

pub group_at-put_group_self :
    (d : Decoder) (seq : ℕ) (g : Group) → group_at (put_group d seq g) seq ≡ g
unfolding group_at put_group
group_at-put_group_self d seq g = ground arith

-- Closing another group leaves the group of `s` in its slot.
pub group_at-recycle :
    (d : Decoder) (s : ℕ)
    → (group_at d s).seq ≡ s
    → ((d.fec_data d.index).used ≡ true → (d.fec_data d.index).seq ≢ s)
    → group_at (recycle d) s ≡ group_at d s
unfolding recycle group_erase group_at put_group slot
group_at-recycle d s own other = ground arith

pub recycle_keeps :
    (d : Decoder)
    → ((recycle d).fec_data ≡ d.fec_data)
      × ((recycle d).index ≡ d.index)
      × ((recycle d).fec_buff_num ≡ d.fec_buff_num)
      × ((recycle d).ready_for_output ≡ d.ready_for_output)
      × ((recycle d).blob_decode ≡ d.blob_decode)
unfolding recycle group_erase put_group
recycle_keeps d = ground arith

-- The numbers in a list, as a test.
abbrev pub memb : ℕ → List ℕ → Bool
memb j [] = false
memb j (i ∷ is) = if j == i then true else memb j is

-- A group of mode 0 with `k` data shards and `r` redundant ones of `size` bytes, whose shard `i` has
-- the bytes `content i`.
module _ (seq k r size : ℕ) (content : ℕ → List ℕ) where
  abbrev pub header : ℕ → Header
  header i = record { seq = seq; type = 0; data_num = k; redundant_num = r; inner_index = i }

  -- The group has got the shards `is`.
  pub record Known (is : List ℕ) (g : Group) : Type 0 where
    pub own : g.seq ≡ seq
    pub mode : g.type ≡ some 0
    pub shards_data : g.data_num ≡ some k
    pub shards_redundant : g.redundant_num ≡ some r
    pub shards_len : g.len ≡ some size
    pub pending : g.fec_done ≡ false
    pub counted : g.shard_count ≡ length is
    pub members : (j : ℕ) → has_shard g j ≡ memb j is

  -- The decoder before the next shard: the shards so far stand in entries before `index`, and no entry
  -- from `index` on is one of this group.
  pub record Gathered (is : List ℕ) (d : Decoder) : Type 0 where
    pub valid : is_valid d.anti_replay seq ≡ true
    pub idle : d.ready_for_output ≡ false
    pub known : Known is (group_at d seq)
    pub stored :
        (j : ℕ)
        → memb j is ≡ true
        → ((group_at d seq).shard_idx j < d.index)
          × ((d.fec_data ((group_at d seq).shard_idx j)).buf ≡ content j)
    pub ahead : (i : ℕ) → d.index ≤ i → (d.fec_data i).used ≡ true → (d.fec_data i).seq ≢ seq

  -- What the first shard makes of the group in its slot.
  abbrev pub opened : Group → Group
  opened g = record (init g seq) {
    type = some 0;
    data_num = some k;
    redundant_num = some r;
    len = some size;
  }

  pub join_first :
      (g : Group) (i : ℕ)
      → k ≢ 0
      → join_group (init g seq) (header i) size ≡ record { go_on = true; group = opened g }
  unfolding join_group join_type join_numbers init
  join_first g i pos = ground (arith, has_shard-init g seq i)

  has_shard-opened : (g : Group) (j : ℕ) → has_shard (opened g) j ≡ has_shard (init g seq) j
  unfolding has_shard
  has_shard-opened g j = refl

  pub opened-Known : (g : Group) → Known [] (opened g)
  unfolding init
  opened-Known g = record {
    own = refl;
    mode = refl;
    shards_data = refl;
    shards_redundant = refl;
    shards_len = refl;
    pending = refl;
    counted = refl;
    members = λ j. has_shard-opened g j ∙ has_shard-init g seq j;
  }

  pub join_again :
      (g : Group) (is : List ℕ) (i : ℕ)
      → Known is g
      → k ≢ 0
      → memb i is ≡ false
      → join_group g (header i) size ≡ record { go_on = true; group = g }
  unfolding join_group join_type join_numbers
  join_again g is i h pos new = ground (arith, h.members i)

  -- The group that `place` writes back.
  abbrev pub grown : Group → ℕ → ℕ → Group
  grown g i v = record (set_shard g i v) { shard_count = (set_shard g i v).shard_count + 1 }

  has_shard-grown :
      (g : Group) (i v j : ℕ) → has_shard (grown g i v) j ≡ has_shard (set_shard g i v) j
  unfolding has_shard
  has_shard-grown g i v j = refl

  grown-Known : (g : Group) (is : List ℕ) (i v : ℕ) → Known is g → Known (i ∷ is) (grown g i v)
  unfolding set_shard
  grown-Known g is i v h = record {
    own = h.own;
    mode = h.mode;
    shards_data = h.shards_data;
    shards_redundant = h.shards_redundant;
    shards_len = h.shards_len;
    pending = h.pending;
    counted = omega (arith, h.counted);
    members =
        λ j. has_shard-grown g i v j ∙ has_shard-set_shard g i v j ∙ ground (arith, h.members j);
  }

  -- The placed shard: as `Gathered`, with the entry at `index` taken.
  pub record Placed (is : List ℕ) (d : Decoder) : Type 0 where
    pub valid : is_valid d.anti_replay seq ≡ true
    pub idle : d.ready_for_output ≡ false
    pub known : Known is (group_at d seq)
    pub stored :
        (j : ℕ)
        → memb j is ≡ true
        → ((group_at d seq).shard_idx j ≤ d.index)
          × ((d.fec_data ((group_at d seq).shard_idx j)).buf ≡ content j)
    pub ahead : (i : ℕ) → d.index < i → (d.fec_data i).used ≡ true → (d.fec_data i).seq ≢ seq

  recycle-valid :
      (d : Decoder)
      → is_valid d.anti_replay seq ≡ true
      → ((d.fec_data d.index).used ≡ true → (d.fec_data d.index).seq ≢ seq)
      → is_valid (recycle d).anti_replay seq ≡ true
  unfolding recycle group_erase put_group
  recycle-valid d v other =
      ground (arith, set_invaild_other d.anti_replay (d.fec_data d.index).seq seq)

  group_at-place :
      (d : Decoder) (i : ℕ) (payload : List ℕ)
      → group_at (place d (header i) payload) seq ≡ grown (group_at d seq) i d.index
  unfolding place group_at put_group
  group_at-place d i payload = ground arith

  pub place_keeps :
      (d : Decoder) (i : ℕ) (payload : List ℕ)
      → ((place d (header i) payload).anti_replay ≡ d.anti_replay)
        × ((place d (header i) payload).index ≡ d.index)
        × ((place d (header i) payload).fec_buff_num ≡ d.fec_buff_num)
        × ((place d (header i) payload).ready_for_output ≡ d.ready_for_output)
  unfolding place put_group
  place_keeps d i payload = (refl, refl, refl, refl)

  fec_data-place :
      (d : Decoder) (i : ℕ) (payload : List ℕ) (j : ℕ)
      → (j ≢ d.index → (place d (header i) payload).fec_data j ≡ d.fec_data j)
        × (((place d (header i) payload).fec_data d.index).buf ≡ payload)
  unfolding place put_group
  fec_data-place d i payload j = ground arith

  pub recycle-Gathered : (is : List ℕ) (d : Decoder) → Gathered is d → Gathered is (recycle d)
  recycle-Gathered is d h =
      let (data_eq, index_eq, num_eq, ready_eq, blob_eq) = recycle_keeps d in
      let other = h.ahead d.index (omega arith) in
      let group_eq = group_at-recycle d seq h.known.own other in
      record {
        valid = recycle-valid d h.valid other;
        idle = ready_eq ∙ h.idle;
        known = rw group_eq h.known;
        stored = λ j m. rw (group_eq, data_eq, index_eq) (h.stored j m);
        ahead = λ i. rw (data_eq, index_eq) (h.ahead i);
      }

  -- A new shard is stored beside the others.
  pub place-Placed :
      (is : List ℕ) (i : ℕ) (d : Decoder)
      → Gathered is d
      → Placed (i ∷ is) (place d (header i) (content i))
  unfolding set_shard
  place-Placed is i d h =
      let (replay_eq, index_eq, num_eq, ready_eq) = place_keeps d i (content i) in
      let group_eq = group_at-place d i (content i) in
      record {
        valid = rw replay_eq h.valid;
        idle = ready_eq ∙ h.idle;
        known = rw group_eq (grown-Known (group_at d seq) is i d.index h.known);
        stored = λ j m.
            rw (group_eq, index_eq)
              (ground
                (arith, h.stored j, fec_data-place d i (content i) ((group_at d seq).shard_idx j)));
        ahead = λ j later.
            let beyond : d.index < j = omega (arith, later, index_eq) in
            rw ((fec_data-place d i (content i) j).0 (omega arith)) (h.ahead j (omega arith));
      }

  pub advance-Gathered :
      (is : List ℕ) (d : Decoder)
      → Placed is d
      → d.index + 1 < d.fec_buff_num
      → Gathered is (advance d)
  unfolding advance group_at
  advance-Gathered is d h more = record {
    valid = h.valid;
    idle = h.idle;
    known = h.known;
    stored = λ j m. ground (arith, h.stored j);
    ahead = λ j later. ground (arith, h.ahead j);
  }

pub advance_next :
    (d : Decoder)
    → d.index + 1 < d.fec_buff_num
    → ((advance d).index ≡ d.index + 1) × ((advance d).fec_buff_num ≡ d.fec_buff_num)
unfolding advance
advance_next d h = ground arith
