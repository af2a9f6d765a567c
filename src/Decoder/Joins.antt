-- ===== src/Decoder/Joins.antt =====
-- A shard of a group of mode 0 is let in by `input`: the first one, and each later one that is new.
use udpspeeder.Base.{
  ℕ, ◌≤◌, ◌<◌, ◌≡◌, ◌≢◌, refl, ◌∙◌, true, false, List, [], some, length, arith, ltb, ◌==◌, ◌&&◌,
  ◌>>=◌,
}
use udpspeeder.Replay.{is_valid}
use udpspeeder.Group.{Group, init}
use udpspeeder.Rs.{Codec}
use udpspeeder.Decoder.Wire.{Header}
use udpspeeder.Decoder.State.{
  Decoder, ok, group_at, put_group, find_or_create, recycle, place, advance, join_group,
}
use udpspeeder.Decoder.{take_shard, finish}
use udpspeeder.Decoder.Collect.{
  header, Gathered, memb, opened, join_first, join_again, opened-Known, group_at-put_group_self,
  recycle_keeps,
}

-- The group is not known yet, and `d` has no entry of it from `index` on.
pub record Fresh (seq : ℕ) (d : Decoder) : Type 0 where
  pub valid : is_valid d.anti_replay seq ≡ true
  pub idle : d.ready_for_output ≡ false
  pub unknown : (group_at d seq).seq ≢ seq
  pub ahead : (i : ℕ) → d.index ≤ i → (d.fec_data i).used ≡ true → (d.fec_data i).seq ≢ seq

module _ (codec : Codec) (seq k r size : ℕ) (content : ℕ → List ℕ) where
  abbrev pub hdr : ℕ → Header
  hdr = header seq k r size content

  abbrev pub Got : List ℕ → Decoder → Type 0
  Got = Gathered seq k r size content

  put_same : (d : Decoder) (is : List ℕ) → Got is d → Got is (put_group d seq (group_at d seq))
  unfolding put_group
  put_same d is h =
      let e = group_at-put_group_self d seq (group_at d seq) in
      record {
        valid = h.valid;
        idle = h.idle;
        known = rw e h.known;
        stored = λ j m. rw e (h.stored j m);
        ahead = h.ahead;
      }

  -- From the look-up on, a shard that may join is placed.
  take_shard-place :
      (d d1 : Decoder) (g : Group) (is : List ℕ) (i : ℕ)
      → find_or_create d seq ≡ d1
      → join_group (group_at d1 seq) (hdr i) (length (content i))
        ≡ record { go_on = true; group = g }
      → Got is (put_group d1 seq g)
      → (put_group d1 seq g).index < (put_group d1 seq g).fec_buff_num
      → take_shard codec (hdr i) (content i) d ≡ (
          finish codec
            (hdr i)
            (content i)
            (place (recycle (put_group d1 seq g)) (hdr i) (content i))
          >>= λ d4. some (ok, advance d4))
  unfolding take_shard
  take_shard-place d d1 g is i found joined h room = rw (found, joined) (rw (other, fits) refl)
    where
      d2 : Decoder
      d2 = put_group d1 seq g

      other : ((d2.fec_data d2.index).used && (d2.fec_data d2.index).seq == seq) ≡ false
      other = ground (arith, h.ahead d2.index)

      fits : ltb (recycle d2).index (recycle d2).fec_buff_num ≡ true
      fits = ground (arith, recycle_keeps d2)

  -- The first shard opens the group.
  open_group :
      (d : Decoder)
      → Fresh seq d
      → (find_or_create d seq ≡ put_group d seq (init (group_at d seq) seq))
        × Got [] (
            put_group
              (put_group d seq (init (group_at d seq) seq))
              seq
              (opened seq k r size content (group_at d seq)))
  unfolding find_or_create
  open_group d h = (
    ground (arith, h.unknown),
    (unfold put_group in
        record {
          valid = h.valid;
          idle = h.idle;
          known =
              rw (group_at-put_group_self made seq g)
                (opened-Known seq k r size content (group_at d seq));
          stored = λ j m. cc;
          ahead = h.ahead;
        }),
  )
    where
      made : Decoder
      made = put_group d seq (init (group_at d seq) seq)

      g : Group
      g = opened seq k r size content (group_at d seq)

  put_group_keeps :
      (d : Decoder) (g : Group)
      → ((put_group d seq g).index ≡ d.index) × ((put_group d seq g).fec_buff_num ≡ d.fec_buff_num)
  unfolding put_group
  put_group_keeps d g = (refl, refl)

  -- The shard `i` is let in: `input` goes on from a decoder that holds the shards `is`.
  pub record Joins (is : List ℕ) (i : ℕ) (d : Decoder) : Type 0 where
    pub state : Decoder
    pub same_index : state.index ≡ d.index
    pub same_num : state.fec_buff_num ≡ d.fec_buff_num
    pub held : Got is state
    pub goes_on : take_shard codec (hdr i) (content i) d ≡ (
        finish codec (hdr i) (content i) (place (recycle state) (hdr i) (content i)) >>= λ d4.
        some (ok, advance d4))

  pub first_Joins :
      (d : Decoder) (i : ℕ)
      → Fresh seq d
      → k ≢ 0
      → length (content i) ≡ size
      → d.index < d.fec_buff_num
      → Joins [] i d
  first_Joins d i h pos full room =
      let made = put_group d seq (init (group_at d seq) seq) in
      let g = opened seq k r size content (group_at d seq) in
      let (found, got) = open_group d h in
      let e1 = put_group_keeps d (init (group_at d seq) seq) in
      let e2 = put_group_keeps made g in
      record {
        state = put_group made seq g;
        same_index = e2.0 ∙ e1.0;
        same_num = e2.1 ∙ e1.1;
        held = got;
        goes_on =
            take_shard-place d made g [] i found
              (rw (group_at-put_group_self d seq (init (group_at d seq) seq), full)
                (join_first seq k r size content (group_at d seq) i pos))
              got (omega (arith, e2.0, e2.1, e1.0, e1.1));
      }

  found_again : (d : Decoder) (is : List ℕ) → Got is d → find_or_create d seq ≡ d
  unfolding find_or_create
  found_again d is h = ground (arith, h.known.own)

  pub next_Joins :
      (d : Decoder) (is : List ℕ) (i : ℕ)
      → Got is d
      → k ≢ 0
      → length (content i) ≡ size
      → memb i is ≡ false
      → d.index < d.fec_buff_num
      → Joins is i d
  next_Joins d is i h pos full new room =
      let e = put_group_keeps d (group_at d seq) in
      record {
        state = put_group d seq (group_at d seq);
        same_index = e.0;
        same_num = e.1;
        held = put_same d is h;
        goes_on =
            take_shard-place d d (group_at d seq) is i (found_again d is h)
              (rw full (join_again seq k r size content (group_at d seq) is i h.known pos new))
              (put_same d is h) (omega (arith, e.0, e.1));
      }
