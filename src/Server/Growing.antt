-- ===== src/Server/Growing.antt =====
-- A connection of the server gets one more conversation with a socket of its own.
use udpspeeder.Base.{
  ℕ, ◌+◌, ◌^◌, ◌≤◌, ◌<◌, ◌≡◌, ◌≢◌, refl, ◌∙◌, sym, ap, false, none, some, length, All, arith,
  Bool-cases, Option-cases, ◌==◌, inl, inr,
}
use udpspeeder.Dict.{find}
use udpspeeder.Dict.Laws.{erase-absent}
use udpspeeder.Handles.{Handles, fd_exist, to_fd}
use udpspeeder.Handles.Links.{Linked}
use udpspeeder.Convs.{Convs, is_conv_used, is_data_used, insert_conv}
use udpspeeder.Convs.Links.{insert_conv-Kept}
use udpspeeder.Server.{FdInfo, create_watched}
use udpspeeder.Server.Sockets.{Extends, Extends-Registered, create_watched-Registered}
use udpspeeder.Server.Table.{Served, insert_conv-fields}

-- The handles `h'` and the conversations `m'` that `create_watched` and `insert_conv` leave.
pub record Grown (addr conv fd now : ℕ) (h : Handles FdInfo) (m : Convs) (h' : Handles FdInfo)
    (m' : Convs) : Type 0 where
  pub made : create_watched h fd addr ≡ some (h', h.counter)
  pub inserted : insert_conv m conv h.counter now ≡ some m'
  pub linked : Linked FdInfo h'
  pub served : Served addr h' m'
  pub counter : h'.counter ≡ h.counter + 1
  pub bound : find m'.conv_to_data conv ≡ some h.counter
  pub is_open : to_fd FdInfo h' h.counter ≡ some fd
  pub early : All (λ e. e.ts ≤ now) m'.lru
  pub extends : Extends h h'
  pub rest : (c : ℕ) → c ≢ conv → find m'.conv_to_data c ≡ find m.conv_to_data c
  pub longer : length m'.conv_to_data ≡ length m.conv_to_data + 1
  pub other_fds : (fd' : ℕ) → fd' ≢ fd → fd_exist FdInfo h' fd' ≡ fd_exist FdInfo h fd'

module _ (addr conv fd now : ℕ) (h : Handles FdInfo) (m : Convs) where
  -- A handle that is not open stands for no conversation.
  no_data : Served addr h m → to_fd FdInfo h h.counter ≡ none → is_data_used m h.counter ≡ false
  unfolding is_data_used
  no_data s fresh = elim (Option-cases (find m.data_to_conv h.counter)) [
    | inl free ↦ rw free refl
    | inr (c, held) ↦
        let r = s.bound c h.counter (s.kept.there h.counter c held) in
        absurd (cc (r.is_open, fresh))
  ]

  pub grow-Grown :
      Linked FdInfo h
      → Served addr h m
      → All (λ e. e.ts ≤ now) m.lru
      → fd_exist FdInfo h fd ≡ false
      → h.counter + 1 < 2 ^ 64
      → find m.conv_to_data conv ≡ none
      → conv < 2 ^ 32
      → (h' : Handles FdInfo) × (m' : Convs) × Grown addr conv fd now h m h' m'
  unfolding is_conv_used
  grow-Grown l s early unused room missing small =
      let (h', made, linked, counter, fresh, is_open, registered, extends, other_fds) =
        create_watched-Registered h fd addr l unused room in
      let no_conv : is_conv_used m conv ≡ false = rw missing refl in
      let (m', inserted, kept, bound, to_conv, to_data, early', at_now, rest) =
        insert_conv-Kept m conv h.counter now s.kept no_conv (no_data s fresh) early small in
      let (shape, flag, calls) = insert_conv-fields m m' conv h.counter now inserted in
      (
        h',
        m',
        record {
          made = made;
          inserted = inserted;
          linked = linked;
          served = record {
            kept = kept;
            notifies = flag ∙ s.notifies;
            settled = calls ∙ s.settled;
            bound = λ c d e. elim (Bool-cases (c == conv)) [
              | inl hit ↦
                  let here : c ≡ conv = ground (arith, hit) in
                  let same : d ≡ h.counter = cc (e, bound, here) in rw same registered
              | inr miss ↦
                  let ne : c ≢ conv = ground (arith, miss) in
                  Extends-Registered addr h h' d extends (s.bound c d (sym (rest c ne) ∙ e))
            ];
          };
          counter = counter;
          bound = bound;
          is_open = is_open;
          early = early';
          extends = extends;
          rest = rest;
          longer = ap length shape ∙ omega (arith, erase-absent m.conv_to_data conv missing);
          other_fds = other_fds;
        },
      )
