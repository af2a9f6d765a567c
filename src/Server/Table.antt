-- ===== src/Server/Table.antt =====
-- The conversations of one connection of the server with their handles, as a table of sockets.
use udpspeeder.Base.{
  ℕ, ◌≡◌, refl, ◌∙◌, true, false, List, [], ◌∷◌, Option, none, some, length, leb, ◌>>=◌,
  Option-cases, Bool-cases, inl, inr, ◌==◌, arith,
}
use udpspeeder.Dict.{Binding, find, put}
use udpspeeder.Lru
use udpspeeder.Handles.{Handles, to_fd}
use udpspeeder.Convs.{Convs, get_size, insert_conv}
use udpspeeder.Convs.Links.{Kept}
use udpspeeder.Tunnel.Client.{max_conv_num}
use udpspeeder.Server.{FdInfo}
use udpspeeder.Server.Sockets.{Registered, Extends, Extends-Registered}

-- A table of sockets by the numbers of their conversations, told apart from the code: the socket of a
-- conversation, with the table after it; a new one is entered if the table has room and a socket is opened.
abbrev pub socket_for :
    (opened : Option ℕ) → List (Binding ℕ) → (conv : ℕ) → Option (ℕ × List (Binding ℕ))
socket_for opened known conv = elim (find known conv) [
  | some fd ↦ some (fd, known)
  | none ↦ elim (leb max_conv_num (length known)) [
    | true ↦ none
    | false ↦ elim opened [
      | none ↦ none
      | some fd ↦ some (fd, record { name = conv; value = fd } ∷ known)
    ]
  ]
]

-- The conversations and handles of a connection stand for such a table.
pub record Shows (m : Convs) (h : Handles FdInfo) (known : List (Binding ℕ)) : Type 0 where
  pub sockets : (c : ℕ) → find known c ≡ (find m.conv_to_data c >>= to_fd FdInfo h)
  pub size : get_size m ≡ length known

-- Every conversation has an open handle of its own for the address of the connection, which the clear
-- function will close; no call of that is left over.
pub record Served (addr : ℕ) (h : Handles FdInfo) (m : Convs) : Type 0 where
  pub kept : Kept m
  pub notifies : m.additional_clear_function ≡ true
  pub settled : m.closed ≡ []
  pub bound : (c d : ℕ) → find m.conv_to_data c ≡ some d → Registered addr h d

pub Extends-Served :
    (addr : ℕ) (h h' : Handles FdInfo) (m : Convs)
    → Extends h h'
    → Served addr h m
    → Served addr h' m
Extends-Served addr h h' m e s = record {
  kept = s.kept;
  notifies = s.notifies;
  settled = s.settled;
  bound = λ c d p. Extends-Registered addr h h' d e (s.bound c d p);
}

pub Extends-Shows :
    (addr : ℕ) (h h' : Handles FdInfo) (m : Convs) (known : List (Binding ℕ))
    → Extends h h'
    → Served addr h m
    → Shows m h known
    → Shows m h' known
Extends-Shows addr h h' m known e s w = record {
  sockets = λ c. elim (Option-cases (find m.conv_to_data c)) [
    | inl missing ↦ w.sockets c ∙ rw missing refl
    | inr (d, given) ↦
        let r = s.bound c d given in
        w.sockets c ∙ rw (given, ◌>>=◌, r.is_open, e.same_fd d r.fd r.is_open) refl
  ];
  size = w.size;
}

-- What insert_conv leaves of the fields that its invariant does not speak of.
pub insert_conv-fields :
    (m m' : Convs) (c d now : ℕ)
    → insert_conv m c d now ≡ some m'
    → (m'.conv_to_data ≡ put m.conv_to_data c d)
      × (m'.additional_clear_function ≡ m.additional_clear_function)
      × (m'.closed ≡ m.closed)
unfolding insert_conv
insert_conv-fields m m' c d now e = elim (Option-cases (Lru.new_key m.lru c now)) [
  | inl failed ↦ absurd (cc (rw failed at e))
  | inr (q, made) ↦ (cc (rw made at e), cc (rw made at e), cc (rw made at e))
]

-- The table of conversations that have open handles.
abbrev pub shown : Handles FdInfo → List (Binding ℕ) → List (Binding ℕ)
shown h [] = []
shown h (b ∷ m) =
    record { name = b.name; value = elim (to_fd FdInfo h b.value) [ none ↦ 0 | some fd ↦ fd ] }
    ∷ shown h m

find-shown :
    (h : Handles FdInfo) (m : List (Binding ℕ)) (c : ℕ)
    → ((d : ℕ) → find m c ≡ some d → (fd : ℕ) × (to_fd FdInfo h d ≡ some fd))
    → find (shown h m) c ≡ (find m c >>= to_fd FdInfo h)
find-shown h [] c good = refl
find-shown h (b ∷ m) c good = elim (Bool-cases (b.name == c)) [
  | inl hit ↦ let (fd, is_open) = good b.value (rw hit refl) in rw hit (rw (is_open, ◌>>=◌) refl)
  | inr miss ↦ rw miss (find-shown h m c (λ d e. good d (rw miss e)))
]

length-shown : (h : Handles FdInfo) (m : List (Binding ℕ)) → length m ≡ length (shown h m)
length-shown h [] = refl
length-shown h (b ∷ m) = omega (arith, length-shown h m)

pub shown-Shows :
    (addr : ℕ) (h : Handles FdInfo) (m : Convs)
    → Served addr h m
    → Shows m h (shown h m.conv_to_data)
unfolding get_size
shown-Shows addr h m s = record {
  sockets = λ c. find-shown h m.conv_to_data c (λ d e. let r = s.bound c d e in (r.fd, r.is_open));
  size = length-shown h m.conv_to_data;
}
