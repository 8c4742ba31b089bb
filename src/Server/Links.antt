-- ===== src/Server/Links.antt =====
-- The chain of connections of libmixp/server.c under `ixp_listen` and `mixp_hangup`.
use libmixp.Base.{
  ℕ, ◌+◌, ◌<◌, ◌≡◌, ◌≢◌, refl, ap, inl, inr, Bool, true, false, none, some, List, [], ◌∷◌, ◌++◌,
  ◌⊎◌, ◌==◌, arith, Bool-cases, ==→eq, ==_refl, if_true,
}
use libmixp.Server.{
  Server, with_conn, listen_on, is_linked, unchain, hangup_events, mixp_hangup, next_in, first_of,
}

-- No connection stands in the chain twice.
abbrev pub Distinct : List ℕ → Type 0
Distinct [] = Unit
Distinct (c ∷ conn) = (is_linked c conn ≡ false) × Distinct conn

pub is_linked-append : (c : ℕ) (front rest : List ℕ) → is_linked c (front ++ c ∷ rest) ≡ true
unfolding is_linked
is_linked-append c [] rest = rw (==_refl c) refl
is_linked-append c (d ∷ front) rest = ground (arith, is_linked-append c front rest)

pub apart-append :
    (c : ℕ) (xs ys : List ℕ)
    → is_linked c (xs ++ ys) ≡ false
    → (is_linked c xs ≡ false) × (is_linked c ys ≡ false)
unfolding is_linked
apart-append c [] ys h = (refl, h)
apart-append c (d ∷ xs) ys h = elim (Bool-cases (d == c)) [
  | inl same ↦ cc (rw same at h)
  | inr other ↦ rw other (apart-append c xs ys (rw other at h))
]

pub append-apart :
    (c : ℕ) (xs ys : List ℕ)
    → is_linked c xs ≡ false
    → is_linked c ys ≡ false
    → is_linked c (xs ++ ys) ≡ false
unfolding is_linked
append-apart c [] ys h k = k
append-apart c (d ∷ xs) ys h k = elim (Bool-cases (d == c)) [
  | inl same ↦ cc (rw same at h)
  | inr other ↦ rw other (append-apart c xs ys (rw other at h) k)
]

apart_head :
    (c d : ℕ) (rest : List ℕ)
    → is_linked d (c ∷ rest) ≡ false
    → ((d == c) ≡ false) × (is_linked d rest ≡ false)
unfolding is_linked
apart_head c d rest h = elim (Bool-cases (c == d)) [
  | inl same ↦ cc (rw same at h)
  | inr other ↦ (ground arith, rw other at h)
]

-- A connection in the middle of a chain stands neither before nor behind it.
pub Distinct-middle :
    (c : ℕ) (front rest : List ℕ)
    → Distinct (front ++ c ∷ rest)
    → (is_linked c front ≡ false) × Distinct (front ++ rest)
unfolding is_linked
Distinct-middle c [] rest (out, h) = (refl, h)
Distinct-middle c (d ∷ front) rest (out, h) =
    let (before, behind) = apart-append d front (c ∷ rest) out in
    let (other, later) = apart_head c d rest behind in
    let (lacks, others) = Distinct-middle c front rest h in
    (rw other lacks, (append-apart d front rest before later, others))

pub unchain-middle :
    (c : ℕ) (front rest : List ℕ)
    → is_linked c front ≡ false
    → unchain c (front ++ c ∷ rest) ≡ front ++ rest
unfolding unchain is_linked
unchain-middle c [] rest h = rw (==_refl c) refl
unchain-middle c (d ∷ front) rest h = elim (Bool-cases (d == c)) [
  | inl same ↦ cc (rw same at h)
  | inr other ↦ rw other (ap (λ (t : List ℕ). d ∷ t) (unchain-middle c front rest (rw other at h)))
]

pub next_in-middle :
    (c : ℕ) (front rest : List ℕ)
    → is_linked c front ≡ false
    → next_in c (front ++ c ∷ rest) ≡ first_of rest
unfolding next_in is_linked first_of
next_in-middle c [] [] h = refl
next_in-middle c [] (e ∷ rest) h = rw (==_refl c) refl
next_in-middle c (d ∷ []) rest h = elim (Bool-cases (d == c)) [
  | inl same ↦ cc (rw same at h)
  | inr other ↦ rw other (next_in-middle c [] rest refl)
]
next_in-middle c (d ∷ e ∷ front) rest h = elim (Bool-cases (d == c)) [
  | inl same ↦ cc (rw same at h)
  | inr other ↦ rw other (next_in-middle c (e ∷ front) rest (rw other at h))
]

-- A linked connection splits its chain.
pub linked_split :
    (c : ℕ) (conn : List ℕ)
    → is_linked c conn ≡ true
    → (front : List ℕ) × (rest : List ℕ) × (conn ≡ front ++ c ∷ rest)
unfolding is_linked
linked_split c [] h = cc
linked_split c (d ∷ conn) h = elim (Bool-cases (d == c)) [
  | inl same ↦ ([], conn, ap (λ (t : ℕ). t ∷ conn) (==→eq d c same))
  | inr other ↦
      let (front, rest, e) = linked_split c conn (rw other at h) in
      (d ∷ front, rest, ap (λ (t : List ℕ). d ∷ t) e)
]

-- The chain has no connection twice, and `next` is an address that is not in it.
pub record IsServer (s : Server) : Type 0 where
  pub distinct : Distinct s.conn
  pub unused : (c : ℕ) → is_linked c s.conn ≡ true → c < s.next

-- What is no longer in the chain has lost one connection and nothing else.
pub record HungUp (c : ℕ) (s t : Server) : Type 0 where
  pub before : List ℕ
  pub behind : List ℕ
  pub was : s.conn ≡ before ++ c ∷ behind
  pub now : t.conn ≡ before ++ behind
  pub kept : (d : ℕ) → d ≢ c → t.conns d ≡ s.conns d
  pub marked : (t.conns c).closed ≡ true
  pub log : t.log ≡ s.log ++ hangup_events (s.conns c) c

abbrev pub hung_up : Server → ℕ → Server
hung_up s c = record s {
  conn = unchain c s.conn;
  conns = with_conn s.conns c (record (s.conns c) { closed = true });
  log = s.log ++ hangup_events (s.conns c) c;
}

pub hangup_some :
    (s : Server) (c : ℕ) → is_linked c s.conn ≡ true → mixp_hangup s c ≡ some (hung_up s c)
unfolding mixp_hangup
hangup_some s c linked = if_true none linked

pub unchain-apart :
    (c d : ℕ) (conn : List ℕ) → is_linked d (unchain c conn) ≡ true → is_linked d conn ≡ true
unfolding unchain is_linked
unchain-apart c d [] h = h
unchain-apart c d (e ∷ conn) h = elim (Bool-cases (e == c)) [
  | inl same ↦ ground (arith, rw same at h)
  | inr other ↦ ground (arith, rw other at h, unchain-apart c d conn)
]

pub listen-IsServer :
    (s : Server) (fd aux : ℕ) (reads closes : Bool)
    → IsServer s
    → IsServer (listen_on s fd aux reads closes).0
unfolding listen_on is_linked
listen-IsServer s fd aux reads closes i = record {
  distinct = (fresh (Bool-cases (is_linked s.next s.conn)), i.distinct);
  unused = λ d h. known d (Bool-cases (s.next == d)) h;
}
  where
    fresh :
        (is_linked s.next s.conn ≡ true) ⊎ (is_linked s.next s.conn ≡ false)
        → is_linked s.next s.conn ≡ false
    fresh (inl h) = absurd (omega (arith, i.unused s.next h))
    fresh (inr h) = h

    known :
        (d : ℕ)
        → ((s.next == d) ≡ true) ⊎ ((s.next == d) ≡ false)
        → is_linked d (s.next ∷ s.conn) ≡ true
        → d < s.next + 1
    known d (inl same) h = ground arith
    known d (inr other) h = omega (arith, i.unused d (rw other at h))
