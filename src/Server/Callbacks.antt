-- ===== src/Server/Callbacks.antt =====
-- What the read functions of the library do to a server of libmixp/server.c: `mixp_serve_conn` opens a
-- connection, and `handlefcall` closes its own or leaves the server as it is.
use libmixp.Base.{
  ℕ, ◌<◌, ◌≡◌, refl, sym, ap, ◌∙◌, inl, inr, Bool, true, false, Option, some, List, [], ◌∷◌, ◌++◌,
  ◌==◌, arith, Bool-cases, ==→eq, if_false,
}
use mathlib.Core.Path.{subst}
use mathlib.Core.List.{append_assoc}
use libmixp.Server.{Server, with_conn, listen_on, is_linked, unchain, mixp_hangup}
use libmixp.Server.Links.{
  Distinct, is_linked-append, Distinct-middle, unchain-middle, IsServer, hung_up, hangup_some,
  unchain-apart, listen-IsServer,
}
use libmixp.Server.Visits.{Kept, IsLocal}

-- A connection behind another of its chain is not the same.
behind_ne :
    (c d : ℕ) (front rest : List ℕ)
    → Distinct (front ++ c ∷ rest)
    → is_linked d rest ≡ true
    → (d == c) ≡ false
unfolding is_linked
behind_ne c d [] rest (out, h) linked = elim (Bool-cases (d == c)) [
  | inl same ↦ cc (sym linked ∙ ap (λ t. is_linked t rest) (==→eq d c same) ∙ out)
  | inr other ↦ other
]
behind_ne c d (e ∷ front) rest (out, h) linked = behind_ne c d front rest h linked

linked_behind :
    (c d : ℕ) (front rest : List ℕ)
    → is_linked d rest ≡ true
    → is_linked d (front ++ c ∷ rest) ≡ true
unfolding is_linked
linked_behind c d [] rest h = ground arith
linked_behind c d (e ∷ front) rest h = ground (arith, linked_behind c d front rest h)

pub hung_up-IsServer :
    (s : Server) (c : ℕ) (front rest : List ℕ)
    → IsServer s
    → s.conn ≡ front ++ c ∷ rest
    → (mixp_hangup s c ≡ some (hung_up s c))
      × ((hung_up s c).conn ≡ front ++ rest)
      × IsServer (hung_up s c)
hung_up-IsServer s c front rest i e =
    let whole : Distinct (front ++ c ∷ rest) = subst Distinct e i.distinct in
    let (before, others) = Distinct-middle c front rest whole in
    let now : unchain c s.conn ≡ front ++ rest =
      ap (unchain c) e ∙ unchain-middle c front rest before in
    (
      hangup_some s c (ap (is_linked c) e ∙ is_linked-append c front rest),
      now,
      record {
        distinct = subst Distinct (sym now) others;
        unused = λ d h. i.unused d (unchain-apart c d s.conn h);
      },
    )

pub hung_up-Kept :
    (s : Server) (c : ℕ) (front rest : List ℕ)
    → IsServer s
    → s.conn ≡ front ++ c ∷ rest
    → Kept s (hung_up s c) rest
unfolding with_conn
hung_up-Kept s c front rest i e =
    let (called, now, sound) = hung_up-IsServer s c front rest i e in
    record {
      front = front;
      chain = now;
      sound = sound;
      rd = refl;
      fields = λ d h. if_false _ (behind_ne c d front rest (subst Distinct e i.distinct) h);
    }

listen-Kept :
    (s : Server) (fd aux : ℕ) (reads closes : Bool) (c : ℕ) (front rest : List ℕ)
    → IsServer s
    → s.conn ≡ front ++ c ∷ rest
    → Kept s (listen_on s fd aux reads closes).0 rest
unfolding listen_on with_conn
listen-Kept s fd aux reads closes c front rest i e = record {
  front = s.next ∷ (front ++ c ∷ []);
  chain = ap (λ (t : List ℕ). s.next ∷ t) (e ∙ sym (append_assoc front (c ∷ []) rest));
  sound = listen-IsServer s fd aux reads closes i;
  rd = refl;
  fields = λ d h.
      let known : d < s.next = i.unused d (ap (is_linked d) e ∙ linked_behind c d front rest h) in
      if_false {b = d == s.next} _ (ground arith);
}

pub data Reaction : Type 0 where
  opens : ℕ → ℕ → Reaction
  hangs_up keeps : Reaction

abbrev pub react : ℕ → Server → Reaction → Option Server
react c s (opens fd aux) = some (listen_on s fd aux true true).0
react c s hangs_up = mixp_hangup s c
react c s keeps = some s

react-Kept :
    (c : ℕ) (s : Server) (r : Reaction) (front rest : List ℕ)
    → IsServer s
    → s.conn ≡ front ++ c ∷ rest
    → (t : Server) × (react c s r ≡ some t) × Kept s t rest
react-Kept c s (opens fd aux) front rest i e =
    ((listen_on s fd aux true true).0, refl, listen-Kept s fd aux true true c front rest i e)
react-Kept c s hangs_up front rest i e =
    (hung_up s c, (hung_up-IsServer s c front rest i e).0, hung_up-Kept s c front rest i e)
react-Kept c s keeps front rest i e = (
  s,
  refl,
  record {
    front = front ++ c ∷ [];
    chain = e ∙ sym (append_assoc front (c ∷ []) rest);
    sound = i;
    rd = refl;
    fields = λ d h. refl;
  },
)

-- Whatever a connection and its input make the library's read functions do.
pub react-IsLocal : (choice : ℕ → Server → Reaction) → IsLocal (λ c s. react c s (choice c s))
react-IsLocal choice c s front rest i e = react-Kept c s (choice c s) front rest i e
