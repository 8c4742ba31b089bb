-- ===== src/Server/Visits.antt =====
-- `handle_conns` of libmixp/server.c with callbacks that close no connection but their own.
use libmixp.Base.{
  ℕ, zero, suc, ◌≤◌, ◌≡◌, refl, sym, ap, ◌∙◌, inl, inr, Bool, true, false, Option, none, some, List,
  [], ◌∷◌, ◌++◌, length, if◌then◌else◌, arith, Bool-cases, if_true, if_false, ==_refl,
}
use mathlib.Core.Path.{subst}
use mathlib.Core.List.{append_assoc}
use libmixp.Server.{
  Connection, Server, is_linked, next_in, first_of, Visited, done, faults, add_call, visit,
}
use libmixp.Server.Links.{Distinct, is_linked-append, Distinct-middle, next_in-middle, IsServer}

-- The connections of a chain that are ready, in its order.
abbrev pub ready_of : (ℕ → Bool) → (ℕ → Connection) → List ℕ → List ℕ
ready_of rd conns [] = []
ready_of rd conns (c ∷ rest) =
    if rd (conns c).fd then c ∷ ready_of rd conns rest else ready_of rd conns rest

abbrev pub AllReady : (ℕ → Bool) → (ℕ → Connection) → List ℕ → Type 0
AllReady rd conns [] = Unit
AllReady rd conns (c ∷ rest) =
    (rd (conns c).fd ≡ true → (conns c).reads ≡ true) × AllReady rd conns rest

-- What a callback of the connection behind `front` leaves of the server: the chain behind the connection,
-- its fields and the ready descriptors.
pub record Kept (s t : Server) (rest : List ℕ) : Type 0 where
  pub front : List ℕ
  pub chain : t.conn ≡ front ++ rest
  pub sound : IsServer t
  pub rd : t.rd ≡ s.rd
  pub fields : (d : ℕ) → is_linked d rest ≡ true → t.conns d ≡ s.conns d

-- A callback may close its own connection and open new ones.
abbrev pub IsLocal : (ℕ → Server → Option Server) → Type 0
IsLocal read =
    (c : ℕ) (s : Server) (front rest : List ℕ)
    → IsServer s
    → s.conn ≡ front ++ c ∷ rest
    → (t : Server) × (read c s ≡ some t) × Kept s t rest

ready_of-Kept :
    (rd : ℕ → Bool) (f g : ℕ → Connection) (rest : List ℕ)
    → ((d : ℕ) → is_linked d rest ≡ true → g d ≡ f d)
    → ready_of rd g rest ≡ ready_of rd f rest
unfolding is_linked
ready_of-Kept rd f g [] h = refl
ready_of-Kept rd f g (c ∷ rest) h =
    let same : g c ≡ f c = h c (if_true _ (==_refl c)) in
    let others : ready_of rd g rest ≡ ready_of rd f rest =
      ready_of-Kept rd f g rest (later rest h) in
    rw (same, others) refl
  where
    later :
        (rest : List ℕ)
        → ((d : ℕ) → is_linked d (c ∷ rest) ≡ true → g d ≡ f d)
        → (d : ℕ) → is_linked d rest ≡ true
        → g d ≡ f d
    later rest h d linked = h d (ground arith)

AllReady-Kept :
    (rd : ℕ → Bool) (f g : ℕ → Connection) (rest : List ℕ)
    → ((d : ℕ) → is_linked d rest ≡ true → g d ≡ f d)
    → AllReady rd f rest
    → AllReady rd g rest
unfolding is_linked
AllReady-Kept rd f g [] h a = tt
AllReady-Kept rd f g (c ∷ rest) h (first, a) =
    let same : g c ≡ f c = h c (if_true _ (==_refl c)) in
    (rw same first, AllReady-Kept rd f g rest (later rest h) a)
  where
    later :
        (rest : List ℕ)
        → ((d : ℕ) → is_linked d (c ∷ rest) ≡ true → g d ≡ f d)
        → (d : ℕ) → is_linked d rest ≡ true
        → g d ≡ f d
    later rest h d linked = h d (ground arith)

module _ (read : ℕ → Server → Option Server) where
  abbrev after_call : ℕ → ℕ → Option ℕ → Option Server → Visited
  after_call rounds c n o = elim o [ none ↦ faults | some s1 ↦ add_call c (visit read rounds s1 n) ]

  abbrev body : ℕ → ℕ → Server → Option ℕ → Visited
  body rounds c s n =
      if s.rd (s.conns c).fd
      then (if (s.conns c).reads then after_call rounds c n (read c s) else faults)
      else visit read rounds s n

  visit_linked :
      (rounds c : ℕ) (s : Server) (n : Option ℕ)
      → is_linked c s.conn ≡ true
      → next_in c s.conn ≡ n
      → visit read (suc rounds) s (some c) ≡ body rounds c s n
  unfolding visit
  visit_linked rounds c s n linked next = if_true faults linked ∙ ap (body rounds c s) next

  visit_idle :
      (rounds c : ℕ) (s : Server) (n : Option ℕ)
      → s.rd (s.conns c).fd ≡ false
      → body rounds c s n ≡ visit read rounds s n
  visit_idle rounds c s n idle = if_false _ idle

  visit_ready :
      (rounds c : ℕ) (s t : Server) (n : Option ℕ)
      → s.rd (s.conns c).fd ≡ true
      → (s.conns c).reads ≡ true
      → read c s ≡ some t
      → body rounds c s n ≡ add_call c (visit read rounds t n)
  visit_ready rounds c s t n ready reads back =
      if_true _ ready ∙ if_true faults reads ∙ ap (after_call rounds c n) back

  -- What a loop over the rest of the chain ends with.
  abbrev pub Ends : List ℕ → Visited → Type 0
  Ends calls v = (t : Server) × (v ≡ done t calls) × IsServer t

  Ends-add_call :
      (c : ℕ) (calls : List ℕ) (v : Visited) → Ends calls v → Ends (c ∷ calls) (add_call c v)
  unfolding add_call
  Ends-add_call c calls v (t, e, i) = (t, rw e refl, i)

  module _ (local : IsLocal read) where
    pub visit-Ends :
        (rest front : List ℕ) (rounds : ℕ) (s : Server)
        → IsServer s
        → s.conn ≡ front ++ rest
        → AllReady s.rd s.conns rest
        → length rest ≤ rounds
        → Ends (ready_of s.rd s.conns rest) (visit read rounds s (first_of rest))
    unfolding visit first_of
    visit-Ends [] front rounds s i e a h = (s, refl, i)
    visit-Ends (c ∷ rest) front zero s i e a h = absurd (omega arith)
    visit-Ends (c ∷ rest) front (suc rounds) s i e (first, a) h =
        let whole : Distinct (front ++ c ∷ rest) = subst Distinct e i.distinct in
        let linked : is_linked c s.conn ≡ true =
          ap (is_linked c) e ∙ is_linked-append c front rest in
        let next : next_in c s.conn ≡ first_of rest =
          ap (next_in c) e ∙ next_in-middle c front rest (Distinct-middle c front rest whole).0 in
        let passed =
          visit-Ends rest (front ++ c ∷ []) rounds s i (e ∙ sym (append_assoc front (c ∷ []) rest))
            a (omega arith) in
        let (t, back, kept) = local c s front rest i e in
        let onward =
          visit-Ends rest kept.front rounds t kept.sound kept.chain
            (subst (λ r. AllReady r t.conns rest) (sym kept.rd)
              (AllReady-Kept s.rd s.conns t.conns rest kept.fields a))
            (omega arith) in
        let same : ready_of t.rd t.conns rest ≡ ready_of s.rd s.conns rest =
          ap (λ r. ready_of r t.conns rest) kept.rd
          ∙ ready_of-Kept s.rd s.conns t.conns rest kept.fields in
        rw (visit_linked rounds c s (first_of rest) linked next)
          (elim (Bool-cases (s.rd (s.conns c).fd)) [
            | inl ready ↦
                rw
                  (
                    visit_ready rounds c s t (first_of rest) ready (first ready) back,
                    if_true (ready_of s.rd s.conns rest) ready,
                  )
                  (Ends-add_call c (ready_of s.rd s.conns rest)
                    (visit read rounds t (first_of rest))
                    (subst (λ calls. Ends calls (visit read rounds t (first_of rest))) same onward))
            | inr idle ↦
                rw
                  (
                    visit_idle rounds c s (first_of rest) idle,
                    if_false (c ∷ ready_of s.rd s.conns rest) idle,
                  )
                  passed
          ])
