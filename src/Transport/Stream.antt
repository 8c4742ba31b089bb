-- ===== src/Transport/Stream.antt =====
-- `readn` of libmixp/transport.c on an input that delivers its bytes in pieces.
use libmixp.Base.{
  ℕ, zero, suc, ◌+◌, ◌-◌, ◌≤◌, ◌<◌, ◌≡◌, refl, sym, ap, ◌∙◌, Bool, true, false, Option, none, some,
  [], ◌∷◌, ◌++◌, Bytes, length, length-append, write_at, write_at_nil, write_at-write_at, leb,
  arith,
}
use libmixp.Convert.{Message}
use libmixp.Transport.{System, at_most, returned, stored, mread, still_wanted, readn_loop}

-- What a `read` of at most `n` bytes may do while there is input: it is interrupted, which only
-- happens so often, or it gives the next bytes of the input, at least one.
abbrev pub Delivered :
    {W : Type 0} → System W → (W → Bytes) → (W → ℕ) → W → ℕ → W × Option Bytes → Type 0
Delivered system rest patience w n (w1, none) =
    (system.eintr w1 ≡ true) × (rest w1 ≡ rest w) × (patience w1 < patience w)
Delivered system rest patience w n (w1, some bs) =
    (0 < length bs) × (length bs ≤ n) × (rest w ≡ bs ++ rest w1) × (patience w1 ≤ patience w)

-- The input behind the descriptor: the bytes that are still to come, and how often a read can be
-- interrupted.
pub record Input {W : Type 0} (system : System W) : Type 0 where
  pub rest : W → Bytes
  pub patience : W → ℕ
  pub delivers :
      (w : W) (n : ℕ)
      → 0 < n
      → 0 < length (rest w)
      → Delivered system rest patience w n (system.read w n)

split_append :
    (bs cs xs ys : Bytes)
    → bs ++ xs ≡ cs ++ ys
    → length cs ≤ length bs
    → (ds : Bytes) × (bs ≡ cs ++ ds) × (ys ≡ ds ++ xs)
split_append bs [] xs ys e h = (bs, refl, sym e)
split_append [] (c ∷ cs) xs ys e h = absurd (omega arith)
split_append (b ∷ bs) (c ∷ cs) xs ys e h =
    let same : b ≡ c = cc (e) in
    let tails : bs ++ xs ≡ cs ++ ys = cc (e) in
    let (ds, p, q) = split_append bs cs xs ys tails (omega arith) in (ds, cc (same, p), q)

still_wanted-some :
    (interrupted : Bool) (num r : ℕ)
    → 0 < r
    → still_wanted interrupted num (some r) ≡ some (num - r)
unfolding still_wanted
still_wanted-some interrupted num zero h = absurd (omega arith)
still_wanted-some interrupted num (suc r) h = refl

mread-read :
    {W : Type 0} (system : System W) (w : W) (m : Message) (num : ℕ)
    → 0 < num
    → m.pos + num ≤ m.end
    → mread system w m num ≡ stored m (system.read w num)
unfolding mread
mread-read system w m num pos room = rw (not_full, whole)
  where
    not_full : leb m.end m.pos ≡ false
    not_full = ground arith

    whole : at_most (m.end - m.pos) num ≡ num
    whole = ground arith

-- The message with some bytes more.
abbrev pub filled : Message → Bytes → Message
filled m bs = record m { buf = write_at m.buf m.pos bs; pos = m.pos + length bs }

filled_nil : (m : Message) → m ≡ filled m []
filled_nil m =
    let there : m.pos ≡ m.pos + 0 = omega arith in
    rw (write_at_nil m.buf m.pos) (ap (λ (p : ℕ). record m { pos = p }) there)

filled_twice :
    (m : Message) (bs cs ds : Bytes) → bs ≡ cs ++ ds → filled (filled m cs) ds ≡ filled m bs
filled_twice m bs cs ds whole =
    let there : m.pos + length cs + length ds ≡ m.pos + length (cs ++ ds) =
      omega (arith, length-append cs ds) in
    rw (whole, write_at-write_at m.buf m.pos (m.pos + length cs) cs ds refl)
      (ap (λ (p : ℕ). record m { buf = write_at m.buf m.pos (cs ++ ds); pos = p }) there)

module _ {W : Type 0} (system : System W) (input : Input system) (count : ℕ) where
  -- The rest of a round of `readn` behind `mread`.
  continue : ℕ → ℕ → W × Message × Option ℕ → Option (W × Message × ℕ)
  continue rounds num (w, m, r) = elim (still_wanted (system.eintr w) num r) [
    | none ↦ some (w, m, returned count num)
    | some left ↦ readn_loop system rounds w m left count
  ]

  abbrev Reads : Option (W × Message × ℕ) → W → Message → Bytes → Bytes → Type 0
  Reads result w m bs more =
      (w1 : W) × (result ≡ some (w1, filled m bs, count))
      × (input.rest w1 ≡ more)
      × (input.patience w1 ≤ input.patience w)

  went_on :
      (rounds num r : ℕ) (w : W) (m : Message)
      → 0 < r
      → continue rounds num (w, m, some r) ≡ readn_loop system rounds w m (num - r) count
  unfolding continue
  went_on rounds num r w m h = rw (still_wanted-some (system.eintr w) num r h, continue)

  retried :
      (rounds num : ℕ) (w : W) (m : Message)
      → system.eintr w ≡ true
      → continue rounds num (w, m, none) ≡ readn_loop system rounds w m num count
  unfolding continue still_wanted
  retried rounds num w m h = rw (h, continue)

  -- As many rounds as there are bytes and interruptions are enough.
  abbrev Enough : ℕ → Type 0
  Enough rounds =
      (w : W) (m : Message) (bs more : Bytes)
      → input.rest w ≡ bs ++ more
      → length bs + input.patience w < rounds
      → m.pos + length bs ≤ m.end
      → Reads (readn_loop system rounds w m (length bs) count) w m bs more

  one_round :
      (rounds : ℕ) (w : W) (m : Message) (bs more : Bytes) (res : W × Option Bytes)
      → Enough rounds
      → input.rest w ≡ bs ++ more
      → length bs + input.patience w < suc rounds
      → m.pos + length bs ≤ m.end
      → Delivered system input.rest input.patience w (length bs) res
      → Reads (continue rounds (length bs) (stored m res)) w m bs more
  unfolding stored
  one_round rounds w m bs more (w1, none) ih e fuel room (again, same, calmer) =
      let (w2, e2, left, calm) = ih w1 m bs more (same ∙ e) (omega (arith, fuel, calmer)) room in
      (w2, retried rounds (length bs) w1 m again ∙ e2, left, omega (arith, calm, calmer))
  one_round rounds w m bs more (w1, some cs) ih e fuel room (some_bytes, few, same, calmer) =
      let (ds, whole, onward) = split_append bs cs more (input.rest w1) (sym e ∙ same) few in
      let sizes : length bs ≡ length cs + length ds = ap length whole ∙ length-append cs ds in
      let m1 = filled m cs in
      let (w2, e2, left, calm) =
        ih w1 m1 ds more onward (omega (arith, fuel, calmer, sizes, some_bytes))
          (omega (arith, room, sizes)) in
      let num : length bs - length cs ≡ length ds = omega (arith, sizes) in
      (
        w2,
        went_on rounds (length bs) (length cs) w1 m1 some_bytes
            ∙ ap (λ (n : ℕ). readn_loop system rounds w1 m1 n count) num
            ∙ e2
            ∙ ap (λ (x : Message). some (w2, x, count)) (filled_twice m bs cs ds whole),
        left,
        omega (arith, calm, calmer),
      )

  pub readn_loop-reads : (rounds : ℕ) → Enough rounds
  unfolding readn_loop continue
  readn_loop-reads zero w m bs more e fuel room = absurd (omega arith)
  readn_loop-reads (suc rounds) w m [] more e fuel room =
      (w, ap (λ (x : Message). some (w, x, count)) (filled_nil m), e, omega arith)
  readn_loop-reads (suc rounds) w m (b ∷ bs) more e fuel room =
      let num = length (b ∷ bs) in
      let some_left : 0 < length (input.rest w) = rw e (omega arith) in
      let (w1, e1, left, calm) =
        one_round rounds w m (b ∷ bs) more (system.read w num) (readn_loop-reads rounds) e fuel room
          (input.delivers w num (omega arith) some_left) in
      (w1, ap (continue rounds num) (mread-read system w m num (omega arith) room) ∙ e1, left, calm)
