-- ===== src/Transport/Send.antt =====
-- `mixp_sendmsg` of libmixp/transport.c: what it gives to the output.
use libmixp.Base.{
  take-take, read_at-split, ℕ, zero, suc, ◌+◌, ◌-◌, ◌≤◌, ◌<◌, ◌≡◌, refl, sym, ap, ◌∙◌, true, false,
  Option, none, some, ◌++◌, Bytes, length, take, length-take, drop, length-drop, read_at, ltb,
  arith, Bool-cases, inl, inr, ltb→lt, ltb→le,
}
use mathlib.Core.List.{append_assoc, append-nil}
use libmixp.Convert.{Message}
use libmixp.Transport.{System, sent, send_loop, sendmsg}

-- What a `write` of some bytes may do: it is interrupted, which only happens so often, or it takes
-- some of the bytes, at least one.
abbrev pub Accepted :
    {W : Type 0} → System W → (W → Bytes) → (W → ℕ) → W → Bytes → W × Option ℕ → Type 0
Accepted system written patience w bs (w1, none) =
    (system.eintr w1 ≡ true) × (written w1 ≡ written w) × (patience w1 < patience w)
Accepted system written patience w bs (w1, some r) =
    (0 < r) × (r ≤ length bs) × (written w1 ≡ written w ++ take r bs) × (patience w1 ≤ patience w)

-- The output behind the descriptor: the bytes that it got, and how often a write can be interrupted.
pub record Output {W : Type 0} (system : System W) : Type 0 where
  pub written : W → Bytes
  pub patience : W → ℕ
  pub accepts :
      (w : W) (bs : Bytes)
      → 0 < length bs
      → Accepted system written patience w bs (system.write w bs)

in_pieces :
    (buf : Bytes) (p n r : ℕ)
    → r ≤ n
    → take r (read_at buf p n) ++ read_at buf (p + r) (n - r) ≡ read_at buf p n
in_pieces buf p n r h = rw (take-take (drop p buf) r n h) (read_at-split buf p n r h)

module _ {W : Type 0} (system : System W) (output : Output system) where
  -- The rest of a round of the loop behind `write`.
  continue : ℕ → Message → W × Option ℕ → Option (W × Message × ℕ)
  continue rounds m (w, r) = elim (sent (system.eintr w) m r) [
    | none ↦ some (w, m, 0)
    | some m1 ↦ send_loop system rounds w m1
  ]

  abbrev Sends : Option (W × Message × ℕ) → W → Message → Type 0
  Sends result w m =
      (w1 : W) × (result ≡ some (w1, record m { pos = m.end }, m.end))
      × (output.written w1 ≡ output.written w ++ read_at m.buf m.pos (m.end - m.pos))

  abbrev Enough : ℕ → Type 0
  Enough rounds =
      (w : W) (m : Message)
      → m.pos ≤ m.end
      → m.end ≤ length m.buf
      → m.end - m.pos + output.patience w < rounds
      → Sends (send_loop system rounds w m) w m

  went_on :
      (rounds r : ℕ) (w : W) (m : Message)
      → 0 < r
      → continue rounds m (w, some r) ≡ send_loop system rounds w (record m { pos = m.pos + r })
  unfolding continue sent
  went_on rounds zero w m h = absurd (omega (arith, h))
  went_on rounds (suc r) w m h = refl

  retried :
      (rounds : ℕ) (w : W) (m : Message)
      → system.eintr w ≡ true
      → continue rounds m (w, none) ≡ send_loop system rounds w m
  unfolding continue sent
  retried rounds w m h = rw (h, continue)

  one_round :
      (rounds : ℕ) (w : W) (m : Message) (res : W × Option ℕ)
      → Enough rounds
      → m.pos ≤ m.end
      → m.end ≤ length m.buf
      → m.end - m.pos + output.patience w < suc rounds
      → Accepted system output.written output.patience w (read_at m.buf m.pos (m.end - m.pos)) res
      → Sends (continue rounds m res) w m
  one_round rounds w m (w1, none) ih inside backed fuel (again, same, calmer) =
      let (w2, e2, done) = ih w1 m inside backed (omega (arith, fuel, calmer)) in
      (
        w2,
        retried rounds w1 m again ∙ e2,
        done ∙ ap (λ (t : Bytes). t ++ read_at m.buf m.pos (m.end - m.pos)) same,
      )
  one_round rounds w m (w1, some r) ih inside backed fuel (some_bytes, few, same, calmer) =
      let left = m.end - m.pos in
      let short : r ≤ left = omega (arith, few, length-take left (drop m.pos m.buf)) in
      let m1 = record m { pos = m.pos + r } in
      let (w2, e2, done) =
        ih w1 m1 (omega (arith, short, inside)) backed
          (omega (arith, short, inside, fuel, calmer, some_bytes)) in
      let onward : m.end - (m.pos + r) ≡ left - r = omega arith in
      (
        w2,
        went_on rounds r w1 m some_bytes ∙ e2,
        done
            ∙ ap (λ (k : ℕ). output.written w1 ++ read_at m.buf (m.pos + r) k) onward
            ∙ ap (λ (t : Bytes). t ++ read_at m.buf (m.pos + r) (left - r)) same
            ∙ append_assoc (output.written w) (take r (read_at m.buf m.pos left))
                (read_at m.buf (m.pos + r) (left - r))
            ∙ ap (λ (t : Bytes). output.written w ++ t) (in_pieces m.buf m.pos left r short),
      )

  next_round :
      (rounds : ℕ) (w : W) (m : Message)
      → ltb m.pos m.end ≡ true
      → send_loop system (suc rounds) w m
        ≡ continue rounds m (system.write w (read_at m.buf m.pos (m.end - m.pos)))
  unfolding send_loop continue
  next_round rounds w m h = rw h

  at_rest :
      (rounds : ℕ) (w : W) (m : Message)
      → ltb m.pos m.end ≡ false
      → send_loop system (suc rounds) w m ≡ some (w, m, m.pos)
  unfolding send_loop
  at_rest rounds w m h = rw h

  nothing_left : (bs buf : Bytes) (p k : ℕ) → k ≡ 0 → bs ≡ bs ++ read_at buf p k
  nothing_left bs buf p k e = rw e (sym (append-nil bs))

  send_loop-sends : (rounds : ℕ) → Enough rounds
  send_loop-sends zero w m inside backed fuel = absurd (omega (arith, fuel))
  send_loop-sends (suc rounds) w m inside backed fuel =
      let left = m.end - m.pos in
      elim (Bool-cases (ltb m.pos m.end)) [
        | inl before ↦
            let below = ltb→lt m.pos m.end before in
            let more : 0 < length (read_at m.buf m.pos left) =
              omega (arith, length-take left (drop m.pos m.buf), length-drop m.pos m.buf) in
            let (w1, e1, done) =
              one_round rounds w m (system.write w (read_at m.buf m.pos left))
                (send_loop-sends rounds) inside backed fuel
                (output.accepts w (read_at m.buf m.pos left) more) in
            (w1, next_round rounds w m before ∙ e1, done)
        | inr behind ↦
            let arrived : m.pos ≡ m.end = omega (arith, ltb→le m.pos m.end behind) in
            (
              w,
              at_rest rounds w m behind ∙ ap (λ (p : ℕ). some (w, record m { pos = p }, p)) arrived,
              nothing_left (output.written w) m.buf m.pos left (omega (arith, arrived)),
            )
      ]

  -- A message of which the buffer holds every byte is sent whole, from its start to its end, however
  -- the output takes it in pieces and is interrupted; its length is returned.
  pub sendmsg-sends :
      (rounds : ℕ) (w : W) (m : Message)
      → m.end ≤ length m.buf
      → m.end + output.patience w < rounds
      → (w1 : W) × (sendmsg system rounds w m ≡ some (w1, record m { pos = m.end }, m.end))
        × (output.written w1 ≡ output.written w ++ read_at m.buf 0 m.end)
  unfolding sendmsg
  sendmsg-sends rounds w m backed fuel =
      let (w1, e1, done) =
        send_loop-sends rounds w (record m { pos = 0 }) (omega arith) backed
          (omega (arith, fuel)) in
      let whole : m.end - 0 ≡ m.end = omega arith in
      (w1, e1, done ∙ ap (λ (k : ℕ). output.written w ++ read_at m.buf 0 k) whole)
