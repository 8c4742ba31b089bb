-- ===== src/Transport/Receive.antt =====
-- `mixp_recvmsg` of libmixp/transport.c: what it takes from the input, and what it leaves.
use libmixp.Base.{
  ℕ, ◌+◌, ◌^◌, ◌≤◌, ◌<◌, ◌≡◌, ◌⊎◌, inl, inr, false, refl, sym, ◌∙◌, some, ◌++◌, Bytes, length,
  length-write_at, read_at, write_at, write_at-write_at, read_at-write_at, Holds, Holds-read_at,
  le→leb, leb, ==_refl, arith,
}
use mathlib.Core.Option
use libmixp.Convert.{Message, msg_unpack, le32, pu32, pu32_load}
use libmixp.Transport.{System, payload_size, readn, got_payload, read_payload, got_size, recvmsg}
use libmixp.Transport.Stream.{Input, filled, readn_loop-reads}

-- What `mixp_recvmsg` starts with.
abbrev pub opened : Message → Message
opened m = record m { mode = msg_unpack; pos = 0; end = m.size }

size_read :
    (m : Message) (n : ℕ)
    → n < 2 ^ 32
    → 4 ≤ m.size
    → m.size ≤ length m.buf
    → pu32 (record (filled (opened m) (le32 n)) { pos = 0 }) 0 ≡ (filled (opened m) (le32 n), n)
unfolding pu32 pu32_load
size_read m n h room backed =
    let holds : Holds (write_at m.buf 0 (le32 n)) 0 (le32 n) =
      Holds-read_at _ 0 (le32 n) (omega (arith, length-write_at m.buf 0 (le32 n)))
        (read_at-write_at m.buf 0 (le32 n) (omega arith)) in
    rw (le→leb 4 m.size room) (ground arith)

module _ {W : Type 0} (system : System W) (input : Input system) where
  readn-fills :
      (rounds : ℕ) (w : W) (m : Message) (bs more : Bytes)
      → input.rest w ≡ bs ++ more
      → length bs + input.patience w < rounds
      → m.pos + length bs ≤ m.end
      → (w1 : W) × (readn system rounds w m (length bs) ≡ some (w1, filled m bs, length bs))
        × (input.rest w1 ≡ more)
        × (input.patience w1 ≤ input.patience w)
  unfolding readn
  readn-fills rounds w m bs more e fuel room =
      readn_loop-reads system input (length bs) rounds w m bs more e fuel room

  header_read :
      (rounds : ℕ) (w : W) (m : Message) (n : ℕ) (more : Bytes)
      → n < 2 ^ 32
      → 4 ≤ m.size
      → m.size ≤ length m.buf
      → input.rest w ≡ le32 n ++ more
      → 4 + input.patience w < rounds
      → (w1 : W) × (recvmsg system rounds w m
          ≡ read_payload system rounds w1 (filled (opened m) (le32 n)) n)
        × (input.rest w1 ≡ more)
        × (input.patience w1 ≤ input.patience w)
  unfolding recvmsg got_size Option.bind
  header_read rounds w m n more h room backed e fuel =
      let (w1, e1, left, calm) = readn-fills rounds w (opened m) (le32 n) more e fuel room in
      (w1, rw (e1, size_read m n h room backed), left, calm)

  accepted :
      (rounds : ℕ) (w w1 : W) (m m1 : Message) (n len : ℕ)
      → payload_size n ≡ len
      → leb m.end (m.pos + len) ≡ false
      → readn system rounds w m len ≡ some (w1, m1, len)
      → read_payload system rounds w m n ≡ some (w1, record m1 { end = m1.pos }, n)
  unfolding read_payload got_payload
  accepted rounds w w1 m m1 n len size fits e = rw (size, fits, e, ==_refl len)

  payload_read :
      (rounds : ℕ) (w : W) (m : Message) (n : ℕ) (payload more : Bytes)
      → n ≡ 4 + length payload
      → n < 2 ^ 32
      → n < m.size
      → input.rest w ≡ payload ++ more
      → length payload + input.patience w < rounds
      → (w1 : W) × (read_payload system rounds w (filled (opened m) (le32 n)) n
          ≡ some (
            w1,
            record (filled (filled (opened m) (le32 n)) payload) { end = 4 + length payload },
            n,
          ))
        × (input.rest w1 ≡ more)
  payload_read rounds w m n payload more whole h small e fuel =
      let size : payload_size n ≡ length payload = omega (arith, whole, h) in
      let (w1, e1, left, calm) =
        readn-fills rounds w (filled (opened m) (le32 n)) payload more e fuel
          (omega (arith, whole, small)) in
      let fits : leb m.size (4 + length payload) ≡ false = ground (arith, whole, small) in
      (w1, accepted rounds w w1 _ _ n (length payload) size fits e1, left)

  -- A message with a size word that says its length, if it is shorter than the buffer, is taken from
  -- the input whole and no byte more, however the input is cut into pieces and interrupted; it stands
  -- at the start of the buffer, `end` is behind it, and its length is returned.
  pub recvmsg-receives :
      (rounds : ℕ) (w : W) (m : Message) (n : ℕ) (payload more : Bytes)
      → n ≡ 4 + length payload
      → n < 2 ^ 32
      → n < m.size
      → m.size ≤ length m.buf
      → input.rest w ≡ le32 n ++ (payload ++ more)
      → n + input.patience w < rounds
      → (w1 : W) × (m1 : Message) × (recvmsg system rounds w m ≡ some (w1, m1, n))
        × (input.rest w1 ≡ more)
        × (read_at m1.buf 0 n ≡ le32 n ++ payload)
        × (m1.end ≡ n)
        × (m1.mode ≡ msg_unpack)
  recvmsg-receives rounds w m n payload more whole h small backed e fuel =
      let sized : length (le32 n ++ payload) ≡ n = omega (arith, whole) in
      let (w1, e1, left, calm) =
        header_read rounds w m n (payload ++ more) h (omega arith) backed e (omega arith) in
      let (w2, e2, done) =
        payload_read rounds w1 m n payload more whole h small left
          (omega (arith, whole, fuel, calm)) in
      (
        w2,
        record (filled (filled (opened m) (le32 n)) payload) { end = 4 + length payload },
        e1 ∙ e2,
        done,
        rw (write_at-write_at m.buf 0 4 (le32 n) payload refl) (
            rw sized at
              (read_at-write_at m.buf 0 (le32 n ++ payload) (omega (arith, whole, small, backed)))),
        sym whole,
        refl,
      )

  -- A size word of less than 4, or of the buffer's size or more, is refused, with 0 for the length: only
  -- the word itself is taken from the input.
  pub recvmsg-refuses :
      (rounds : ℕ) (w : W) (m : Message) (n : ℕ) (more : Bytes)
      → n < 2 ^ 32
      → 4 ≤ m.size
      → m.size ≤ 2 ^ 32
      → m.size ≤ length m.buf
      → (n < 4) ⊎ (m.size ≤ n)
      → input.rest w ≡ le32 n ++ more
      → 4 + input.patience w < rounds
      → (w1 : W) × (m1 : Message) × (recvmsg system rounds w m ≡ some (w1, m1, 0))
        × (input.rest w1 ≡ more)
  unfolding read_payload
  recvmsg-refuses rounds w m n more h room small backed bad e fuel =
      let (w1, e1, left, calm) = header_read rounds w m n more h room backed e fuel in
      let over : m.size ≤ 4 + payload_size n = elim bad [
        | inl low ↦ omega (arith, low, small, h)
        | inr high ↦ omega (arith, high, h, room)
      ] in
      (w1, filled (opened m) (le32 n), e1 ∙ rw (le→leb m.size (4 + payload_size n) over), left)
