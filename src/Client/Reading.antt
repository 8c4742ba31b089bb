-- ===== src/Client/Reading.antt =====
-- `_pread` of libmixp/client.c: the file that a server has, in pieces of at most `iounit` bytes.
use libmixp.Base.{
  if_true, if_false, ℕ, zero, suc, ◌+◌, ◌-◌, ◌≤◌, ◌<◌, ◌≡◌, refl, sym, ap, ◌∙◌, true, false, Option,
  some, [], ◌++◌, Bytes, length, length-append, padded-length, drop, length-take, read_at,
  read_at-split, take_short, ltb, ltb→lt, ltb→le, ltb_le, if◌then◌else◌, arith, Bool-cases, inl,
  inr,
}
use mathlib.Core.List.{append_assoc, append-nil}
use libmixp.Compound.{bytes_of}
use libmixp.Fcall.{Fcall}
use libmixp.Client.{Cfid, accept, smaller, read_request, piece, do_fcall, pread_loop, pread}

-- The server answers a read of this fid, at any time, with the bytes of the file from the offset on: as
-- many as were asked for, or all that are left.
pub record Serves {S : Type 0} (muxrpc : S → Fcall → S × Option Fcall) (f : Cfid) (content : Bytes)
    : Type 0 where
  pub reply : ℕ → ℕ → Fcall
  pub sends : (s : S) (o n : ℕ) → (muxrpc s (read_request f o n)).1 ≡ some (reply o n)
  pub type : (o n : ℕ) → (reply o n).type ≡ 117
  pub payload : (o n : ℕ) → bytes_of (reply o n).payload ≡ read_at content o n
  pub count : (o n : ℕ) → (reply o n).count ≡ length (read_at content o n)

pub smaller-le : (a b : ℕ) → (smaller a b ≤ a) × (0 < a → 0 < b → 0 < smaller a b)
smaller-le a b = (ground arith, λ p q. ground arith)

pub length-read_at : (buf : Bytes) (p n : ℕ) → length (read_at buf p n) ≤ n
length-read_at buf p n = omega (arith, length-take n (drop p buf))

module _ {S : Type 0} (muxrpc : S → Fcall → S × Option Fcall) (f : Cfid) (content : Bytes)
    (server : Serves muxrpc f content) (unit : 0 < f.iounit) where
  piece-served :
      (s : S) (o n : ℕ)
      → piece n (do_fcall muxrpc s (read_request f o n)).1 ≡ some (read_at content o n)
  unfolding piece do_fcall accept
  piece-served s o n = rw (
    server.sends s o n,
    server.type o n,
    server.count o n,
    server.payload o n,
    ltb_le n (length (read_at content o n)) (length-read_at content o n),
    padded-length (read_at content o n),
  )

  abbrev Read : Option (S × Option Bytes) → Bytes → Type 0
  Read result bs = (s1 : S) × (result ≡ some (s1, some bs))

  -- A round that ends the loop, and one that goes on.
  next_piece :
      (rounds : ℕ) (s : S) (got : Bytes) (count offset : ℕ) (bs : Bytes)
      → ltb (length got) count ≡ true
      → read_at content offset (smaller (count - length got) f.iounit) ≡ bs
      → (s1 : S) × (pread_loop muxrpc (suc rounds) s f got count offset ≡ (
          if ltb (length bs) (smaller (count - length got) f.iounit)
          then some (s1, some (got ++ bs))
          else pread_loop muxrpc rounds s1 f (got ++ bs) count (offset + length bs)))
  unfolding pread_loop
  next_piece rounds s got count offset bs more e =
      let n = smaller (count - length got) f.iounit in
      let answered : piece n (do_fcall muxrpc s (read_request f offset n)).1 ≡ some bs =
        piece-served s offset n ∙ ap some e in
      ((do_fcall muxrpc s (read_request f offset n)).0, rw (more, answered))

  stopped :
      (rounds : ℕ) (s : S) (got : Bytes) (count offset : ℕ)
      → ltb (length got) count ≡ false
      → pread_loop muxrpc (suc rounds) s f got count offset ≡ some (s, some got)
  unfolding pread_loop
  stopped rounds s got count offset h = rw h

  whole_read : (got : Bytes) (offset left : ℕ) → left ≡ 0 → got ≡ got ++ read_at content offset left
  whole_read got offset left e = rw e (sym (append-nil got))

  joined :
      (got bs : Bytes) (offset count left n : ℕ)
      → left ≡ count - length got
      → bs ≡ read_at content offset n
      → length bs ≡ n
      → count - length (got ++ bs) ≡ left - n
      → n ≤ left
      → (got ++ bs) ++ read_at content (offset + length bs) (count - length (got ++ bs))
        ≡ got ++ read_at content offset left
  joined got bs offset count left n e1 e2 size rest bound =
      rw (rest, size)
        (append_assoc got bs (read_at content (offset + n) (left - n))
          ∙ ap (λ (t : Bytes). got ++ t)
              (ap (λ (t : Bytes). t ++ read_at content (offset + n) (left - n)) e2
                ∙ read_at-split content offset left n bound))

  pread_loop-reads :
      (rounds : ℕ) (s : S) (got : Bytes) (count offset : ℕ)
      → length got ≤ count
      → count - length got < rounds
      → Read
          (pread_loop muxrpc rounds s f got count offset)
          (got ++ read_at content offset (count - length got))
  pread_loop-reads zero s got count offset inside fuel = absurd (omega (arith, fuel))
  pread_loop-reads (suc rounds) s got count offset inside fuel =
      let left = count - length got in
      let n = smaller left f.iounit in
      let bs = read_at content offset n in
      elim (Bool-cases (ltb (length got) count)) [
        | inr full ↦ (
          s,
          stopped rounds s got count offset full
              ∙ ap (λ (t : Bytes). some (s, some t))
                  (whole_read got offset left (omega (arith, ltb→le _ _ full))),
        )
        | inl more ↦
            let (s1, e) = next_piece rounds s got count offset bs more refl in
            elim (Bool-cases (ltb (length bs) n)) [
              | inl short ↦ (
                s1,
                e
                    ∙ if_true _ short
                    ∙ ap (λ (t : Bytes). some (s1, some (got ++ t)))
                        (sym (
                          take_short (drop offset content) n left (ltb→lt _ _ short)
                            (smaller-le left f.iounit).0)),
              )
              | inr whole ↦
                  let size : length bs ≡ n =
                    omega (arith, ltb→le _ _ whole, length-read_at content offset n) in
                  let progress : 0 < n =
                    (smaller-le left f.iounit).1 (omega (arith, ltb→lt _ _ more)) unit in
                  let longer : length (got ++ bs) ≡ length got + n =
                    omega (arith, length-append got bs, size) in
                  let bound = (smaller-le left f.iounit).0 in
                  let (s2, e2) =
                    pread_loop-reads rounds s1 (got ++ bs) count (offset + length bs)
                      (omega (arith, longer, bound, inside))
                      (omega (arith, longer, progress, fuel, bound)) in
                  (
                    s2,
                    e
                        ∙ if_false _ whole
                        ∙ e2
                        ∙ ap (λ (t : Bytes). some (s2, some t))
                            (joined got bs offset count left n refl refl size
                              (omega (arith, longer)) bound),
                  )
            ]
      ]

  pub pread-file :
      (rounds : ℕ) (s : S) (count offset : ℕ)
      → count < rounds
      → (s1 : S) × (pread muxrpc rounds s f count offset
          ≡ some (s1, some (read_at content offset count)))
  unfolding pread
  pread-file rounds s count offset fuel =
      let whole : count - 0 ≡ count = omega arith in
      let (s1, e) = pread_loop-reads rounds s [] count offset (omega arith) (omega (arith, fuel)) in
      (s1, e ∙ ap (λ (k : ℕ). some (s1, some (read_at content offset k))) whole)
