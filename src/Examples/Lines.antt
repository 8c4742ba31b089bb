-- ===== src/Examples/Lines.antt =====
-- A system behind a descriptor that gives and takes one byte at a time, after some interruptions.
use libmixp.Base.{
  ℕ, zero, suc, ◌<◌, refl, true, Option, none, some, [], ◌∷◌, ◌++◌, Bytes, length, arith,
}
use libmixp.Transport.{System}
use libmixp.Transport.Stream.{Delivered, Input}
use libmixp.Transport.Send.{Accepted, Output}

pub record Line : Type 0 where
  pub busy : ℕ
  pub coming : Bytes
  pub gone : Bytes

abbrev pub next_byte : Line → ℕ → Bytes → Line × Option Bytes
next_byte line zero [] = (line, some [])
next_byte line zero (b ∷ bs) = (record line { coming = bs }, some (b ∷ []))
next_byte line (suc busy) bs = (record line { busy = busy }, none)

abbrev pub put_byte : Line → ℕ → Bytes → Line × Option ℕ
put_byte line zero [] = (line, some 0)
put_byte line zero (b ∷ bs) = (record line { gone = line.gone ++ b ∷ [] }, some 1)
put_byte line (suc busy) bs = (record line { busy = busy }, none)

abbrev pub slow : System Line
slow = record {
  read = λ line n. next_byte line line.busy line.coming;
  write = λ line bs. put_byte line line.busy bs;
  eintr = λ line. true;
}

pub delivered :
    (line : Line) (n busy : ℕ) (bs : Bytes)
    → 0 < n
    → 0 < length bs
    → Delivered slow
        (λ l. l.coming)
        (λ l. l.busy)
        (record line { busy = busy; coming = bs })
        n
        (next_byte (record line { busy = busy; coming = bs }) busy bs)
delivered line n zero [] h some_left = absurd (omega arith)
delivered line n zero (b ∷ bs) h some_left = (omega arith, h, refl, omega arith)
delivered line n (suc busy) bs h some_left = (refl, refl, omega arith)

pub accepted :
    (line : Line) (busy : ℕ) (bs : Bytes)
    → 0 < length bs
    → Accepted slow
        (λ l. l.gone)
        (λ l. l.busy)
        (record line { busy = busy })
        bs
        (put_byte (record line { busy = busy }) busy bs)
accepted line zero [] h = absurd (omega arith)
accepted line zero (b ∷ bs) h = (omega arith, omega arith, refl, omega arith)
accepted line (suc busy) bs h = (refl, refl, omega arith)

abbrev pub slow_input : Input slow
slow_input = record {
  rest = λ l. l.coming;
  patience = λ l. l.busy;
  delivers = λ l n h some_left. delivered l n l.busy l.coming h some_left;
}

abbrev pub slow_output : Output slow
slow_output = record {
  written = λ l. l.gone;
  patience = λ l. l.busy;
  accepts = λ l bs h. accepted l l.busy bs h;
}
