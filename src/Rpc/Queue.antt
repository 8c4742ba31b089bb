-- ===== src/Rpc/Queue.antt =====
-- The ring of the waiting callers in libmixp/rpc.c, as a list in which nobody stands twice.
use libmixp.Base.{ℕ, ◌≡◌, false, List, [], ◌∷◌, arith, if◌then◌else◌, if_elim, ◌==◌}
use libmixp.Rpc.{is_queued, unlink}

abbrev pub IsDistinct : List ℕ → Type 0
IsDistinct [] = Unit
IsDistinct (q ∷ sleep) = (is_queued q sleep ≡ false) × IsDistinct sleep

pub is_queued-unlink :
    (q r : ℕ) (sleep : List ℕ)
    → IsDistinct sleep
    → is_queued q (unlink r sleep) ≡ (if q == r then false else is_queued q sleep)
unfolding is_queued unlink
is_queued-unlink q r [] u = ground arith
is_queued-unlink q r (p ∷ sleep) (absent, u) = ground (arith, is_queued-unlink q r sleep u)

pub unlink-IsDistinct : (r : ℕ) (sleep : List ℕ) → IsDistinct sleep → IsDistinct (unlink r sleep)
unfolding unlink
unlink-IsDistinct r [] u = tt
unlink-IsDistinct r (p ∷ sleep) (absent, u) =
    if_elim IsDistinct (p == r) sleep (p ∷ unlink r sleep) (λ _. u)
      (λ other. (rw (is_queued-unlink p r sleep u, other) absent, unlink-IsDistinct r sleep u))
