-- ===== src/Rpc/Completes.antt =====
-- `muxrpc` of libmixp/rpc.c whole: what a call leaves behind, whatever the system calls do.
use libmixp.Base.{ℕ}
use libmixp.Convert.{Message}
use libmixp.Fcall.{Fcall}
use libmixp.Rpc.{Mux}
use libmixp.Rpc.Runs.{IsSound}
use libmixp.Rpc.Caller.{Gone}
use libmixp.Rpc.Program.{Called, waits, crashes, faults, loops, returns}

module _ {ℓ} {W : Type ℓ} (m0 : Mux) (s0 : IsSound m0) (r : ℕ) where
  -- No assertion of rpc.c fails; a call that returns is gone.
  abbrev pub Completes : Called W → Type 0
  Completes waits = Unit
  Completes crashes = ⊥
  Completes faults = Unit
  Completes loops = Unit
  Completes (returns w l p) = Gone m0 l.mux r
