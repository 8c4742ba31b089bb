-- ===== src/Rpc.antt =====
-- libmixp/rpc.c: the tags of the calls that wait for an answer, and the ring of the waiting callers.
-- An MIXP_RPC is known by a number in place of its address. `rpcs` holds their fields; the ring from
-- `sleep.next` on is the list `sleep`, and an rpc's `prev` is NULL exactly if it is not in this list.
-- Each function runs with the lock `lk` held, so it is one step.
pub mod Slots
pub mod Growth
pub mod Tags
pub mod Returned
pub mod Queue
pub mod Runs
pub mod Delivery
pub mod Caller
pub mod Program
pub mod Completes
pub mod Answers
use libmixp.Base.{
  ℕ, zero, suc, ◌+◌, ◌-◌, ◌*◌, ◌%◌, ◌^◌, Bool, true, false, Option, none, some, List, [], ◌∷◌, ◌++◌,
  get_or, set, replicate, ltb, ◌==◌, if◌then◌else◌,
}
use libmixp.Fcall.{Fcall}

pub record Rpc : Type 0 where
  pub tag : ℕ
  pub p : Option Fcall
  pub async : Bool

-- The part of MIXP_CLIENT that rpc.c works on.
pub record Mux : Type 0 where
  pub mintag : ℕ
  pub maxtag : ℕ
  pub nwait : ℕ
  pub mwait : ℕ
  pub freetag : ℕ
  pub wait : List (Option ℕ)
  pub sleep : List ℕ
  pub muxer : Option ℕ
  pub rpcs : ℕ → Rpc

unfoldable pub with_rpc : (ℕ → Rpc) → ℕ → Rpc → ℕ → Rpc
with_rpc rpcs r fields q = if q == r then fields else rpcs q

-- `tag` and `async` are not set: they are what the caller's stack holds.
unfoldable pub initrpc : Mux → ℕ → Mux
initrpc mux r = record mux { rpcs = with_rpc mux.rpcs r (record (mux.rpcs r) { p = none }) }

abbrev pub slot : Mux → ℕ → Option ℕ
slot mux i = get_or mux.wait i none

-- `mux->wait[i] == 0`
unfoldable pub is_free : Option ℕ → Bool
is_free none = true
is_free (some r) = false

-- `mw`
unfoldable pub doubled : ℕ → ℕ
doubled zero = 1
doubled (suc n) = suc n * 2

unfoldable pub grown : Mux → Mux
grown mux =
    let mw = doubled mux.mwait in
    record mux {
      wait = mux.wait ++ replicate (mw - mux.mwait) none;
      freetag = mux.mwait;
      mwait = mw;
    }

-- The inner `while` of `gettag`: `none` is a caller that sleeps on `tagrend`. When it is woken it runs
-- the whole test again.
unfoldable pub make_room : Mux → Option Mux
make_room mux =
    if mux.nwait == mux.mwait
    then (if ltb mux.mwait (mux.maxtag - mux.mintag) then some (grown mux) else none)
    else some mux

-- The `n` slots from `i` on.
unfoldable pub find_free : ℕ → ℕ → List (Option ℕ) → Option ℕ
find_free zero i wait = none
find_free (suc n) i wait =
    let later = find_free n (suc i) wait in if is_free (get_or wait i none) then some i else later

unfoldable pub or_else : Option ℕ → Option ℕ → Option ℕ
or_else none other = other
or_else (some i) other = some i

-- From `freetag` to the end, then from the start to `freetag`.
unfoldable pub choose : Mux → Option ℕ
choose mux =
    or_else (find_free (mux.mwait - mux.freetag) mux.freetag mux.wait)
      (find_free mux.freetag 0 mux.wait)

pub data Got : Type 0 where
  got : Mux → ℕ → Got
  sleeps : Got
  aborts : Got

-- `Found:`
unfoldable pub take_slot : Mux → ℕ → ℕ → Mux
take_slot mux r i = record mux {
  nwait = mux.nwait + 1;
  wait = set mux.wait i (some r);
  rpcs = with_rpc mux.rpcs r (record (mux.rpcs r) { tag = i + mux.mintag });
}

unfoldable pub claim : Mux → ℕ → Option ℕ → Got
claim mux r none = aborts
claim mux r (some i) = got (take_slot mux r i) (i + mux.mintag)

unfoldable pub gettag_in : ℕ → Option Mux → Got
gettag_in r none = sleeps
gettag_in r (some mux) = claim mux r (choose mux)

unfoldable pub gettag : Mux → ℕ → Got
gettag mux r = gettag_in r (make_room mux)

unfoldable pub is_rpc : Option ℕ → ℕ → Bool
is_rpc none r = false
is_rpc (some q) r = q == r

-- `none` is a failed assertion.
unfoldable pub puttag : Mux → ℕ → Option Mux
puttag mux r =
    let i = (mux.rpcs r).tag - mux.mintag in
    if is_rpc (slot mux i) r
    then some (record mux { wait = set mux.wait i none; nwait = mux.nwait - 1; freetag = i })
    else none

unfoldable pub enqueue : Mux → ℕ → Mux
enqueue mux r = record mux { sleep = r ∷ mux.sleep }

unfoldable pub is_queued : ℕ → List ℕ → Bool
is_queued r [] = false
is_queued r (q ∷ sleep) = if q == r then true else is_queued r sleep

unfoldable pub unlink : ℕ → List ℕ → List ℕ
unlink r [] = []
unlink r (q ∷ sleep) = if q == r then sleep else q ∷ unlink r sleep

-- `none` is a write through the NULL pointers of an rpc that is not in the ring.
unfoldable pub dequeue : Mux → ℕ → Option Mux
dequeue mux r =
    if is_queued r mux.sleep then some (record mux { sleep = unlink r mux.sleep }) else none

unfoldable pub hand_over : Mux → Fcall → Option ℕ → Mux
hand_over mux f none = mux
hand_over mux f (some r) =
    if is_queued r mux.sleep
    then record mux {
      rpcs = with_rpc mux.rpcs r (record (mux.rpcs r) { p = some f });
      sleep = unlink r mux.sleep;
    }
    else mux

-- An answer with a tag out of range or that nobody waits for is dropped.
unfoldable pub dispatchandqlock : Mux → Fcall → Mux
dispatchandqlock mux f =
    let tag = f.tag - mux.mintag in
    let handed = hand_over mux f (slot mux tag) in
    if ltb f.tag mux.mintag then mux else (if ltb tag mux.mwait then handed else mux)

unfoldable pub first_sync : Mux → List ℕ → Option ℕ
first_sync mux [] = none
first_sync mux (r ∷ sleep) =
    let later = first_sync mux sleep in if (mux.rpcs r).async then later else some r

unfoldable pub electmuxer : Mux → Mux
electmuxer mux = record mux { muxer = first_sync mux mux.sleep }
