-- ===== src/Examples/Calls.antt =====
-- libmixp/rpc.c with two callers, 7 and 8.
use libmixp.Base.{
  ℕ, zero, suc, ◌+◌, ◌-◌, ◌*◌, ◌%◌, ◌^◌, ◌≤◌, ◌≡◌, ◌≢◌, ◌⊎◌, refl, true, false, none, some, arith,
}
use libmixp.Fcall.{Fcall, blank}
use libmixp.Rpc.{
  Rpc, Mux, slot, is_free, with_rpc, initrpc, doubled, grown, make_room, find_free, or_else, choose,
  got, sleeps, take_slot, claim, gettag_in, gettag, enqueue, is_queued, dispatchandqlock, hand_over,
  unlink,
}
use libmixp.Rpc.Tags.{Fresh, gettag-Fresh}
use libmixp.Rpc.Growth.{IsMux, Full}
use libmixp.Rpc.Runs.{Run, here, after, starts, idle, idle-IsSound}
use libmixp.Rpc.Delivery.{Run-IsSound, dispatchandqlock-delivers, tag-distinct}

abbrev unused : ℕ → Rpc
unused r = record { tag = 99; p = none; async = false }

abbrev empty : Mux
empty = idle 0 255 unused

abbrev one_tag : Mux
one_tag = take_slot (grown (initrpc empty 7)) 7 0

abbrev one : Mux
one = enqueue one_tag 7

abbrev two_tags : Mux
two_tags = take_slot (grown (initrpc one 8)) 8 1

-- 7 waits with the tag 0 and 8 with the tag 1.
abbrev two : Mux
two = enqueue two_tags 8

one-Run : Run empty one
unfolding initrpc take_slot grown is_queued gettag gettag_in make_room claim choose or_else
    find_free is_free doubled
one-Run = after here (starts 7 0 one_tag (λ j e. cc (e)) refl refl)

nobody_has_8 : (j : ℕ) → slot one j ≢ some 8
unfolding initrpc take_slot grown enqueue doubled
nobody_has_8 zero e = cc (e)
nobody_has_8 (suc j) e = cc (e)

two-Run : Run empty two
unfolding initrpc take_slot grown is_queued gettag gettag_in make_room claim choose or_else
    find_free is_free doubled enqueue
two-Run = after one-Run (starts 8 1 two_tags nobody_has_8 refl refl)

abbrev answer : Fcall
answer = record blank { type = 121; tag = 0 }

dispatchandqlock-delivers_example :
    ((r : ℕ)
      → is_queued r two.sleep ≡ true
      → 0 ≡ (two.rpcs r).tag
      → (((dispatchandqlock two answer).rpcs r).p ≡ some answer)
        × (is_queued r (dispatchandqlock two answer).sleep ≡ false)
        × ((q : ℕ)
            → q ≢ r
            → ((dispatchandqlock two answer).rpcs q ≡ two.rpcs q)
              × (is_queued q (dispatchandqlock two answer).sleep ≡ is_queued q two.sleep)))
    × (((r : ℕ) → is_queued r two.sleep ≡ true → 0 ≢ (two.rpcs r).tag)
        → dispatchandqlock two answer ≡ two)
dispatchandqlock-delivers_example = dispatchandqlock-delivers 0 255 unused two answer two-Run

-- The caller 7 gets the answer to the tag 0.
answered_7 :
    (((dispatchandqlock two answer).rpcs 7).p ≡ some answer)
    × (is_queued 8 (dispatchandqlock two answer).sleep ≡ true)
unfolding initrpc take_slot grown enqueue doubled with_rpc is_queued dispatchandqlock hand_over
    unlink
answered_7 = (refl, refl)

slot_0 : slot two 0 ≡ some 7
unfolding initrpc take_slot grown enqueue doubled
slot_0 = refl

slot_1 : slot two 1 ≡ some 8
unfolding initrpc take_slot grown enqueue doubled
slot_1 = refl

narrow : two.mintag + 2 * (two.maxtag - two.mintag - 1) + 1 ≤ 2 ^ 16
unfolding initrpc take_slot grown enqueue
narrow = omega arith

tag-distinct_example : (two.rpcs 7).tag % 2 ^ 16 ≢ (two.rpcs 8).tag % 2 ^ 16
tag-distinct_example =
    tag-distinct 0 255 unused two 0 1 7 8 two-Run narrow slot_0 slot_1 (λ e. omega (arith, e))

two-IsMux : IsMux two
two-IsMux = (Run-IsSound empty two (idle-IsSound 0 255 unused) two-Run).tags

nobody_has_9 : (j : ℕ) → slot two j ≢ some 9
unfolding initrpc take_slot grown enqueue doubled
nobody_has_9 zero e = cc (e)
nobody_has_9 (suc zero) e = cc (e)
nobody_has_9 (suc (suc j)) e = cc (e)

gettag-Fresh_example :
    (Full two × (gettag two 9 ≡ sleeps))
    ⊎ ((i : ℕ) × (m : Mux) × (gettag two 9 ≡ got m (i + two.mintag)) × Fresh two m 9 i)
gettag-Fresh_example = gettag-Fresh two 9 two-IsMux nobody_has_9
