-- ===== src/Rpc/Answers.antt =====
-- `muxrpc` of libmixp/rpc.c: a caller that reads for itself gets its answer.
use libmixp.Base.{
  ℕ, zero, suc, ◌-◌, ◌%◌, ◌^◌, ◌<◌, ◌≡◌, ◌≢◌, refl, sym, ap, ◌∙◌, false, Option, none, some, List,
  [], ◌∷◌, length, arith, if◌then◌else◌, if_elim, if_false, ◌==◌, ==→eq, Bool-cases, inl, inr, ltb,
  ltb→le,
}
use mathlib.Core.Path.{subst}
use libmixp.Convert.{Message}
use libmixp.Fcall.{Fcall}
use libmixp.Message.{fcall2msg}
use libmixp.Transport.{System, sendmsg}
use libmixp.Rpc.{
  Rpc, Mux, got, slot, initrpc, gettag, enqueue, is_queued, hand_over, dispatchandqlock, electmuxer,
  with_rpc,
}
use libmixp.Rpc.Runs.{Run, after, starts, elects, idle, idle-IsSound, IsSound}
use libmixp.Rpc.Delivery.{Run-IsSound, dispatchandqlock-delivers}
use libmixp.Rpc.Caller.{Calls, dispatch-Calls, muxes-Calls, puttag-Gone, gettag-Starts, Starts}
use libmixp.Rpc.Program.{
  Link, Called, returns, incoming, with_mux, released, finished, dispatched, unless_answered,
  muxrecv, mux_loop, start_muxing, await, after_sending, after_packing, with_tag, muxrpc,
}

-- An answer with another tag leaves the caller's fields alone.
module _ (m : Mux) (s : IsSound m) (r : ℕ) (g : Fcall) (other : g.tag ≢ (m.rpcs r).tag) where
  passed_by :
      (o : Option ℕ)
      → slot m (g.tag - m.mintag) ≡ o
      → ltb g.tag m.mintag ≡ false
      → (hand_over m g o).rpcs r ≡ m.rpcs r
  unfolding hand_over with_rpc
  passed_by none e above = refl
  passed_by (some q) e above =
      if_elim (λ (x : Mux). x.rpcs r ≡ m.rpcs r) (is_queued q m.sleep) _ m
        (λ _. elim (Bool-cases (r == q)) [
          | inr differs ↦ if_false _ differs
          | inl same ↦
              let tag = s.tags.tagged (g.tag - m.mintag) q e in
              let of_r = ap (λ (k : ℕ). (m.rpcs k).tag) (==→eq r q same) in
              absurd (other (omega (arith, tag, of_r, ltb→le g.tag m.mintag above)))
        ])
        (λ _. refl)

  dispatch-other : (dispatchandqlock m g).rpcs r ≡ m.rpcs r
  unfolding dispatchandqlock
  dispatch-other =
      let i = g.tag - m.mintag in
      let P = λ (x : Mux). x.rpcs r ≡ m.rpcs r in
      if_elim P (ltb g.tag m.mintag) m (if ltb i m.mwait then hand_over m g (slot m i) else m)
        (λ _. refl)
        (λ above.
          if_elim P (ltb i m.mwait) (hand_over m g (slot m i)) m
            (λ _. passed_by (slot m i) refl above) (λ _. refl))

-- The messages that come in one after the other, the last one apart.
pub data Arrives {ℓ} {W : Type ℓ} (system : System W) (rounds : ℕ)
    : W → Message → List Fcall → Fcall → Type ℓ where
  last :
      {w w1 : W} {msg msg1 : Message} {f : Fcall}
      → muxrecv system rounds w msg ≡ incoming w1 msg1 (some f)
      → Arrives system rounds w msg [] f
  before :
      {w w1 : W} {msg msg1 : Message} {g f : Fcall} {gs : List Fcall}
      → muxrecv system rounds w msg ≡ incoming w1 msg1 (some g)
      → Arrives system rounds w1 msg1 gs f
      → Arrives system rounds w msg (g ∷ gs) f

abbrev pub OtherTags : ℕ → List Fcall → Type 0
OtherTags t [] = Unit
OtherTags t (g ∷ gs) = (g.tag ≢ t) × OtherTags t gs

module _ {ℓ} {W : Type ℓ} (system : System W) (rounds mintag maxtag : ℕ) (rpcs : ℕ → Rpc)
    (r : ℕ) where
  abbrev m0 : Mux
  m0 = idle mintag maxtag rpcs

  abbrev s0 : IsSound m0
  s0 = idle-IsSound mintag maxtag rpcs

  abbrev Answers : Called W → Fcall → Type ℓ
  Answers c f = (w : W) × (l : Link) × (c ≡ returns w l (some f))

  finished-Answers :
      (w : W) (l : Link) (f : Fcall)
      → Calls m0 l.mux r
      → (l.mux.rpcs r).p ≡ some f
      → Answers (finished w l r) f
  unfolding finished released electmuxer
  finished-Answers w l f c has_p = elim c.state [
    | inl (no_p, queued) ↦ absurd (cc (no_p, has_p))
    | inr (g, same, out) ↦
        let (m1, e, gone) =
          puttag-Gone m0 s0 r (electmuxer l.mux) c.holds.0 (after c.run elects) c.holds.1 out in
        (
          w,
          with_mux (with_mux l (electmuxer l.mux)) m1,
          ap (λ o. released w (with_mux l (electmuxer l.mux)) ((electmuxer l.mux).rpcs r).p o) e
              ∙ ap (λ p. returns w (with_mux (with_mux l (electmuxer l.mux)) m1) p) has_p,
        )
  ]

  one_turn :
      (turns : ℕ) (w w1 : W) (l : Link) (msg1 : Message) (g : Fcall)
      → (l.mux.rpcs r).p ≡ none
      → muxrecv system rounds w l.rmsg ≡ incoming w1 msg1 (some g)
      → mux_loop system (suc turns) rounds w l r
        ≡ mux_loop system turns rounds w1
            (record l { rmsg = msg1; mux = dispatchandqlock l.mux g })
            r
  unfolding mux_loop unless_answered dispatched
  one_turn turns w w1 l msg1 g no_p e =
      let again = λ (w2 : W) (l2 : Link). mux_loop system turns rounds w2 l2 r in
      ap
        (λ o.
          unless_answered o (dispatched again l r (muxrecv system rounds w l.rmsg))
            (finished w l r))
        no_p
      ∙ ap (dispatched again l r) e

  last_turn :
      (turns : ℕ) (w : W) (l : Link) (f : Fcall)
      → (l.mux.rpcs r).p ≡ some f
      → mux_loop system (suc turns) rounds w l r ≡ finished w l r
  unfolding mux_loop unless_answered
  last_turn turns w l f has_p =
      let again = λ (w2 : W) (l2 : Link). mux_loop system turns rounds w2 l2 r in
      ap
        (λ o.
          unless_answered o (dispatched again l r (muxrecv system rounds w l.rmsg))
            (finished w l r))
        has_p

  delivers :
      (m : Mux) (f : Fcall)
      → Calls m0 m r
      → (m.rpcs r).p ≡ none
      → f.tag ≡ (m.rpcs r).tag
      → ((dispatchandqlock m f).rpcs r).p ≡ some f
  delivers m f c no_p mine = elim c.state [
    | inl (same, queued) ↦
        ((dispatchandqlock-delivers mintag maxtag rpcs m f c.run).0 r queued mine).0
    | inr (g, has_p, out) ↦ absurd (cc (no_p, has_p))
  ]

  continues : (c c1 : Called W) (f : Fcall) → c ≡ c1 → Answers c1 f → Answers c f
  continues c c1 f e (w, l, answers) = (w, l, e ∙ answers)

  loop-Answers :
      (turns : ℕ) (w : W) (l : Link) (gs : List Fcall) (f : Fcall)
      → Calls m0 l.mux r
      → (l.mux.rpcs r).p ≡ none
      → Arrives system rounds w l.rmsg gs f
      → OtherTags (l.mux.rpcs r).tag gs
      → f.tag ≡ (l.mux.rpcs r).tag
      → suc (length gs) < turns
      → Answers (mux_loop system turns rounds w l r) f
  loop-Answers zero w l gs f c no_p arrives others mine fuel = absurd (omega (arith, fuel))
  loop-Answers (suc zero) w l gs f c no_p arrives others mine fuel = absurd (omega (arith, fuel))
  loop-Answers (suc (suc turns)) w l gs f c no_p (last {w1} {msg1} e) others mine fuel =
      let l1 = record l { rmsg = msg1; mux = dispatchandqlock l.mux f } in
      let has_p = delivers l.mux f c no_p mine in
      continues _ _ f (one_turn (suc turns) w w1 l msg1 f no_p e ∙ last_turn turns w1 l1 f has_p)
        (finished-Answers w1 l1 f (dispatch-Calls m0 s0 r l.mux f c) has_p)
  loop-Answers (suc (suc turns)) w l gs f c no_p (before {w1} {msg1} {g} {gs = gs1} e arrives)
        (other, others) mine fuel =
      let l1 = record l { rmsg = msg1; mux = dispatchandqlock l.mux g } in
      let same = dispatch-other l.mux (Run-IsSound m0 l.mux s0 c.run) r g other in
      let same_tag : (l1.mux.rpcs r).tag ≡ (l.mux.rpcs r).tag = ap (λ (x : Rpc). x.tag) same in
      continues _ _ f (one_turn (suc turns) w w1 l msg1 g no_p e) (
        loop-Answers (suc turns) w1 l1 gs1 f (dispatch-Calls m0 s0 r l.mux g c)
          (ap (λ (x : Rpc). x.p) same ∙ no_p) arrives
          (subst (λ (t : ℕ). OtherTags t gs1) (sym same_tag) others) (mine ∙ sym same_tag)
          (omega (arith, fuel)))

  -- In every state that the calls of a client can lead to, if a caller that has no call yet is given a tag,
  -- nobody reads, its message is packed and sent, and answers with other tags arrive and then one with its own,
  -- `muxrpc` returns this answer. Two turns of its loop more than there are other answers are enough.
  pub muxrpc-Answers :
      (turns : ℕ) (w w1 : W) (l : Link) (tx f1 f : Fcall) (m : Mux) (t n k : ℕ) (msg msg1 : Message)
      (gs : List Fcall)
      → Run m0 l.mux
      → ((j : ℕ) → slot l.mux j ≢ some r)
      → is_queued r l.mux.sleep ≡ false
      → gettag (initrpc l.mux r) r ≡ got m t
      → m.muxer ≡ none
      → fcall2msg l.wmsg (record tx { tag = t % 2 ^ 16 }) ≡ some (msg, f1, suc n)
      → sendmsg system rounds w msg ≡ some (w1, msg1, suc k)
      → Arrives system rounds w1 l.rmsg gs f
      → OtherTags (m.rpcs r).tag gs
      → f.tag ≡ (m.rpcs r).tag
      → suc (length gs) < turns
      → (w2 : W) × (l2 : Link) × (muxrpc system turns rounds w l r tx ≡ returns w2 l2 (some f))
  unfolding muxrpc with_tag after_packing after_sending await start_muxing enqueue
  muxrpc-Answers turns w w1 l tx f1 f m t n k msg msg1 gs run no_slot out tagged nobody fits goes
        arrives others mine fuel =
      let s = Run-IsSound m0 l.mux s0 run in
      let (c, no_p) =
        subst (Starts l.mux s r no_slot out) tagged (gettag-Starts l.mux s r no_slot out) in
      let c0 : Calls m0 (enqueue m r) r = record {
        run = after run (starts r t m no_slot out tagged);
        holds = c.holds;
        state = c.state;
      } in
      let l1 = with_mux l (enqueue m r) in
      let l2 = record l1 { wmsg = msg1; mux = record l1.mux { muxer = some r } } in
      continues _ _ f
        (ap (with_tag system turns rounds w l r tx) tagged
          ∙ ap (after_packing system turns rounds w l1 r) fits
          ∙ ap (after_sending system turns rounds l1 r) goes
          ∙ ap (await system turns rounds w1 (record l1 { wmsg = msg1 }) r) nobody)
        (loop-Answers turns w1 l2 gs f (muxes-Calls m0 s0 r (enqueue m r) c0) no_p arrives others
          mine fuel)
