-- ===== src/Server/Closing.antt =====
-- `ixp_server_close` of libmixp/server.c, and a hangup of what was opened last.
use libmixp.Base.{
  ℕ, ◌<◌, ◌≡◌, refl, sym, ap, ◌∙◌, Bool, true, Option, none, some, List, [], ◌∷◌, ◌++◌, ◌==◌, arith,
  ==_refl, if_true, if_false,
}
use mathlib.Core.List.{append_assoc, append-nil}
use libmixp.Server.{
  Connection, Event, Server, with_conn, listen_on, is_linked, hangup_events, mixp_hangup,
  close_from, ixp_server_close,
}
use libmixp.Server.Links.{IsServer, hung_up, listen-IsServer}
use libmixp.Server.Callbacks.{hung_up-IsServer, hung_up-Kept}

abbrev pub all_events : (ℕ → Connection) → List ℕ → List Event
all_events conns [] = []
all_events conns (c ∷ conn) = hangup_events (conns c) c ++ all_events conns conn

all_events-Kept :
    (f g : ℕ → Connection) (conn : List ℕ)
    → ((d : ℕ) → is_linked d conn ≡ true → g d ≡ f d)
    → all_events g conn ≡ all_events f conn
unfolding is_linked
all_events-Kept f g [] h = refl
all_events-Kept f g (c ∷ conn) h =
    let same : g c ≡ f c = h c (if_true _ (==_refl c)) in
    rw (same, all_events-Kept f g conn (λ d linked. h d (ground arith))) refl

close_on : List ℕ → Option Server → Option Server
close_on conn o = elim o [ none ↦ none | some s ↦ close_from s conn ]

close_from_all :
    (conn : List ℕ) (s : Server)
    → IsServer s
    → s.conn ≡ conn
    → (t : Server) × (close_from s conn ≡ some t)
      × (t.conn ≡ [])
      × (t.log ≡ s.log ++ all_events s.conns conn)
unfolding close_from close_on
close_from_all [] s i e = (s, refl, e, sym (append-nil s.log))
close_from_all (c ∷ conn) s i e =
    let (called, now, sound) = hung_up-IsServer s c [] conn i e in
    let kept = hung_up-Kept s c [] conn i e in
    let (t, closed, empty, log) = close_from_all conn (hung_up s c) sound now in
    (
      t,
      ap (close_on conn) called ∙ closed,
      empty,
      log
          ∙ ap (λ (later : List Event). (s.log ++ hangup_events (s.conns c) c) ++ later)
              (all_events-Kept s.conns (hung_up s c).conns conn kept.fields)
          ∙ append_assoc s.log (hangup_events (s.conns c) c) (all_events s.conns conn),
    )

-- Closing a server whose chain has no connection twice ends, fails no assertion and leaves an empty
-- chain. Each connection of the chain is closed once and in order: its close function is called, or its
-- descriptor shut down where it has none, before the descriptor is closed and the connection given back.
pub ixp_server_close-all_events :
    (s : Server)
    → IsServer s
    → (t : Server) × (ixp_server_close s ≡ some t)
      × (t.conn ≡ [])
      × (t.log ≡ s.log ++ all_events s.conns s.conn)
unfolding ixp_server_close
ixp_server_close-all_events s i = close_from_all s.conn s i refl

-- A connection that is opened stands first in the chain, and the chain is sound. Closing it again gives
-- the chain as it was, with the fields of all of its connections.
pub mixp_hangup-listen_on :
    (s : Server) (fd aux : ℕ) (reads closes : Bool)
    → IsServer s
    → let (opened, c) = listen_on s fd aux reads closes in
      (opened.conn ≡ c ∷ s.conn)
      × IsServer opened
      × ((t : Server) × (mixp_hangup opened c ≡ some t)
          × (t.conn ≡ s.conn)
          × ((d : ℕ) → is_linked d s.conn ≡ true → t.conns d ≡ s.conns d))
unfolding listen_on with_conn
mixp_hangup-listen_on s fd aux reads closes i =
    let opened = (listen_on s fd aux reads closes).0 in
    let sound : IsServer opened = listen-IsServer s fd aux reads closes i in
    let (called, now, others) = hung_up-IsServer opened s.next [] s.conn sound refl in
    let kept = hung_up-Kept opened s.next [] s.conn sound refl in
    (
      refl,
      sound,
      (
        hung_up opened s.next,
        called,
        now,
        λ d h.
            let known : d < s.next = i.unused d h in
            kept.fields d h ∙ if_false {b = d == s.next} _ (ground arith),
      ),
    )
