-- ===== src/Server.antt =====
-- libmixp/server.c: the connections of a server and the loop over those that can be read. A connection is
-- known by its address; `conns` holds the fields, and `conn` is the chain of `next` from `s->conn` on.
-- `select` and the callbacks are parameters; `log` is what the library does to the descriptors.
pub mod Links
pub mod Select
pub mod Visits
pub mod Callbacks
pub mod Closing
use libmixp.Base.{
  ℕ, zero, suc, ◌+◌, Bool, true, false, ◌&&◌, Option, none, some, List, [], ◌∷◌, ◌++◌, ltb, ◌==◌,
  if◌then◌else◌,
}

-- `reads` and `closes` tell whether the callback is set.
pub record Connection : Type 0 where
  pub aux : ℕ
  pub fd : ℕ
  pub reads : Bool
  pub closes : Bool
  pub closed : Bool

pub data Event : Type 0 where
  close_called shut_down fd_closed released : ℕ → Event

pub record Server : Type 0 where
  pub conn : List ℕ
  pub running : Bool
  pub maxfd : ℕ
  pub rd : ℕ → Bool
  pub conns : ℕ → Connection
  pub next : ℕ
  pub log : List Event

unfoldable pub with_conn : (ℕ → Connection) → ℕ → Connection → ℕ → Connection
with_conn conns c fields d = if d == c then fields else conns d

-- `next` is the address that `calloc` gives.
unfoldable pub listen_on : Server → ℕ → ℕ → Bool → Bool → Server × ℕ
listen_on s fd aux reads closes =
    let fields : Connection = record {
      aux = aux;
      fd = fd;
      reads = reads;
      closes = closes;
      closed = false;
    } in
    (
      record s {
        conns = with_conn s.conns s.next fields;
        conn = s.next ∷ s.conn;
        next = s.next + 1;
      },
      s.next,
    )

unfoldable pub ixp_listen : Option Server → ℕ → ℕ → Bool → Bool → Option (Server × ℕ)
ixp_listen none fd aux reads closes = none
ixp_listen (some s) fd aux reads closes = some (listen_on s fd aux reads closes)

unfoldable pub is_linked : ℕ → List ℕ → Bool
is_linked c [] = false
is_linked c (d ∷ conn) = if d == c then true else is_linked c conn

unfoldable pub unchain : ℕ → List ℕ → List ℕ
unchain c [] = []
unchain c (d ∷ conn) = if d == c then conn else d ∷ unchain c conn

abbrev pub hangup_events : Connection → ℕ → List Event
hangup_events x c =
    (if x.closes then close_called c else shut_down x.fd) ∷ fd_closed x.fd ∷ released c ∷ []

-- `none` is the failed assertion.
unfoldable pub mixp_hangup : Server → ℕ → Option Server
mixp_hangup s c =
    if is_linked c s.conn
    then some (record s {
      conn = unchain c s.conn;
      conns = with_conn s.conns c (record (s.conns c) { closed = true });
      log = s.log ++ hangup_events (s.conns c) c;
    })
    else none

unfoldable pub add_fd : Server → Connection → Server
add_fd s x =
    if x.reads
    then record s {
      maxfd = if ltb s.maxfd x.fd then x.fd else s.maxfd;
      rd = λ fd. if fd == x.fd then true else s.rd fd;
    }
    else s

unfoldable pub add_fds : Server → List ℕ → Server
add_fds s [] = s
add_fds s (c ∷ conn) = add_fds (add_fd s (s.conns c)) conn

unfoldable pub prepare_select : Server → Server
prepare_select s = add_fds (record s { rd = λ fd. false }) s.conn

-- The chain behind a connection.
unfoldable pub next_in : ℕ → List ℕ → Option ℕ
next_in c [] = none
next_in c (d ∷ []) = none
next_in c (d ∷ e ∷ conn) = if d == c then some e else next_in c (e ∷ conn)

unfoldable pub first_of : List ℕ → Option ℕ
first_of [] = none
first_of (c ∷ conn) = some c

-- `done` also has the connections whose `read` was called. `faults` is a use of a connection that was
-- given back or a call of a NULL callback, and `runs` a loop that has not ended.
pub data Visited : Type 0 where
  done : Server → List ℕ → Visited
  faults runs : Visited

unfoldable pub add_call : ℕ → Visited → Visited
add_call c faults = faults
add_call c runs = runs
add_call c (done s calls) = done s (c ∷ calls)

-- What `select` leaves of the descriptors below `n` when those of `answer` can be read.
unfoldable pub select : ℕ → (ℕ → Bool) → (ℕ → Bool) → ℕ → Bool
select n asked answer fd = ltb fd n && (asked fd && answer fd)

pub data Selected : Type 0 where
  ready : (ℕ → Bool) → Selected
  interrupted : Selected
  select_failed : ℕ → Selected

pub data Loop : Type 0 where
  stopped : Server → Loop
  fails : ℕ → Loop
  waits : Server → Loop
  breaks : Loop

module _ (read : ℕ → Server → Option Server) where
  unfoldable pub visit : ℕ → Server → Option ℕ → Visited
  visit rounds s none = done s []
  visit zero s (some c) = runs
  visit (suc rounds) s (some c) =
      let n = next_in c s.conn in
      let called : Visited = elim (read c s) [
        | none ↦ faults
        | some s1 ↦ add_call c (visit rounds s1 n)
      ] in
      let passed = visit rounds s n in
      let here =
        if s.rd (s.conns c).fd then (if (s.conns c).reads then called else faults) else passed in
      if is_linked c s.conn then here else faults

  unfoldable pub handle_conns : ℕ → Server → Visited
  handle_conns rounds s = visit rounds s (first_of s.conn)

  -- One round of the loop in which `select` gives an answer.
  unfoldable pub select_round : ℕ → Server → (ℕ → Bool) → Visited
  select_round rounds s answer =
      let p = prepare_select s in
      handle_conns rounds (record p { rd = select (p.maxfd + 1) p.rd answer })

  module _ (preselect : Server → Server) where
    -- For each answer of `select` in turn.
    unfoldable pub rounds_of : ℕ → Server → List Selected → Loop
    rounds_of rounds s [] = if s.running then waits s else stopped s
    rounds_of rounds s (ready answer ∷ answers) =
        let onward : Loop = elim (select_round rounds (preselect s) answer) [
          | done s1 calls ↦ rounds_of rounds s1 answers
          | faults ↦ breaks
          | runs ↦ breaks
        ] in
        if s.running then onward else stopped s
    rounds_of rounds s (interrupted ∷ answers) =
        let onward = rounds_of rounds (prepare_select (preselect s)) answers in
        if s.running then onward else stopped s
    rounds_of rounds s (select_failed errno ∷ answers) =
        if s.running then fails errno else stopped s

    unfoldable pub mixp_server_loop : ℕ → Server → List Selected → Loop
    mixp_server_loop rounds s = rounds_of rounds (record s { running = true })

-- From `s->conn` on, with `next` read before the hangup.
unfoldable pub close_from : Server → List ℕ → Option Server
close_from s [] = some s
close_from s (c ∷ conn) = elim (mixp_hangup s c) [ none ↦ none | some s1 ↦ close_from s1 conn ]

unfoldable pub ixp_server_close : Server → Option Server
ixp_server_close s = close_from s s.conn
