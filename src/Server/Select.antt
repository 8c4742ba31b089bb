-- ===== src/Server/Select.antt =====
-- One round of the loop of libmixp/server.c: what `prepare_select` asks for, what `select` leaves of it and
-- which connections are read.
use libmixp.Base.{ℕ, ◌+◌, ◌≡◌, Bool, true, false, ◌&&◌, ◌||◌, List, [], ◌∷◌, ◌==◌, if◌then◌else◌}
use libmixp.Server.{Connection, Server, is_linked, prepare_select, select}

-- A connection of the chain with a read function has the descriptor.
asks : (ℕ → Connection) → List ℕ → ℕ → Bool
asks conns [] fd = false
asks conns (c ∷ conn) fd = ((conns c).reads && (fd == (conns c).fd)) || asks conns conn fd

-- No two connections of the chain have one descriptor.
abbrev pub DistinctFds : Server → Type 0
DistinctFds s =
    (c d : ℕ)
    → is_linked c s.conn ≡ true
    → is_linked d s.conn ≡ true
    → (s.conns c).fd ≡ (s.conns d).fd
    → c ≡ d

selected : Server → (ℕ → Bool) → ℕ → Bool
selected s answer = let p = prepare_select s in select (p.maxfd + 1) p.rd answer

-- The connections of a chain that have a read function and that `select` finds ready, in order.
abbrev pub wanted : (ℕ → Bool) → (ℕ → Connection) → List ℕ → List ℕ
wanted answer conns [] = []
wanted answer conns (c ∷ rest) =
    if (conns c).reads && answer (conns c).fd
    then c ∷ wanted answer conns rest
    else wanted answer conns rest

module _ (rd answer : ℕ → Bool) (conns : ℕ → Connection) where
  abbrev Agrees : List ℕ → Type 0
  Agrees rest =
      (c : ℕ) → is_linked c rest ≡ true → rd (conns c).fd ≡ ((conns c).reads && answer (conns c).fd)

asked : Server → (ℕ → Bool) → Server
asked s answer = record (prepare_select s) { rd = selected s answer }
