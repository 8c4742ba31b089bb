-- ===== src/Examples/Connections.antt =====
-- libmixp/server.c with a listener that opens a connection whenever it is read, and an open connection.
use libmixp.Base.{ℕ, ◌+◌, Bool, true, false, [], ◌∷◌, ◌==◌, if◌then◌else◌}
use libmixp.Server.{Connection, Server}
use libmixp.Server.Callbacks.{Reaction, opens, hangs_up}

abbrev fields : ℕ → Connection
fields c = record { aux = c; fd = c + 3; reads = true; closes = c == 1; closed = false }

abbrev two : Server
two = record {
  conn = 1 ∷ 0 ∷ [];
  running = true;
  maxfd = 0;
  rd = λ fd. false;
  conns = fields;
  next = 2;
  log = [];
}

abbrev choice : ℕ → Server → Reaction
choice c s = if c == 0 then opens 9 9 else hangs_up

abbrev all_ready : ℕ → Bool
all_ready fd = true
