-- ===== src/Request/Access.antt =====
-- `handlereq` of libmixp/request.c: on which fids the file system's functions are called.
use libmixp.Base.{ℕ, ◌%◌, ◌≡◌, ◌≢◌, ◌⊎◌, Bool, true, some}
use libmixp.Fcall.{Fcall}
use libmixp.Intmap.{lookupkey}
use libmixp.Request.{
  Fid, Conn, Request, Op, op_create, op_open, op_read, op_write, not_open, is_directory,
}

-- What a function of the file system may rely on.
abbrev pub Granted : Op → Fcall → Fid → Type 0
Granted op_create f x = (x.omode ≡ not_open) × (is_directory x ≡ true)
Granted op_open f x = is_directory x ≡ true → (f.mode ≡ 0) ⊎ (f.mode ≡ 64)
Granted op_read f x = (x.omode ≢ not_open) × (x.omode ≢ 1)
Granted op_write f x = (x.omode % 4 ≡ 1) ⊎ (x.omode % 4 ≡ 2)
Granted _ f x = Unit

module _ (has : Op → Bool) where
  -- The fid that a function of the file system is called on.
  abbrev pub Sound : Op → Conn → Request → Type 0
  Sound op c r =
      (a : ℕ) × (lookupkey c.fidmap r.ifcall.fid ≡ some a) × Granted op r.ifcall (c.fids a)
