-- ===== src/Request.antt =====
-- libmixp/request.c: what a server does with a request before it calls the file system's function, and
-- what its answer does to the fids. An MIXP_FID is known by its address: `fids` holds the fields, and the
-- fid map gives addresses. The functions of MIXP_SRV_OPS are a parameter, of which `handlereq` only sees
-- which of them are there. `omode` is a `signed char`, here a byte: 255 is -1, a fid that is not open.
pub mod Access
pub mod Answer
pub mod Walking
pub mod Reply
pub mod Sending
pub mod Flushing
pub mod Incoming
pub mod Arriving
pub mod Accept
use libmixp.Base.{
  ℕ, zero, suc, ◌+◌, ◌-◌, ◌%◌, Bool, true, false, ◌||◌, not, Option, none, some, get_or, leb, ltb,
  ◌==◌, if◌then◌else◌, [], ◌∷◌, Bytes, List,
}
use mathlib.Core.Option
use libmixp.Compound.{Str, text_of, Qid, zero_qid}
use libmixp.Fcall.{
  Fcall, FcallType, t_version, t_attach, t_clunk, t_flush, t_create, t_open, t_read, t_remove,
  t_stat, t_walk, t_write, fcall_type,
}
use libmixp.Intmap.{Intmap, lookupkey, caninsertkey, deletekey}

pub record Fid : Type 0 where
  pub fid : ℕ
  pub qid : Qid
  pub omode : ℕ

-- The part of MIXP_9CONN that the fids and tags live in; `next` is the address of the next allocation.
pub record Conn : Type 0 where
  pub tagmap : Intmap ℕ
  pub fidmap : Intmap ℕ
  pub fids : ℕ → Fid
  pub next : ℕ
  pub ref : ℕ

pub record Request : Type 0 where
  pub fid : Option ℕ
  pub newfid : Option ℕ
  pub oldreq : Option ℕ
  pub ifcall : Fcall
  pub ofcall : Fcall

-- The strings of request.c.
pub data Error : Type 0 where
  dup_fid no_func botch no_fid no_tag not_dir is_dir walk_open not_writable : Error
  dup_tag no_file interrupted : Error

pub data Op : Type 0 where
  op_attach op_clunk op_flush op_create op_open op_read op_remove op_stat op_walk op_write : Op

pub data Outcome : Type 0 where
  responds : Option Error → Outcome
  calls : Op → Outcome

abbrev pub not_open : ℕ
not_open = 255

-- `qid.type & P9_QTDIR`
abbrev pub is_directory : Fid → Bool
is_directory f = leb 128 (f.qid.type % 256)

unfoldable pub createfid : Conn → ℕ → Conn × Option ℕ
createfid c fid =
    let f : Fid = record { fid = fid; qid = zero_qid; omode = not_open } in
    let (fidmap, inserted) = caninsertkey c.fidmap fid c.next in
    (
      record c {
        fidmap = fidmap;
        fids = λ a. if a == c.next then f else c.fids a;
        next = c.next + 1;
        ref = c.ref + 1;
      },
      if inserted then some c.next else none,
    )

unfoldable pub fid_dropped : Conn → Intmap ℕ × Option ℕ → Conn × Bool
fid_dropped c (fidmap, none) = (record c { fidmap = fidmap }, false)
fid_dropped c (fidmap, some f) = (record c { fidmap = fidmap; ref = c.ref - 1 }, true)

-- `none` is a deletion that does not end.
unfoldable pub destroyfid : ℕ → Conn → ℕ → Option (Conn × Bool)
destroyfid rounds c fid = Option.map (fid_dropped c) (deletekey rounds c.fidmap fid)

unfoldable pub same_bytes : Bytes → Bytes → Bool
same_bytes [] [] = true
same_bytes [] (y ∷ ys) = false
same_bytes (x ∷ xs) [] = false
same_bytes (x ∷ xs) (y ∷ ys) = if x == y then same_bytes xs ys else false

abbrev pub old_version : Bytes
old_version = b'9' ∷ b'P' ∷ []

abbrev pub current_version : Bytes
current_version = b'9' ∷ b'P' ∷ b'2' ∷ b'0' ∷ b'0' ∷ b'0' ∷ []

abbrev pub unknown_version : Bytes
unknown_version = b'u' ∷ b'n' ∷ b'k' ∷ b'n' ∷ b'o' ∷ b'w' ∷ b'n' ∷ []

-- What Tversion is answered.
unfoldable pub version_answer : Fcall → Fcall → Fcall
version_answer f out =
    let asked = text_of f.version in
    let version =
      if same_bytes asked old_version
      then old_version
      else (if same_bytes asked current_version then current_version else unknown_version) in
    record out { version = some version; msize = if f.msize == 0 then 8192 else f.msize }

module _ (has : Op → Bool) where
  unfoldable pub if_there : Op → Outcome
  if_there op = if has op then calls op else responds (some no_func)

  -- The tests of each case of `handlereq` behind the lookup of the fid.
  unfoldable pub guard : FcallType → Fcall → Fid → Outcome
  guard t_clunk f x = if has op_clunk then calls op_clunk else responds none
  guard t_create f x =
      if x.omode == not_open
      then (if is_directory x then if_there op_create else responds (some not_dir))
      else responds (some botch)
  guard t_open f x =
      let plain = (f.mode == 0) || (f.mode == 64) in
      if is_directory x
      then (if plain then if_there op_open else responds (some is_dir))
      else if_there op_open
  guard t_read f x =
      if (x.omode == not_open) || (x.omode == 1) then responds (some botch) else if_there op_read
  guard t_remove f x = if_there op_remove
  guard t_stat f x = if_there op_stat
  guard t_write f x =
      if (x.omode % 4 == 1) || (x.omode % 4 == 2)
      then if_there op_write
      else responds (some not_writable)
  guard t f x = responds (some no_func)

  -- A request on a fid: `none` is a fid that the map does not have.
  unfoldable pub on_fid : Conn → FcallType → Request → Option ℕ → Conn × Request × Outcome
  on_fid c t r none = (c, record r { fid = none }, responds (some no_fid))
  on_fid c t r (some a) = (c, record r { fid = some a }, guard t r.ifcall (c.fids a))

  unfoldable pub attached : Request → Conn × Option ℕ → Conn × Request × Outcome
  attached r (c, none) = (c, record r { fid = none }, responds (some dup_fid))
  attached r (c, some a) = (c, record r { fid = some a }, calls op_attach)

  unfoldable pub walked : Request → Conn × Option ℕ → Conn × Request × Outcome
  walked r (c, none) = (c, record r { newfid = none }, responds (some dup_fid))
  walked r (c, some a) = (c, record r { newfid = some a }, if_there op_walk)

  unfoldable pub walk_from : Conn → Request → Option ℕ → Conn × Request × Outcome
  walk_from c r none = (c, record r { fid = none }, responds (some no_fid))
  walk_from c r (some a) =
      let f = r.ifcall in
      let r1 = record r { fid = some a } in
      let onward =
        if f.fid == f.newfid then walked r1 (c, some a) else walked r1 (createfid c f.newfid) in
      let on_dir =
        if (f.nwname == 0) || is_directory (c.fids a)
        then onward
        else (c, r1, responds (some not_dir)) in
      if (c.fids a).omode == not_open then on_dir else (c, r1, responds (some walk_open))

  unfoldable pub flushed : Conn → Request → Option ℕ → Conn × Request × Outcome
  flushed c r none = (c, record r { oldreq = none }, responds (some no_tag))
  flushed c r (some old) = (c, record r { oldreq = some old }, if_there op_flush)

  unfoldable pub handle_type : Conn → FcallType → Request → Conn × Request × Outcome
  handle_type c t_version r =
      (c, record r { ofcall = version_answer r.ifcall r.ofcall }, responds none)
  handle_type c t_attach r = attached r (createfid c r.ifcall.fid)
  handle_type c t_flush r = flushed c r (lookupkey c.tagmap r.ifcall.oldtag)
  handle_type c t_walk r = walk_from c r (lookupkey c.fidmap r.ifcall.fid)
  handle_type c t_clunk r = on_fid c t_clunk r (lookupkey c.fidmap r.ifcall.fid)
  handle_type c t_create r = on_fid c t_create r (lookupkey c.fidmap r.ifcall.fid)
  handle_type c t_open r = on_fid c t_open r (lookupkey c.fidmap r.ifcall.fid)
  handle_type c t_read r = on_fid c t_read r (lookupkey c.fidmap r.ifcall.fid)
  handle_type c t_remove r = on_fid c t_remove r (lookupkey c.fidmap r.ifcall.fid)
  handle_type c t_stat r = on_fid c t_stat r (lookupkey c.fidmap r.ifcall.fid)
  handle_type c t_write r = on_fid c t_write r (lookupkey c.fidmap r.ifcall.fid)
  handle_type c t r = (c, r, responds (some no_func))

  unfoldable pub handlereq : Conn → Request → Conn × Request × Outcome
  handlereq c r = handle_type c (fcall_type r.ifcall.type) r
