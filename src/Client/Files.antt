-- ===== src/Client/Files.antt =====
-- libmixp/client.c: the calls on paths. A function takes the pool of fids and the state behind `muxrpc`, and
-- gives both with its result. `stray` is what the memory of a request holds where `walk` reads a qid of it.
use libmixp.Base.{
  ℕ, ◌-◌, Bool, true, false, Option, none, some, List, [], ◌∷◌, ◌++◌, map, Bytes, length, replicate,
  ltb, ◌==◌, if◌then◌else◌,
}
use libmixp.Convert.{Message, msg_unpack}
use libmixp.Compound.{bytes_of, Qid, max_welem}
use libmixp.Fcall.{Fcall, blank}
use libmixp.Stat.{Stat, pstat}
use libmixp.Tokenizer.{tokenize}
use libmixp.Client.{Cfid, Pool, getfid, putfid, initfid, do_fcall}

abbrev pub root_fid : ℕ
root_fid = 1

abbrev pub walk_request : ℕ → List Bytes → Fcall
walk_request fid names = record blank {
  type = 110;
  fid = root_fid;
  nwname = length names;
  newfid = fid;
  wname = map some names ++ replicate (max_welem - length names) none;
}

abbrev pub clunk_request : Cfid → Fcall
clunk_request f = record blank { type = 120; fid = f.fid }

abbrev pub remove_request : Cfid → Fcall
remove_request f = record blank { type = 122; fid = f.fid }

abbrev pub open_request : Cfid → ℕ → Fcall
open_request f mode = record blank { type = 112; fid = f.fid; mode = mode }

abbrev pub create_request : Cfid → Bytes → ℕ → ℕ → Fcall
create_request f name perm mode = record blank {
  type = 114;
  fid = f.fid;
  name = some name;
  perm = perm;
  mode = mode;
}

abbrev pub stat_request : Cfid → Fcall
stat_request f = record blank { type = 124; fid = f.fid }

-- `while (*p == '/') *p-- = '\0'` from the end of the path.
unfoldable pub stripped : Bytes → Bytes
stripped [] = []
stripped (c ∷ path) = elim (stripped path) [
  | [] ↦ if c == b'/' then [] else c ∷ []
  | d ∷ rest ↦ c ∷ d ∷ rest
]

-- A path before its last `/`, and behind it.
unfoldable pub last_slash : Bytes → Option (Bytes × Bytes)
last_slash [] = none
last_slash (c ∷ path) = elim (last_slash path) [
  | none ↦ if c == b'/' then some ([], path) else none
  | some (dir, name) ↦ some (c ∷ dir, name)
]

-- `faults` is the failed assertion, or a read before the path.
pub data Split : Type 0 where
  faults bad_path : Split
  split : Bytes → Bytes → Split

unfoldable pub split_last : Option (Bytes × Bytes) → Split
split_last none = bad_path
split_last (some (dir, name)) = split dir name

unfoldable pub split_path : Bytes → Split
split_path path = elim (stripped path) [
  | [] ↦ faults
  | c ∷ rest ↦ split_last (last_slash (c ∷ rest))
]

-- `mixp_message(data, length, MsgUnpack)`
abbrev pub mixp_message : Bytes → ℕ → Message
mixp_message bytes length = record {
  buf = bytes;
  pos = 0;
  end = length;
  size = length;
  mode = msg_unpack;
}

-- NULL for an entry that is cut off.
unfoldable pub read_stat : Stat → Fcall → Option Stat
read_stat old ret =
    let (msg, stat, _) = pstat (mixp_message (bytes_of ret.stat) ret.nstat) (some old) in
    if ltb msg.end msg.pos then none else stat

module _ {ℓ} {S : Type ℓ} where
  unfoldable pub walk_answer :
      (ℕ → Qid) → ℕ → Pool × Cfid → S × Option Fcall → Pool × S × Option Cfid
  walk_answer stray n (c, f) (s, none) = (putfid c f, s, none)
  walk_answer stray n (c, f) (s, some ret) =
      if ltb ret.nwqid n then (putfid c f, s, none) else (c, s, some (record f { qid = stray n }))

  unfoldable pub clunk_answer : Pool → Cfid → S × Option Fcall → Pool × S × Bool
  clunk_answer c f (s, none) = (c, s, false)
  clunk_answer c f (s, some ret) = (putfid c f, s, true)

  -- `f = NULL` behind a clunk.
  abbrev pub without_result {κ} : {A : Type κ} → Pool × S × Bool → Pool × S × Option A
  without_result (c, s, clunked) = (c, s, none)

  unfoldable pub stat_read {κ} : {A : Type κ} → Option A → Pool × S × Bool → Pool × S × Option A
  stat_read stat (c, s, clunked) = (c, s, stat)

module _ {ℓ} {S : Type ℓ} (muxrpc : S → Fcall → S × Option Fcall) (stray : ℕ → Qid) where
  unfoldable pub walk : Pool → S → Bytes → Pool × S × Option Cfid
  walk c s pathname =
      let names = tokenize b'/' max_welem pathname in
      let (c1, f) = getfid c in
      walk_answer stray (length names) (c1, f) (do_fcall muxrpc s (walk_request f.fid names))

  unfoldable pub clunk : Pool → S → Cfid → Pool × S × Bool
  clunk c s f = clunk_answer c f (do_fcall muxrpc s (clunk_request f))

  unfoldable pub mixp_close : Pool → S → Cfid → Pool × S × Bool
  mixp_close c s f = clunk c s f

  unfoldable pub remove_walked : Pool × S × Option Cfid → Pool × S × Bool
  remove_walked (c, s, none) = (c, s, false)
  remove_walked (c, s, some f) = clunk_answer c f (do_fcall muxrpc s (remove_request f))

  unfoldable pub mixp_remove : Pool → S → Bytes → Pool × S × Bool
  mixp_remove c s path = remove_walked (walk c s path)

  -- What `mixp_open` and `mixp_create` do with an answer.
  unfoldable pub opened : Pool → Cfid → ℕ → S × Option Fcall → Pool × S × Option Cfid
  opened c f mode (s, none) = without_result (clunk c s f)
  opened c f mode (s, some ret) = (c, s, some (record (initfid f ret) { mode = mode }))

  unfoldable pub open_walked : ℕ → Pool × S × Option Cfid → Pool × S × Option Cfid
  open_walked mode (c, s, none) = (c, s, none)
  open_walked mode (c, s, some f) = opened c f mode (do_fcall muxrpc s (open_request f mode))

  unfoldable pub mixp_open : Pool → S → Bytes → ℕ → Pool × S × Option Cfid
  mixp_open c s name mode = open_walked mode (walk c s name)

  -- `none` is a fault: `f` is read also where the walk to the directory gave NULL.
  unfoldable pub create_walked :
      Bytes → ℕ → ℕ → Pool × S × Option Cfid → Option (Pool × S × Option Cfid)
  create_walked name perm mode (c, s, none) = none
  create_walked name perm mode (c, s, some f) =
      some (opened c f mode (do_fcall muxrpc s (create_request f name perm mode)))

  unfoldable pub create_in : Pool → S → ℕ → ℕ → Split → Option (Pool × S × Option Cfid)
  create_in c s perm mode faults = none
  create_in c s perm mode bad_path = none
  create_in c s perm mode (split dir name) = create_walked name perm mode (walk c s dir)

  unfoldable pub mixp_create : Pool → S → Bytes → ℕ → ℕ → Option (Pool × S × Option Cfid)
  mixp_create c s filename perm mode = create_in c s perm mode (split_path filename)

  -- `old` is what `malloc` gives for the entry.
  unfoldable pub stat_answer : Stat → Pool → Cfid → S × Option Fcall → Pool × S × Option Stat
  stat_answer old c f (s, none) = without_result (clunk c s f)
  stat_answer old c f (s, some ret) = stat_read (read_stat old ret) (clunk c s f)

  unfoldable pub stat_walked : Stat → Pool × S × Option Cfid → Pool × S × Option Stat
  stat_walked old (c, s, none) = (c, s, none)
  stat_walked old (c, s, some f) = stat_answer old c f (do_fcall muxrpc s (stat_request f))

  unfoldable pub mixp_stat : Stat → Pool → S → Bytes → Pool × S × Option Stat
  mixp_stat old c s path = stat_walked old (walk c s path)
