-- ===== src/Ixpc/Ordered.antt =====
-- `xls` of cmd/ixpc.c whole, on a directory that one piece holds.
use libmixp.Base.{ℕ, ◌≡◌, true, Option, some, List, Bytes}
use libmixp.Compound.{Qid}
use libmixp.Fcall.{Fcall}
use libmixp.Stat.{Stat}
use libmixp.Client.{Cfid, Pool}
use libmixp.Client.Files.{mixp_open, mixp_stat}
use libmixp.Ixpc.{has_dmdir}

module _ {S : Type 0} (muxrpc : S → Fcall → S × Option Fcall) (stray : ℕ → Qid) (old : Stat)
    (str_of_time : ℕ → Bytes) where
  -- The answer to the stat call is a directory and the file can be opened, at offset 0.
  abbrev pub OpensDir : Pool → S → Bytes → Pool → S → Cfid → Type 0
  OpensDir pool s file pool1 s1 f =
      (st : Stat) × (pool2 : Pool) × (s2 : S) × (mixp_stat muxrpc stray old pool s file
        ≡ (pool2, s2, some st))
      × (has_dmdir st.mode ≡ true)
      × (mixp_open muxrpc stray pool2 s2 file 0 ≡ (pool1, s1, some f))
