-- ===== src/Ixpc/Listing.antt =====
-- `xls` of cmd/ixpc.c: the entries of a directory, read back from what the server sends, in the order of their
-- names.
use libmixp.Base.{
  ℕ, zero, suc, ◌+◌, ◌≤◌, ◌<◌, ◌≡◌, refl, sym, ap, ◌∙◌, Option, some, List, [], ◌∷◌, ◌++◌, map,
  Bytes, length, lt→ltb, ltb_le, read_at, Holds, Holds-read_at, take, drop, take-length,
  length-take, length-drop, if_true, if_false, arith, length-append,
}
use mathlib.Core.List.{append_assoc, append-nil}
use mathlib.Core.Path.{subst}
use libmixp.Convert.{Message, msg_pack, le16}
use libmixp.Convert.Emit.{concat}
use libmixp.Convert.Load.{Ready}
use libmixp.Compound.Unpack.{IsBacked}
use libmixp.Fcall.{Fcall}
use libmixp.Stat.{Stat, size_before, pstat}
use libmixp.Stat.Layout.{IsStat, stat_before, pstat_fields-unpack}
use libmixp.Stat.RoundTrip.{entry}
use libmixp.Client.{Cfid}
use libmixp.Client.Files.{mixp_message}
use libmixp.Client.Reading.{Serves}
use libmixp.Ixpc.Entries.{pushed, unpack_entries, take_entries}
use libmixp.Ixpc.{taken, after_piece, read_all}
use libmixp.Ixpc.Output.{read-file}

-- An entry with its size, in front of others.
abbrev pub entry_chunks : Stat → List Bytes → List Bytes
entry_chunks st more = le16 (size_before msg_pack st) ∷ stat_before st more

-- What a server sends for a directory with these entries: each with its size, one behind the other.
abbrev pub directory : List Stat → Bytes
directory [] = []
directory (st ∷ stats) = entry st ++ directory stats

abbrev dir_chunks : List Stat → List Bytes
dir_chunks [] = []
dir_chunks (st ∷ stats) = entry_chunks st (dir_chunks stats)

abbrev pub AllStats : List Stat → Type 0
AllStats [] = Unit
AllStats (st ∷ stats) = IsStat st × AllStats stats

-- The field `dir_type` is not sent, and stays what it was.
abbrev pub as_read : Stat → Stat → Stat
as_read old st = record st { qid = record st.qid { dir_type = old.qid.dir_type } }

concat-append : (xs ys : List Bytes) → concat (xs ++ ys) ≡ concat xs ++ concat ys
concat-append [] ys = refl
concat-append (x ∷ xs) ys =
    ap (λ (t : Bytes). x ++ t) (concat-append xs ys) ∙ sym (append_assoc x _ _)

directory-chunks : (stats : List Stat) → concat (dir_chunks stats) ≡ directory stats
directory-chunks [] = refl
directory-chunks (st ∷ stats) =
    concat-append (entry_chunks st []) (dir_chunks stats)
    ∙ ap (λ (t : Bytes). entry st ++ t) (directory-chunks stats)

entry_room : (st : Stat) (more : List Bytes) → 0 < length (concat (entry_chunks st more))
entry_room st more = omega arith

length-directory : (stats : List Stat) → length stats ≤ length (directory stats)
length-directory [] = omega arith
length-directory (st ∷ stats) =
    omega (arith, length-append (entry st) (directory stats), length-directory stats)

unpack-directory :
    (old : Stat) (rounds : ℕ) (m : Message) (stats done : List Stat)
    → IsBacked m
    → AllStats stats
    → Ready m (concat (dir_chunks stats))
    → length stats < rounds
    → unpack_entries old rounds m done ≡ some (done ++ map (as_read old) stats)
unfolding unpack_entries pstat pushed
unpack-directory old zero m stats done backed all ready fuel = absurd (omega arith)
unpack-directory old (suc rounds) m [] done backed all ready fuel =
    if_false _ (ltb_le m.pos m.end (omega (arith, ready.room))) ∙ ap some (sym (append-nil done))
unpack-directory old (suc rounds) m (st ∷ stats) done backed (c, all) ready fuel =
    let more = dir_chunks stats in
    let (after, e, same, ready1) = pstat_fields-unpack m st old more backed c ready in
    let same_end : after.end ≡ m.end = ap (λ (n : Message). n.end) same in
    let same_buf : after.buf ≡ m.buf = ap (λ (n : Message). n.buf) same in
    let backed1 : IsBacked after = omega (arith, backed, same_end, ap length same_buf) in
    let more_left : m.pos < m.end = omega (arith, ready.room, entry_room st more) in
    if_true _ (lt→ltb m.pos m.end more_left)
    ∙ ap (λ (r : Message × Stat). unpack_entries old rounds r.0 (done ++ r.1 ∷ [])) e
    ∙ unpack-directory old rounds after stats (done ++ as_read old st ∷ []) backed1 all ready1
        (omega (arith, fuel))
    ∙ ap some (append_assoc done (as_read old st ∷ []) (map (as_read old) stats))

take_whole : (bs : Bytes) (n : ℕ) → length bs ≤ n → take n bs ≡ bs
take_whole [] zero h = refl
take_whole [] (suc n) h = refl
take_whole (x ∷ xs) zero h = absurd (omega arith)
take_whole (x ∷ xs) (suc n) h = ap (λ (t : Bytes). x ∷ t) (take_whole xs n (omega arith))

Holds-whole : (bs : Bytes) → Holds bs 0 bs
Holds-whole bs = Holds-read_at bs 0 bs (omega arith) (take-length bs)

take-directory :
    (old : Stat) (stats : List Stat)
    → AllStats stats
    → take_entries old [] (directory stats) ≡ some (map (as_read old) stats)
unfolding take_entries
take-directory old stats all =
    let bs = directory stats in
    unpack-directory old (suc (length bs)) (mixp_message bs (length bs)) stats [] (omega arith) all
      (record {
        unpacking = refl;
        room = omega (arith, ap length (directory-chunks stats));
        holds = subst (Holds bs 0) (sym (directory-chunks stats)) (Holds-whole bs);
      })
      (omega (arith, length-directory stats))

nothing : (bs : Bytes) → length bs ≡ 0 → bs ≡ []
nothing [] h = refl
nothing (b ∷ bs) h = absurd (omega (arith, h))

module _ {S : Type 0} (muxrpc : S → Fcall → S × Option Fcall) (old : Stat) where
  -- The rounds behind the first piece, in which the entries are.
  first_piece :
      (again : S → Cfid → List Stat → Option (S × List Stat)) (s : S) (f : Cfid) (bs : Bytes)
      (stats : List Stat)
      → take_entries old [] bs ≡ some stats
      → (s1 : S) × (again s f stats ≡ some (s1, stats))
      → (s1 : S) × (after_piece muxrpc again (take_entries old) [] (some (s, f, some bs))
          ≡ some (s1, stats))
  unfolding after_piece taken take_entries unpack_entries
  first_piece again s f [] stats e rest = (s, ap (λ (l : List Stat). some (s, l)) (cc e))
  first_piece again s f (b ∷ bs) stats e (s1, rest) = (s1, ap (taken muxrpc again s f) e ∙ rest)

module _ {S : Type 0} (muxrpc : S → Fcall → S × Option Fcall) (old : Stat) (f : Cfid)
    (stats : List Stat) (server : Serves muxrpc f (directory stats)) (unit : 0 < f.iounit) where
  abbrev entries : List Stat
  entries = map (as_read old) stats

  abbrev content : Bytes
  content = directory stats

  at_end :
      (reads rounds : ℕ) (s : S)
      → f.iounit < rounds
      → (s1 : S) × (read_all muxrpc
            (suc reads)
            rounds
            (take_entries old)
            s
            (record f { offset = length content })
            entries
          ≡ some (s1, entries))
  unfolding read_all after_piece
  at_end reads rounds s enough =
      let (s1, e) = read-file muxrpc f content server unit rounds s (length content) enough in
      let none_left : read_at content (length content) f.iounit ≡ [] =
        nothing (read_at content (length content) f.iounit) (
          omega (
            arith,
            length-take f.iounit (drop (length content) content),
            length-drop (length content) content,
          )) in
      let step =
        after_piece muxrpc (λ s2 f2 acc. read_all muxrpc reads rounds (take_entries old) s2 f2 acc)
          (take_entries old) entries in
      (
        s1,
        ap step (
            e
            ∙ ap
                (λ (bs : Bytes).
                  some (s1, record f { offset = length content + length bs }, some bs))
                none_left),
      )

  pub read_entries :
      (reads rounds : ℕ) (s : S)
      → AllStats stats
      → f.offset ≡ 0
      → f.iounit < rounds
      → length content ≤ f.iounit
      → (s1 : S) × (read_all muxrpc (suc (suc reads)) rounds (take_entries old) s f []
          ≡ some (s1, entries))
  unfolding read_all
  read_entries reads rounds s all start enough fits =
      let (s1, e) = read-file muxrpc f content server unit rounds s 0 enough in
      let whole : read_at content 0 f.iounit ≡ content = take_whole content f.iounit fits in
      let front : 0 + length content ≡ length content = omega arith in
      let again = λ (s2 : S) (f2 : Cfid) (acc : List Stat).
        read_all muxrpc (suc reads) rounds (take_entries old) s2 f2 acc in
      let (s2, e2) =
        first_piece muxrpc old again s1 (record f { offset = length content }) content entries
          (take-directory old stats all) (at_end reads rounds s1 enough) in
      let step = after_piece muxrpc again (take_entries old) [] in
      let run = λ (g : Cfid). read_all muxrpc (suc (suc reads)) rounds (take_entries old) s g [] in
      (
        s2,
        ap run (ap (λ (n : ℕ). record f { offset = n }) start)
            ∙ ap step (
                e
                ∙ ap (λ (bs : Bytes). some (s1, record f { offset = 0 + length bs }, some bs)) whole
                ∙ ap (λ (n : ℕ). some (s1, record f { offset = n }, some content)) front)
            ∙ e2,
      )
