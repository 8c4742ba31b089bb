-- ===== src/Client/Fids.antt =====
-- `getfid` and `putfid` of libmixp/client.c: no fid is handed out twice.
use libmixp.Base.{
  ℕ, ◌+◌, ◌%◌, ◌^◌, ◌≤◌, ◌<◌, ◌≡◌, ◌⊎◌, refl, sym, ap, ◌∙◌, Bool, true, false, List, [], ◌∷◌, ◌==◌,
  ==→eq, ==_refl, if◌then◌else◌, arith, Bool-cases, inl, inr,
}
use mathlib.Core.Bool.{false≢true}
use libmixp.Client.{Cfid, Pool, new_fid, take_fid}

abbrev pub has : ℕ → List Cfid → Bool
has q [] = false
has q (f ∷ rest) = if f.fid == q then true else has q rest

abbrev pub IsDistinct : List Cfid → Type 0
IsDistinct [] = Unit
IsDistinct (f ∷ rest) = (has f.fid rest ≡ false) × IsDistinct rest

-- The fids in use and the free ones are different from each other, and none is above `lastfid`.
pub record IsPool (c : Pool) (used : ℕ → Bool) : Type 0 where
  pub used_below : (q : ℕ) → used q ≡ true → (0 < q) × (q ≤ c.lastfid)
  pub free_below : (q : ℕ) → has q c.freefid ≡ true → (0 < q) × (q ≤ c.lastfid)
  pub apart : (q : ℕ) → used q ≡ true → has q c.freefid ≡ false
  pub distinct : IsDistinct c.freefid

abbrev pub with_fid : (ℕ → Bool) → ℕ → ℕ → Bool
with_fid used fid q = if q == fid then true else used q

abbrev pub without_fid : (ℕ → Bool) → ℕ → ℕ → Bool
without_fid used fid q = if q == fid then false else used q

with_cases :
    (used : ℕ → Bool) (fid q : ℕ) → with_fid used fid q ≡ true → (q ≡ fid) ⊎ (used q ≡ true)
with_cases used fid q h = elim (Bool-cases (q == fid)) [
  | inl same ↦ inl (==→eq q fid same)
  | inr other ↦ inr (rw other at h)
]

has_head : (f : Cfid) (rest : List Cfid) → has f.fid (f ∷ rest) ≡ true
has_head f rest = rw (==_refl f.fid)

has_tail : (f : Cfid) (rest : List Cfid) (q : ℕ) → has q rest ≡ true → has q (f ∷ rest) ≡ true
has_tail f rest q h = ground arith

not_tail : (f : Cfid) (rest : List Cfid) (q : ℕ) → has q (f ∷ rest) ≡ false → has q rest ≡ false
not_tail f rest q h = ground arith

not_used : (used : ℕ → Bool) (q : ℕ) → (used q ≡ true → ⊥) → used q ≡ false
not_used used q h = elim (Bool-cases (used q)) [
  | inl used_up ↦ absurd (h used_up)
  | inr spare ↦ spare
]

pool : ℕ → List Cfid → Pool
pool lastfid free = record { lastfid = lastfid; freefid = free }

made :
    (lastfid : ℕ) (used : ℕ → Bool) (fid : ℕ)
    → fid ≡ lastfid + 1
    → IsPool (pool lastfid []) used
    → (used fid ≡ false) × IsPool (pool fid []) (with_fid used fid)
unfolding pool
made lastfid used fid e p = (
  not_used used fid (λ h. omega (arith, p.used_below fid h, e)),
  record {
    used_below = λ q h. elim (with_cases used fid q h) [
      | inl same ↦ (omega (arith, same, e), omega (arith, same))
      | inr old ↦ (omega (arith, p.used_below q old), omega (arith, p.used_below q old, e))
    ];
    free_below = λ q h. absurd (false≢true h);
    apart = λ q h. refl;
    distinct = tt;
  },
)

reused :
    (lastfid : ℕ) (f : Cfid) (rest : List Cfid) (used : ℕ → Bool)
    → IsPool (pool lastfid (f ∷ rest)) used
    → (used f.fid ≡ false) × IsPool (pool lastfid rest) (with_fid used f.fid)
unfolding pool
reused lastfid f rest used p = (
  not_used used f.fid (λ h. false≢true (sym (p.apart f.fid h) ∙ has_head f rest)),
  record {
    used_below = λ q h. elim (with_cases used f.fid q h) [
      | inl same ↦ p.free_below q (ap (λ (k : ℕ). has k (f ∷ rest)) same ∙ has_head f rest)
      | inr old ↦ p.used_below q old
    ];
    free_below = λ q h. p.free_below q (has_tail f rest q h);
    apart = λ q h. elim (with_cases used f.fid q h) [
      | inl same ↦ rw same (p.distinct.0)
      | inr old ↦ not_tail f rest q (p.apart q old)
    ];
    distinct = p.distinct.1;
  },
)

taken :
    (lastfid : ℕ) (free : List Cfid) (used : ℕ → Bool)
    → lastfid + 1 < 2 ^ 32
    → IsPool (pool lastfid free) used
    → (used (take_fid lastfid free).1.fid ≡ false)
      × IsPool (take_fid lastfid free).0 (with_fid used (take_fid lastfid free).1.fid)
unfolding take_fid new_fid pool
taken lastfid [] used room p = made lastfid used ((lastfid + 1) % 2 ^ 32) (omega arith) p
taken lastfid (f ∷ rest) used room p = reused lastfid f rest used p
