-- ===== src/Normalize/Finding/Dedup.antt =====
-- `dedup` against an independent description: what becomes of the findings of one fingerprint.
use Prim.Native.Nat.{max}
use omniscan.Prelude.{ℕ, String, ◌==◌, eq_iff, ◌≡◌, refl, ◌∙◌, sym, ap, Option-cases, Bool}
use omniscan.Prelude.{◌&&◌, ◌||◌, Option, none, some, List, [], ◌∷◌, ◌++◌, arith, any, contains}
use omniscan.Prelude.{if◌then◌else◌, contains-append, Bool-cases, inl, inr}
use omniscan.Prelude.Table.{find_by}
use omniscan.Prelude.Dict.{Dict, lookup, insert, lookup-insert}
use omniscan.Core.Enums.{severity_rank}
use omniscan.Normalize.Finding.{
  NormalizedFinding, add_sources, absorb, collapse_one, collapse, values, dedup,
}

abbrev pub fp : NormalizedFinding → String
fp f = f.fingerprint

-- The findings of one fingerprint, absorbed one after the other into the first.
unfoldable pub merged :
    String → Option NormalizedFinding → List NormalizedFinding → Option NormalizedFinding
merged k acc [] = acc
merged k acc (f ∷ fs) =
    merged k
      (if fp f == k then some (elim acc [ none ↦ f | some existing ↦ absorb existing f ]) else acc)
      fs

-- Every entry stands under its own fingerprint.
abbrev pub WellKeyed : Dict NormalizedFinding → Type 0
WellKeyed [] = Unit
WellKeyed ((k, f) ∷ d) = (fp f ≡ k) × WellKeyed d

insert-WellKeyed :
    (k : String) (f : NormalizedFinding) (d : Dict NormalizedFinding)
    → fp f ≡ k
    → WellKeyed d
    → WellKeyed (insert k f d)
unfolding insert
insert-WellKeyed k f [] e w = (e, tt)
insert-WellKeyed k f ((j, g) ∷ d) e w = ground (arith, insert-WellKeyed k f d e w.1, eq_iff j k)

lookup-WellKeyed :
    (k : String) (d : Dict NormalizedFinding) (g : NormalizedFinding)
    → WellKeyed d
    → lookup k d ≡ some g
    → fp g ≡ k
unfolding lookup
lookup-WellKeyed k [] g w h = cc
lookup-WellKeyed k ((j, f) ∷ d) g w h = ground (arith, lookup-WellKeyed k d g w.1, eq_iff j k)

pub collapse_one_new :
    (f : NormalizedFinding) (d : Dict NormalizedFinding)
    → lookup (fp f) d ≡ none
    → collapse_one f d ≡ insert (fp f) f d
unfolding collapse_one
collapse_one_new f d e = ground arith

pub collapse_one_again :
    (f g : NormalizedFinding) (d : Dict NormalizedFinding)
    → lookup (fp f) d ≡ some g
    → collapse_one f d ≡ insert (fp f) (absorb g f) d
unfolding collapse_one
collapse_one_again f g d e = ground arith

collapse_one-WellKeyed :
    (f : NormalizedFinding) (d : Dict NormalizedFinding)
    → WellKeyed d
    → WellKeyed (collapse_one f d)
unfolding absorb
collapse_one-WellKeyed f d w = elim (Option-cases (lookup f.fingerprint d)) [
  | inl e ↦ rw (collapse_one_new f d e) (insert-WellKeyed (fp f) f d refl w)
  | inr (g, e) ↦
      rw (collapse_one_again f g d e)
        (insert-WellKeyed (fp f) (absorb g f) d (lookup-WellKeyed (fp f) d g w e) w)
]

pub collapse-WellKeyed :
    (d : Dict NormalizedFinding) (fs : List NormalizedFinding)
    → WellKeyed d
    → WellKeyed (collapse d fs)
unfolding collapse
collapse-WellKeyed d [] w = w
collapse-WellKeyed d (f ∷ fs) w =
    collapse-WellKeyed (collapse_one f d) fs (collapse_one-WellKeyed f d w)

lookup-collapse_one :
    (k : String) (f : NormalizedFinding) (d : Dict NormalizedFinding)
    → lookup k (collapse_one f d) ≡ (
        if fp f == k
        then some (elim (lookup k d) [ none ↦ f | some existing ↦ absorb existing f ])
        else lookup k d)
lookup-collapse_one k f d = elim (Option-cases (lookup f.fingerprint d)) [
  | inl e ↦
      rw (collapse_one_new f d e) (ground (arith, lookup-insert (fp f) k f d, eq_iff (fp f) k))
  | inr (g, e) ↦
      rw (collapse_one_again f g d e)
        (ground (arith, lookup-insert (fp f) k (absorb g f) d, eq_iff (fp f) k))
]

lookup-collapse :
    (k : String) (d : Dict NormalizedFinding) (fs : List NormalizedFinding)
    → lookup k (collapse d fs) ≡ merged k (lookup k d) fs
unfolding collapse merged
lookup-collapse k d [] = refl
lookup-collapse k d (f ∷ fs) =
    lookup-collapse k (collapse_one f d) fs ∙ ap (λ o. merged k o fs) (lookup-collapse_one k f d)

pub find_by-values :
    (k : String) (d : Dict NormalizedFinding) → WellKeyed d → find_by fp k (values d) ≡ lookup k d
unfolding find_by values lookup
find_by-values k [] w = refl
find_by-values k ((j, f) ∷ d) w = ground (arith, find_by-values k d w.1)

-- The finding that `dedup` keeps for a fingerprint is the first finding with that fingerprint,
-- into which the later ones with it are absorbed in their order; with none there is none.
pub find_by-dedup :
    (k : String) (fs : List NormalizedFinding) → find_by fp k (dedup fs) ≡ merged k none fs
unfolding dedup lookup
find_by-dedup k fs =
    find_by-values k (collapse [] fs) (collapse-WellKeyed [] fs tt) ∙ lookup-collapse k [] fs

-- The highest rank, and the highest score, among the findings of one fingerprint.
abbrev pub highest : (NormalizedFinding → ℕ) → String → List NormalizedFinding → ℕ
highest score k [] = 0
highest score k (f ∷ fs) =
    let rest = highest score k fs in if fp f == k then max (score f) rest else rest

abbrev pub rank_of : NormalizedFinding → ℕ
rank_of f = severity_rank f.severity

abbrev pub chainability_of : NormalizedFinding → ℕ
chainability_of f = f.chainability_score

-- Some finding of the fingerprint names the source.
abbrev pub reported : String → String → List NormalizedFinding → Bool
reported src k fs = any (λ f. fp f == k && contains f.sources src) fs

contains-add_sources :
    (xs ys : List String) (s : String)
    → contains (add_sources xs ys) s ≡ (contains xs s || contains ys s)
unfolding add_sources
contains-add_sources xs [] s = ground arith
contains-add_sources xs (y ∷ ys) s = elim (Bool-cases (contains xs y)) [
  | inl e ↦ rw e (ground (arith, contains-add_sources xs ys s, eq_iff y s))
  | inr e ↦
      rw e (ground (arith, contains-add_sources (xs ++ y ∷ []) ys s, contains-append xs (y ∷ []) s))
]

module _ (k : String) (g : NormalizedFinding) where
  merged-rank :
      (a : NormalizedFinding) (fs : List NormalizedFinding)
      → merged k (some a) fs ≡ some g
      → rank_of g ≡ max (rank_of a) (highest rank_of k fs)
  unfolding merged absorb
  merged-rank a [] h = ground arith
  merged-rank a (f ∷ fs) h = ground (arith, merged-rank a fs, merged-rank (absorb a f) fs)

  merged-chainability :
      (a : NormalizedFinding) (fs : List NormalizedFinding)
      → merged k (some a) fs ≡ some g
      → chainability_of g ≡ max (chainability_of a) (highest chainability_of k fs)
  unfolding merged absorb
  merged-chainability a [] h = ground arith
  merged-chainability a (f ∷ fs) h =
      ground (arith, merged-chainability a fs, merged-chainability (absorb a f) fs)

  merged-sources :
      (a : NormalizedFinding) (fs : List NormalizedFinding) (src : String)
      → merged k (some a) fs ≡ some g
      → contains g.sources src ≡ (contains a.sources src || reported src k fs)
  unfolding merged absorb
  merged-sources a [] src h = ground arith
  merged-sources a (f ∷ fs) src h = ground (
    arith,
    merged-sources a fs src,
    merged-sources (absorb a f) fs src,
    contains-add_sources a.sources f.sources src,
  )

-- What the finding kept for a fingerprint `k` is, over all the findings `fs`.
pub record Merges (k : String) (g : NormalizedFinding) (fs : List NormalizedFinding) : Type 0 where
  pub rank : rank_of g ≡ highest rank_of k fs
  pub score : chainability_of g ≡ highest chainability_of k fs
  pub sources : (src : String) → contains g.sources src ≡ reported src k fs

merged-Merges :
    (k : String) (g : NormalizedFinding) (fs : List NormalizedFinding)
    → merged k none fs ≡ some g
    → Merges k g fs
unfolding merged
merged-Merges k g [] h = cc
merged-Merges k g (f ∷ fs) h = elim (Bool-cases (fp f == k)) [
  | inl e ↦ record {
    rank = ground (arith, merged-rank k g f fs);
    score = ground (arith, merged-chainability k g f fs);
    sources = λ src. ground (arith, merged-sources k g f fs src);
  }
  | inr e ↦
      let m = merged-Merges k g fs (ground arith) in
      record {
        rank = ground (arith, m.rank);
        score = ground (arith, m.score);
        sources = λ src. ground (arith, m.sources src);
      }
]

-- The finding kept for a fingerprint has the highest severity and the highest chainability score
-- among the findings with it, and its sources are exactly those that one of them names.
pub dedup-Merges :
    (k : String) (g : NormalizedFinding) (fs : List NormalizedFinding)
    → find_by fp k (dedup fs) ≡ some g
    → Merges k g fs
dedup-Merges k g fs h = merged-Merges k g fs (sym (find_by-dedup k fs) ∙ h)
