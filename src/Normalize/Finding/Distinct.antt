-- ===== src/Normalize/Finding/Distinct.antt =====
-- `dedup` leaves one finding for each fingerprint, in the order in which the fingerprints first appear.
use mathlib.Core.List.{append-nil, append_assoc}
use omniscan.Prelude.{String, true, false, ◌≡◌, refl, ◌∙◌, sym, none, some}
use omniscan.Prelude.{
  List, [], ◌∷◌, ◌++◌, arith, contains, map, Option-cases, inl, inr, if◌then◌else◌,
}
use omniscan.Prelude.Dict.{Dict, lookup, insert}
use omniscan.Normalize.Finding.{NormalizedFinding, absorb, collapse, values, dedup}
use omniscan.Normalize.Finding.Dedup.{
  fp, WellKeyed, collapse_one_new, collapse_one_again, collapse-WellKeyed,
}

-- The texts that have not been seen before, each at its first place.
abbrev pub firsts : List String → List String → List String
firsts seen [] = []
firsts seen (k ∷ ks) = if contains seen k then firsts seen ks else k ∷ firsts (seen ++ k ∷ []) ks

abbrev keys : Dict NormalizedFinding → List String
keys [] = []
keys ((k, f) ∷ d) = k ∷ keys d

fresh_key :
    (k : String) (d : Dict NormalizedFinding) → lookup k d ≡ none → contains (keys d) k ≡ false
unfolding lookup
fresh_key k [] h = refl
fresh_key k ((j, g) ∷ d) h = ground (arith, fresh_key k d)

old_key :
    (k : String) (d : Dict NormalizedFinding) (f : NormalizedFinding)
    → lookup k d ≡ some f
    → contains (keys d) k ≡ true
unfolding lookup
old_key k [] f h = absurd (cc h)
old_key k ((j, g) ∷ d) f h = ground (arith, old_key k d f)

keys-insert_new :
    (k : String) (f : NormalizedFinding) (d : Dict NormalizedFinding)
    → lookup k d ≡ none
    → keys (insert k f d) ≡ keys d ++ k ∷ []
unfolding insert lookup
keys-insert_new k f [] h = refl
keys-insert_new k f ((j, g) ∷ d) h = ground (arith, keys-insert_new k f d)

keys-insert_again :
    (k : String) (f g : NormalizedFinding) (d : Dict NormalizedFinding)
    → lookup k d ≡ some g
    → keys (insert k f d) ≡ keys d
unfolding insert lookup
keys-insert_again k f g [] h = absurd (cc h)
keys-insert_again k f g ((j, x) ∷ d) h = ground (arith, keys-insert_again k f g d)

keys-collapse :
    (d : Dict NormalizedFinding) (fs : List NormalizedFinding)
    → keys (collapse d fs) ≡ keys d ++ firsts (keys d) (map fp fs)
unfolding collapse
keys-collapse d [] = sym (append-nil (keys d))
keys-collapse d (f ∷ fs) = elim (Option-cases (lookup (fp f) d)) [
  | inl e ↦
      rw (collapse_one_new f d e, fresh_key (fp f) d e)
        (keys-collapse (insert (fp f) f d) fs
          ∙ rw (keys-insert_new (fp f) f d e)
              (append_assoc (keys d) (fp f ∷ []) (firsts (keys d ++ fp f ∷ []) (map fp fs))))
  | inr (g, e) ↦
      rw (collapse_one_again f g d e, old_key (fp f) d g e)
        (keys-collapse (insert (fp f) (absorb g f) d) fs
          ∙ rw (keys-insert_again (fp f) (absorb g f) g d e) refl)
]

map-values : (d : Dict NormalizedFinding) → WellKeyed d → map fp (values d) ≡ keys d
unfolding values
map-values [] w = refl
map-values ((k, f) ∷ d) (e, w) = rw (e, map-values d w) refl

-- The fingerprints of what `dedup` returns are those of the findings it was given, each once, in the
-- order in which they first appear.
pub map-dedup : (fs : List NormalizedFinding) → map fp (dedup fs) ≡ firsts [] (map fp fs)
unfolding dedup
map-dedup fs = map-values (collapse [] fs) (collapse-WellKeyed [] fs tt) ∙ keys-collapse [] fs
