-- ===== src/Adapters/Chainability.antt =====
-- adapters/rvd/chainability.py: how readily hypotheses combine. Weights are counted in thousandths,
-- where the source adds floating-point numbers.
use omniscan.Prelude.{ℕ, ◌+◌, ◌≤◌, String, ◌<>◌, ◌==◌, Bool, ◌&&◌, ◌||◌, Option, none, some}
use omniscan.Prelude.{
  List, [], ◌∷◌, ◌++◌, any, contains, All, ltb, eqb, if◌then◌else◌, arith, Bool-cases, inl, inr,
}
use omniscan.Adapters.Rvd.Base.{Hypothesis}
use omniscan.Prelude.Dict.{Dict, lookup, insert}

pub record ChainEdge : Type 0 where
  pub src : String
  pub dst : String
  pub weight : ℕ
  pub reason : String

focus_text : Option String → String
focus_text none = ""
focus_text (some f) = f

-- `frozenset({a, b}) == frozenset({x, y})` for two different texts `x` and `y`.
abbrev pub pair : String → String → String → String → Bool
pair x y a b = (a == x && b == y) || (a == y && b == x)

-- `_CHAIN_AFFINITY`
unfoldable pub chain_affinity : String → String → ℕ
chain_affinity a b =
    if pair "auth" "isolation" a b
    then 400
    else if pair "deserialization" "isolation" a b
    then 500
    else if pair "auth" "deserialization" a b
    then 300
    else if pair "memory-safety" "isolation" a b
    then 500
    else 0

-- `_affinity`
unfoldable pub affinity : Hypothesis → Hypothesis → ℕ
unfolding focus_text chain_affinity
affinity a b =
    let shared_path = any (λ c. contains b.composition_path c) a.composition_path in
    chain_affinity (focus_text a.focus) (focus_text b.focus) + (if shared_path then 200 else 0)

-- `min(1.0, x)`
unfoldable pub at_most_one : ℕ → ℕ
at_most_one x = if ltb x 1000 then x else 1000

-- `scores[id] = min(1.0, scores[id] + weight)`; the key is there, since `zeros` puts every one.
unfoldable pub raise_score : String → ℕ → Dict ℕ → Dict ℕ
unfolding at_most_one
raise_score id weight scores = elim (lookup id scores) [
  | none ↦ scores
  | some s ↦ insert id (at_most_one (s + weight)) scores
]

focus_name : Option String → String
focus_name none = "None"
focus_name (some f) = f

-- One round of the inner loop.
unfoldable pub join_pair :
    Hypothesis → Hypothesis → Dict ℕ × List ChainEdge → Dict ℕ × List ChainEdge
unfolding focus_name
join_pair a b (scores, edges) =
    let weight = affinity a b in
    if eqb weight 0 then (scores, edges) else (
      raise_score b.id weight (raise_score a.id weight scores),
      edges
          ++ record {
            src = a.id;
            dst = b.id;
            weight = weight;
            reason = focus_name a.focus <> "+" <> focus_name b.focus <> " on shared path";
          }
            ∷ [],
    )

unfoldable pub join_all :
    Hypothesis → List Hypothesis → Dict ℕ × List ChainEdge → Dict ℕ × List ChainEdge
join_all a [] st = st
join_all a (b ∷ bs) st = join_all a bs (join_pair a b st)

unfoldable pub join_each : List Hypothesis → Dict ℕ × List ChainEdge → Dict ℕ × List ChainEdge
join_each [] st = st
join_each (a ∷ hs) st = join_each hs (join_all a hs st)

unfoldable pub zeros : List Hypothesis → Dict ℕ → Dict ℕ
zeros [] scores = scores
zeros (h ∷ hs) scores = zeros hs (insert h.id 0 scores)

unfoldable pub score : List Hypothesis → Dict ℕ × List ChainEdge
unfolding zeros join_each
score hypotheses = join_each hypotheses (zeros hypotheses [], [])

-- Every score is at most one.
abbrev pub Bounded : Dict ℕ → Type 0
Bounded scores = All (λ e. e.1 ≤ 1000) scores

insert-Bounded : (k : String) (v : ℕ) (d : Dict ℕ) → v ≤ 1000 → Bounded d → Bounded (insert k v d)
unfolding insert
insert-Bounded k v [] h b = (h, tt)
insert-Bounded k v ((j, w) ∷ d) h (c, b) = elim (Bool-cases (j == k)) [
  | inl e ↦ rw e (h, b)
  | inr e ↦ rw e (c, insert-Bounded k v d h b)
]

raise_score-Bounded : (k : String) (w : ℕ) (d : Dict ℕ) → Bounded d → Bounded (raise_score k w d)
unfolding raise_score at_most_one
raise_score-Bounded k w d b =
    elim (lookup k d)
      as (λ o. Bounded (elim o [ none ↦ d | some s ↦ insert k (at_most_one (s + w)) d ])) [
        | none ↦ b
        | some s ↦ insert-Bounded k (at_most_one (s + w)) d (ground arith) b
      ]

join_pair-Bounded :
    (a b : Hypothesis) (scores : Dict ℕ) (edges : List ChainEdge)
    → Bounded scores
    → Bounded (join_pair a b (scores, edges)).0
unfolding join_pair
join_pair-Bounded a b scores edges h = elim (Bool-cases (eqb (affinity a b) 0)) [
  | inl e ↦ rw e h
  | inr e ↦ rw e (
      raise_score-Bounded b.id (affinity a b) (raise_score a.id (affinity a b) scores)
        (raise_score-Bounded a.id (affinity a b) scores h))
]

join_all-Bounded :
    (a : Hypothesis) (bs : List Hypothesis) (st : Dict ℕ × List ChainEdge)
    → Bounded st.0
    → Bounded (join_all a bs st).0
unfolding join_all
join_all-Bounded a [] st h = h
join_all-Bounded a (b ∷ bs) (scores, edges) h =
    join_all-Bounded a bs (join_pair a b (scores, edges)) (join_pair-Bounded a b scores edges h)

join_each-Bounded :
    (hs : List Hypothesis) (st : Dict ℕ × List ChainEdge)
    → Bounded st.0
    → Bounded (join_each hs st).0
unfolding join_each
join_each-Bounded [] st h = h
join_each-Bounded (a ∷ hs) st h =
    join_each-Bounded hs (join_all a hs st) (join_all-Bounded a hs st h)

zeros-Bounded : (hs : List Hypothesis) (d : Dict ℕ) → Bounded d → Bounded (zeros hs d)
unfolding zeros
zeros-Bounded [] d b = b
zeros-Bounded (h ∷ hs) d b =
    zeros-Bounded hs (insert h.id 0 d) (insert-Bounded h.id 0 d (omega arith) b)

-- However many hypotheses chain with one another, every chainability score is at most one (1000
-- thousandths).
pub score-Bounded : (hs : List Hypothesis) → Bounded (score hs).0
unfolding score
score-Bounded hs = join_each-Bounded hs (zeros hs [], []) (zeros-Bounded hs [] tt)
