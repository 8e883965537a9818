-- ===== src/Scheduler/Choice.antt =====
-- `scheduler_find_best_node` of internal/scheduler/scheduler.c against `scheduler_score_nodes`.
use mathlib.Core.List.{Memᴰ}
use sirah_c.Prelude.{
  ℕ, ◌≤◌, ◌≡◌, refl, sym, subst, ◌⊎◌, inl, inr, Option, none, some, ◌>>=◌, List, [], ◌∷◌, String,
  ltb, arith, All, Bool-cases, Option-cases,
}
use sirah_c.Scheduler.{Node, Pod, Scheduler}
use sirah_c.Scheduler.Scoring.{combined}
use sirah_c.Scheduler.Placement.{
  Best, better, best_from, node_of, find_best_node, Reason, NodeScore, score_node, scores_from,
  score_nodes,
}

-- The better of the best so far and one entry.
abbrev take_best : Option Reason → NodeScore → Best → Best
take_best none x best = better x.score x.node_name best
take_best (some r) x best = best

pick : List NodeScore → Best → Best
pick [] best = best
pick (x ∷ xs) best = pick xs (take_best x.infeasibility_reason x best)

-- The loop of `find_best_node` picks from the entries that `score_nodes` would have made.
best_from-pick :
    (s : Scheduler) (p : Pod) (ns : List Node) (best : Best)
    → best_from s p ns best ≡ (scores_from s p ns >>= λ xs. some (pick xs best))
unfolding best_from scores_from pick score_node
best_from-pick s p [] best = refl
best_from-pick s p (n ∷ ns) best = elim (Option-cases (scores_from s p ns)) [
  | inl later_trap ↦ elim (Option-cases (combined s n p)) [
    | inl trap ↦ ground (arith, best_from-pick s p ns best)
    | inr (score, scored) ↦
        ground
          (arith, best_from-pick s p ns best, best_from-pick s p ns (better score n.node_name best))
  ]
  | inr (xs, later) ↦ elim (Option-cases (combined s n p)) [
    | inl trap ↦ ground (arith, best_from-pick s p ns best)
    | inr (score, scored) ↦
        ground
          (arith, best_from-pick s p ns best, best_from-pick s p ns (better score n.node_name best))
  ]
]

score_of : Best → ℕ
score_of none = 0
score_of (some (score, name)) = score

-- An entry of the list.
record IsEntry (xs : List NodeScore) (score : ℕ) (name : String) : Type 0 where
  entry : NodeScore
  listed : Memᴰ entry xs
  feasible : entry.infeasibility_reason ≡ none
  scored : entry.score ≡ score
  named : entry.node_name ≡ name

abbrev Chosen : Best → List NodeScore → Best → Type 0
Chosen best xs none = (best ≡ none) × All (λ x. (r : Reason) × (x.infeasibility_reason ≡ some r)) xs
Chosen best xs (some (score, name)) =
    ((best ≡ some (score, name)) ⊎ IsEntry xs score name)
    × (score_of best ≤ score)
    × All (λ x. x.infeasibility_reason ≡ none → x.score ≤ score) xs

IsEntry-tail :
    {x : NodeScore} {xs : List NodeScore} {score : ℕ} {name : String}
    → IsEntry xs score name
    → IsEntry (x ∷ xs) score name
IsEntry-tail e = record {
  entry = e.entry;
  listed = Memᴰ.tail e.listed;
  feasible = e.feasible;
  scored = e.scored;
  named = e.named;
}

IsEntry-head :
    (x : NodeScore) (xs : List NodeScore)
    → x.infeasibility_reason ≡ none
    → IsEntry (x ∷ xs) x.score x.node_name
IsEntry-head x xs f = record {
  entry = x;
  listed = Memᴰ.head refl;
  feasible = f;
  scored = refl;
  named = refl;
}

-- The best after an entry that is feasible: the old one, or that entry.
better-cases :
    (score : ℕ) (name : String) (best : Best)
    → (b : ℕ × String) × (better score name best ≡ some b)
      × ((best ≡ some b) ⊎ (b ≡ (score, name)))
      × (score_of best ≤ b.0)
      × (score ≤ b.0)
unfolding score_of
better-cases score name none = ((score, name), refl, inr refl, omega arith, omega arith)
better-cases score name (some (best_score, best_node)) = elim (Bool-cases (ltb best_score score)) [
  | inl up ↦ ((score, name), rw up, inr refl, ground arith, omega arith)
  | inr same ↦ ((best_score, best_node), rw same, inl refl, omega arith, ground arith)
]

skip-Chosen :
    (x : NodeScore) (r : Reason) (xs : List NodeScore) (best result : Best)
    → x.infeasibility_reason ≡ some r
    → Chosen best xs result
    → Chosen best (x ∷ xs) result
skip-Chosen x r xs best none e (start, rest) = (start, ((r, e), rest))
skip-Chosen x r xs best (some (score, name)) e (inl start, le, rest) =
    (inl start, le, (λ f. absurd (cc), rest))
skip-Chosen x r xs best (some (score, name)) e (inr entry, le, rest) =
    (inr (IsEntry-tail entry), le, (λ f. absurd (cc), rest))

take-Chosen :
    (x : NodeScore) (xs : List NodeScore) (best result : Best)
    → x.infeasibility_reason ≡ none
    → Chosen (better x.score x.node_name best) xs result
    → Chosen best (x ∷ xs) result
unfolding score_of
take-Chosen x xs best none e (start, rest) =
    let (b, eb, _, _, _) = better-cases x.score x.node_name best in absurd (cc)
take-Chosen x xs best (some (score, name)) e (start, le, rest) =
    let (b, eb, from, low, high) = better-cases x.score x.node_name best in
    let le' : b.0 ≤ score = rw eb at le in
    (
      elim start [
        | inl same ↦ elim from [
          | inl old ↦ inl (cc)
          | inr new ↦ inr (ground (arith, IsEntry-head x xs e))
        ]
        | inr entry ↦ inr (IsEntry-tail entry)
      ],
      omega arith,
      (λ f. omega arith, rest),
    )

pick-Chosen : (xs : List NodeScore) (best : Best) → Chosen best xs (pick xs best)
unfolding pick score_of
pick-Chosen [] none = (refl, tt)
pick-Chosen [] (some (score, name)) = (inl refl, omega arith, tt)
pick-Chosen (x ∷ xs) best = elim (Option-cases x.infeasibility_reason) [
  | inl feasible ↦
      subst (λ o. Chosen best (x ∷ xs) (pick xs (take_best o x best))) (sym feasible)
        (take-Chosen x xs best _ feasible (pick-Chosen xs (better x.score x.node_name best)))
  | inr (r, e) ↦
      subst (λ o. Chosen best (x ∷ xs) (pick xs (take_best o x best))) (sym e)
        (skip-Chosen x r xs best _ e (pick-Chosen xs best))
]

-- What the node that `find_best_node` names must be, given all the entries of `score_nodes`.
abbrev pub IsBestOf : List NodeScore → Option String → Type 0
IsBestOf xs none = All (λ x. (r : Reason) × (x.infeasibility_reason ≡ some r)) xs
IsBestOf xs (some name) =
    (x : NodeScore) × Memᴰ x xs
    × (x.node_name ≡ name)
    × (x.infeasibility_reason ≡ none)
    × All (λ y. y.infeasibility_reason ≡ none → y.score ≤ x.score) xs

Chosen-IsBestOf :
    (xs : List NodeScore) (best : Best) → Chosen none xs best → IsBestOf xs (node_of best)
Chosen-IsBestOf xs none (start, rest) = rest
Chosen-IsBestOf xs (some (score, name)) (inl start, le, rest) = absurd (cc)
Chosen-IsBestOf xs (some (score, name)) (inr e, le, rest) = (
  e.entry,
  e.listed,
  e.named,
  e.feasible,
  subst (λ k. All (λ y. y.infeasibility_reason ≡ none → y.score ≤ k) xs) (sym e.scored) rest,
)

-- `find_best_node` traps exactly when `score_nodes` does. Otherwise it names no node exactly when every
-- entry of `score_nodes` is infeasible, and else the node of a feasible entry whose score is the
-- highest of the feasible entries.
pub find_best_node-IsBestOf :
    (s : Scheduler) (p : Pod)
    → ((score_nodes s p ≡ none) × (find_best_node s p ≡ none))
      ⊎ ((xs : List NodeScore) × (best : Option String) × (score_nodes s p ≡ some xs)
          × (find_best_node s p ≡ some best)
          × IsBestOf xs best)
unfolding score_nodes find_best_node
find_best_node-IsBestOf s p = elim (Option-cases (scores_from s p s.nodes)) [
  | inl trap ↦ inl (trap, rw (best_from-pick s p s.nodes none, trap))
  | inr (xs, scored) ↦ inr (
    xs,
    node_of (pick xs none),
    scored,
    rw (best_from-pick s p s.nodes none, scored),
    Chosen-IsBestOf xs (pick xs none) (pick-Chosen xs none),
  )
]
