-- ===== src/Source/Graph/Planner/Goals.antt =====
-- The goals that `plan_graph` refuses before it plans any node.
use bobr.Base.{
  ℕ, suc, ◌+◌, ◌≤◌, ◌≡◌, ◌≢◌, ◌⊎◌, refl, subst, true, false, none, List, [], ◌∷◌, length, All,
  if◌then◌else◌, bytes_eq, bytes_eq_refl, ok, err, ◌>>=◌, inl, inr, Bool-cases, Option-cases, arith,
}
use bobr.Source.Graph.{
  Value, GraphPlanError, invalid_request, error_kind, no_goal, duplicate_goal, unknown_goal,
  Recipes, lookup, contains,
}
use bobr.Source.Graph.Planner.{check_goals, collect_goals, empty_planner, plan_graph}

-- How often an id is among the goals.
abbrev pub occurrences : List ℕ → List (List ℕ) → ℕ
occurrences id [] = 0
occurrences id (goal ∷ goals) =
    let rest = occurrences id goals in if bytes_eq goal id then suc rest else rest

abbrev pub AreDistinct : List (List ℕ) → Type 0
AreDistinct [] = Unit
AreDistinct (goal ∷ goals) = All (λ later. goal ≢ later) goals × AreDistinct goals

contains-occurrences :
    (seen : List (List ℕ)) (id : List ℕ) → contains seen id ≡ true → 1 ≤ occurrences id seen
unfolding contains
contains-occurrences [] id t = absurd (cc t)
contains-occurrences (s ∷ seen) id t = elim (Bool-cases (bytes_eq s id)) [
  | inl same ↦ rw same (omega arith)
  | inr f ↦ rw f (contains-occurrences seen id (rw f at t))
]

-- The seen ids are none of the goals.
abbrev AreNew : List (List ℕ) → List (List ℕ) → Type 0
AreNew seen goals = All (λ goal. contains seen goal ≡ false) goals

AreNew-head :
    (goal : List ℕ) (seen goals : List (List ℕ))
    → AreNew (goal ∷ seen) goals
    → All (λ later. goal ≢ later) goals × AreNew seen goals
unfolding contains
AreNew-head goal seen [] h = (tt, tt)
AreNew-head goal seen (g ∷ goals) h =
    let (ones, rest) = AreNew-head goal seen goals h.1 in
    elim (Bool-cases (bytes_eq goal g)) [
      | inl t ↦ absurd (let off = h.0 in cc (rw t at off))
      | inr f ↦ (
        (
          λ same.
              let on = subst (λ x. bytes_eq goal x ≡ true) same (bytes_eq_refl goal) in cc (on, f),
          ones,
        ),
        (let off = h.0 in rw f at off, rest),
      )
    ]

module _ {Builder Subject : Type 0} (recipes : Recipes Builder Subject)
    (nodes : List (List ℕ × Value)) where
  abbrev pub AreKnown : List (List ℕ) → Type 0
  AreKnown goals = All (λ goal. lookup nodes goal ≢ none) goals

  -- What is wrong with the goals.
  abbrev pub Explains : List (List ℕ) → List (List ℕ) → GraphPlanError → Type 0
  Explains seen goals (duplicate_goal id) = 2 ≤ occurrences id seen + occurrences id goals
  Explains seen goals (unknown_goal id) = (1 ≤ occurrences id goals) × (lookup nodes id ≡ none)
  Explains seen goals no_goal = goals ≡ []
  Explains seen goals e = ⊥

  Explains-cons :
      (seen goals : List (List ℕ)) (goal : List ℕ) (e : GraphPlanError)
      → (e ≢ no_goal)
      → Explains (goal ∷ seen) goals e
      → Explains seen (goal ∷ goals) e
  Explains-cons seen goals goal (duplicate_goal id) other h = elim (Bool-cases (bytes_eq goal id)) [
    | inl t ↦ let two = rw t at h in rw t (omega (arith, two))
    | inr f ↦ let two = rw f at h in rw f two
  ]
  Explains-cons seen goals goal (unknown_goal id) other h = elim (Bool-cases (bytes_eq goal id)) [
    | inl t ↦ rw t (omega arith, h.1)
    | inr f ↦ rw f h
  ]
  Explains-cons seen goals goal no_goal other h = absurd (other refl)
  Explains-cons seen goals goal e other h = absurd h

  check_goals-cases :
      (seen goals : List (List ℕ))
      → ((check_goals recipes nodes seen goals ≡ ok tt)
          × AreDistinct goals
          × AreKnown goals
          × AreNew seen goals)
        ⊎ ((e : GraphPlanError) × (check_goals recipes nodes seen goals ≡ err e)
            × Explains seen goals e
            × (error_kind e ≡ invalid_request)
            × (e ≢ no_goal))
  unfolding check_goals error_kind
  check_goals-cases seen [] = inl (refl, tt, tt, tt)
  check_goals-cases seen (goal ∷ goals) = elim (Bool-cases (contains seen goal)) [
    | inl t ↦
        let one = contains-occurrences seen goal t in
        let self = bytes_eq_refl goal in
        inr (duplicate_goal goal, rw t refl, rw self (omega (arith, one)), refl, λ same. cc same)
    | inr f ↦ elim (Option-cases (lookup nodes goal)) [
      | inl gone ↦
          let self = bytes_eq_refl goal in
          inr (
            unknown_goal goal,
            rw (check_goals, f, gone) refl,
            (rw self (omega arith), gone),
            refl,
            λ same. cc same,
          )
      | inr (value, there) ↦ elim (check_goals-cases (goal ∷ seen) goals) [
        | inl (run, distinct, known, new) ↦
            let (ones, rest) = AreNew-head goal seen goals new in
            inl (
              rw (check_goals, f, there) run,
              (ones, distinct),
              ((λ gone. cc (gone, there)), known),
              (f, rest),
            )
        | inr (e, run, why, kind, other) ↦ inr (
          e,
          rw (check_goals, f, there) run,
          Explains-cons seen goals goal e other why,
          kind,
          other,
        )
      ]
    ]
  ]

  -- For any goals, either there is one, they are all different and all in the request, and
  -- plan_graph is what collecting them one after another gives; or plan_graph returns an error
  -- of the kind InvalidRequest that says what is wrong with them: there is none, the id named is
  -- there twice, or it is there and not in the request.
  pub plan_graph-check_goals :
      (goals : List (List ℕ))
      → ((goals ≢ [])
          × AreDistinct goals
          × AreKnown goals
          × (plan_graph recipes nodes goals ≡ (
              collect_goals recipes nodes (suc (length nodes)) goals (empty_planner recipes nodes)
              >>= λ planned. ok (record { goals = planned.0; nodes = planned.1.planned_nodes }))))
        ⊎ ((e : GraphPlanError) × (plan_graph recipes nodes goals ≡ err e)
            × Explains [] goals e
            × (error_kind e ≡ invalid_request))
  unfolding plan_graph error_kind
  plan_graph-check_goals [] = inr (no_goal, refl, refl, refl)
  plan_graph-check_goals (goal ∷ goals) = elim (check_goals-cases [] (goal ∷ goals)) [
    | inl (run, distinct, known, new) ↦ inl ((λ e. cc e), distinct, known, rw run refl)
    | inr (e, run, why, kind, other) ↦ inr (e, rw run refl, why, kind)
  ]
