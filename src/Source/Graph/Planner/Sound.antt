-- ===== src/Source/Graph/Planner/Sound.antt =====
-- The plan of `plan_graph` and the nodes that the goals have.
use bobr.Base.{
  ℕ, zero, suc, ◌≡◌, refl, subst, Option, none, some, List, [], ◌∷◌, length, bytes_eq,
  bytes_eq_refl, eq_of_bytes_eq, ok, ok_or, >>=-eq-ok, ok_inj, inl, inr, Bool-cases, Option-cases,
}
use bobr.Store.RefName.{validate_ref_name}
use bobr.Source.Graph.{Value, BuildKey, unknown_node, bad_name, Recipes, lookup, contains}
use bobr.Source.Graph.Planner.{
  PlannedNode, Planner, PlannedGraph, map_err, plan_node, finish, visit, or_insert, collect_new,
  collect, collect_goals, check_goals, empty_planner, plan_graph, has_no_goal, node_name, build_key,
}
use bobr.Source.Graph.Planner.Visits.{ok_or-ok}
use bobr.Source.Graph.Planner.Meaning.{
  HasNode, IsPlanned, AreNodes, Grows, IsSound, IsRight, IsPlanned-Grows,
}
use bobr.Source.Graph.Planner.Made.{map_err-ok, plan_node-Made}

module _ {Builder Subject : Type 0} (recipes : Recipes Builder Subject)
    (nodes : List (List ℕ × Value)) where
  or_insert-cases :
      (key : BuildKey) (node : PlannedNode Subject)
      (planned : List (BuildKey × PlannedNode Subject))
      → (P : List (BuildKey × PlannedNode Subject) → Type 0)
      → ((first : PlannedNode Subject) → lookup planned key ≡ some first → P planned)
      → (lookup planned key ≡ none → P ((key, node) ∷ planned))
      → P (or_insert recipes nodes key node planned)
  or_insert-cases key node planned P old new = split (lookup planned key) refl
    where
      split :
          (what : Option (PlannedNode Subject))
          → lookup planned key ≡ what
          → P (elim what [ none ↦ (key, node) ∷ planned | some first ↦ planned ])
      split none e = new e
      split (some first) e = old first e

  cons-Grows :
      (key : BuildKey) (node : PlannedNode Subject)
      (planned : List (BuildKey × PlannedNode Subject))
      → lookup planned key ≡ none
      → Grows recipes nodes planned ((key, node) ∷ planned)
  unfolding lookup
  cons-Grows key node planned new k n h = elim (Bool-cases (bytes_eq key k)) [
    | inr f ↦ rw f h
    | inl t ↦
        let gone = subst (λ j. lookup planned j ≡ none) (eq_of_bytes_eq key k t) new in
        absurd (cc (gone, h))
  ]

  lookup-cons :
      (key : BuildKey) (node : PlannedNode Subject)
      (planned : List (BuildKey × PlannedNode Subject))
      → lookup ((key, node) ∷ planned) key ≡ some node
  unfolding lookup
  lookup-cons key node planned = rw (bytes_eq_refl key) refl

  or_insert-Grows :
      (key : BuildKey) (node : PlannedNode Subject)
      (planned : List (BuildKey × PlannedNode Subject))
      → Grows recipes nodes planned (or_insert recipes nodes key node planned)
        × ((first : PlannedNode Subject) × (lookup (or_insert recipes nodes key node planned) key
              ≡ some first))
  or_insert-Grows key node planned =
      or_insert-cases key node planned
        (λ later.
          Grows recipes nodes planned later
          × ((first : PlannedNode Subject) × (lookup later key ≡ some first)))
        (λ first there. (λ k n h. h, (first, there)))
        (λ new. (cons-Grows key node planned new, (node, lookup-cons key node planned)))

  or_insert-AreNodes :
      (id : List ℕ) (node : PlannedNode Subject) (planned : List (BuildKey × PlannedNode Subject))
      → HasNode recipes nodes id node
      → AreNodes recipes nodes planned
      → AreNodes recipes nodes (or_insert recipes nodes (build_key recipes nodes node) node planned)
  unfolding lookup
  or_insert-AreNodes id node planned has own =
      or_insert-cases (build_key recipes nodes node) node planned (AreNodes recipes nodes)
        (λ first there. own)
        (λ new k n h. elim (Bool-cases (bytes_eq (build_key recipes nodes node) k)) [
          | inr f ↦ own k n (rw f at h)
          | inl t ↦
              let same : node ≡ n = cc (rw t at h) in
              subst
                (λ m. (build_key recipes nodes m ≡ k) × ((i : List ℕ) × HasNode recipes nodes i m))
                same (eq_of_bytes_eq (build_key recipes nodes node) k t, (id, has))
        ])

  finish-IsSound :
      (id : List ℕ) (node : PlannedNode Subject) (planner : Planner Subject)
      (result : BuildKey × Planner Subject)
      → (validate_ref_name (node_name recipes nodes node) ≡ ok tt → HasNode recipes nodes id node)
      → IsSound recipes nodes planner
      → finish recipes nodes id node planner ≡ ok result
      → IsPlanned recipes nodes result.1.planned_nodes id result.0
        × IsSound recipes nodes result.1
        × Grows recipes nodes planner.planned_nodes result.1.planned_nodes
  unfolding finish lookup
  finish-IsSound id node planner result made sound e =
      let (valid, named, last) =
        >>=-eq-ok (map_err (λ _. bad_name id) (validate_ref_name (node_name recipes nodes node))) _
          e in
      let has = made (
        map_err-ok recipes nodes (λ _. bad_name id)
          (validate_ref_name (node_name recipes nodes node)) tt named) in
      let key = build_key recipes nodes node in
      let (grows, (first, there)) = or_insert-Grows key node planner.planned_nodes in
      subst
        (λ (r : BuildKey × Planner Subject).
          IsPlanned recipes nodes r.1.planned_nodes id r.0
          × IsSound recipes nodes r.1
          × Grows recipes nodes planner.planned_nodes r.1.planned_nodes)
        (ok_inj last)
        (
          (node, has, refl, first, there),
          record {
            keys = λ i k h. elim (Bool-cases (bytes_eq id i)) [
              | inr f ↦
                  IsPlanned-Grows recipes nodes planner.planned_nodes
                    (or_insert recipes nodes key node planner.planned_nodes) i k grows
                    (sound.keys i k (rw f at h))
              | inl t ↦
                  let same : build_key recipes nodes node ≡ k = cc (rw t at h) in
                  let ids = eq_of_bytes_eq id i t in
                  subst
                    (λ j.
                      IsPlanned recipes nodes
                        (or_insert recipes nodes key node planner.planned_nodes) j k)
                    ids
                    (subst
                      (IsPlanned recipes nodes
                        (or_insert recipes nodes key node planner.planned_nodes) id)
                      same (node, has, refl, first, there))
            ];
            own = or_insert-AreNodes id node planner.planned_nodes has sound.own;
          },
          grows,
        )

  visit-IsSound :
      (id : List ℕ) (planner : Planner Subject)
      → IsSound recipes nodes planner
      → IsSound recipes nodes (visit recipes nodes id planner)
  visit-IsSound id planner sound = record { keys = sound.keys; own = sound.own }

  collect-IsRight : (fuel : ℕ) → IsRight recipes nodes (collect recipes nodes fuel)
  unfolding collect collect_new
  collect-IsRight zero id planner result sound e = absurd (cc e)
  collect-IsRight (suc fuel) id planner result sound e =
      elim (Option-cases (lookup planner.node_keys id)) [
        | inr (key, known) ↦
            subst
              (λ (r : BuildKey × Planner Subject).
                IsPlanned recipes nodes r.1.planned_nodes id r.0
                × IsSound recipes nodes r.1
                × Grows recipes nodes planner.planned_nodes r.1.planned_nodes)
              (ok_inj (rw known at e)) (sound.keys id key known, sound, λ k n h. h)
        | inl new ↦ elim (Bool-cases (contains planner.visited_in_path id)) [
          | inl t ↦ absurd (cc (rw (new, t) at e))
          | inr off ↦
              let (value, there, e1) =
                >>=-eq-ok (ok_or (lookup nodes id) (unknown_node id)) _ (rw (new, off) at e) in
              let start = visit recipes nodes id planner in
              let (planned, ran, e2) =
                >>=-eq-ok (plan_node recipes nodes (collect recipes nodes fuel) id value start) _
                  e1 in
              let (made, between, grows) =
                plan_node-Made recipes nodes (collect recipes nodes fuel) id value start planned
                  (collect-IsRight fuel) (visit-IsSound id planner sound)
                  (ok_or-ok (lookup nodes id) (unknown_node id) value there) ran in
              let (is, later, grow) =
                finish-IsSound id planned.0 planned.1 result made between e2 in
              (is, later, λ k n h. grow k n (grows k n h))
        ]
      ]

  -- The key of each goal, in the order of the goals.
  abbrev pub AreGoals :
      List (BuildKey × PlannedNode Subject) → List (List ℕ) → List BuildKey → Type 0
  AreGoals planned [] [] = Unit
  AreGoals planned [] (key ∷ keys) = ⊥
  AreGoals planned (goal ∷ goals) [] = ⊥
  AreGoals planned (goal ∷ goals) (key ∷ keys) =
      IsPlanned recipes nodes planned goal key × AreGoals planned goals keys

  collect_goals-AreGoals :
      (fuel : ℕ) (goals : List (List ℕ)) (planner : Planner Subject)
      (result : List BuildKey × Planner Subject)
      → IsSound recipes nodes planner
      → collect_goals recipes nodes fuel goals planner ≡ ok result
      → AreGoals result.1.planned_nodes goals result.0
        × IsSound recipes nodes result.1
        × Grows recipes nodes planner.planned_nodes result.1.planned_nodes
  unfolding collect_goals
  collect_goals-AreGoals fuel [] planner result sound e =
      subst
        (λ (r : List BuildKey × Planner Subject).
          AreGoals r.1.planned_nodes [] r.0
          × IsSound recipes nodes r.1
          × Grows recipes nodes planner.planned_nodes r.1.planned_nodes)
        (ok_inj {a = ([], planner)} e) (tt, sound, λ k n h. h)
  collect_goals-AreGoals fuel (goal ∷ goals) planner result sound e =
      let (one, ran, e1) = >>=-eq-ok (collect recipes nodes fuel goal planner) _ e in
      let (others, more, e2) = >>=-eq-ok (collect_goals recipes nodes fuel goals one.1) _ e1 in
      let (is, between, grows) = collect-IsRight fuel goal planner one sound ran in
      let (are, later, grow) = collect_goals-AreGoals fuel goals one.1 others between more in
      subst
        (λ (r : List BuildKey × Planner Subject).
          AreGoals r.1.planned_nodes (goal ∷ goals) r.0
          × IsSound recipes nodes r.1
          × Grows recipes nodes planner.planned_nodes r.1.planned_nodes)
        (ok_inj {a = (one.0 ∷ others.0, others.1)} e2)
        (
          (
            IsPlanned-Grows recipes nodes one.1.planned_nodes others.1.planned_nodes goal one.0 grow
                is,
            are,
          ),
          later,
          λ k n h. grow k n (grows k n h),
        )

  empty-IsSound : IsSound recipes nodes (empty_planner recipes nodes)
  unfolding lookup
  empty-IsSound = record { keys = λ id key h. absurd (cc h); own = λ key node h. absurd (cc h) }

  -- When plan_graph returns a graph, the goals of the graph are, in the order given, the build
  -- keys of the nodes of the goal ids, where the node of an id is what its recipe parses to with
  -- the keys of the nodes that its inputs name, found without the table of keys; each goal has a
  -- planned node, and each planned node is the node of some id and stands under its own build
  -- key.
  pub plan_graph_sound :
      (goals : List (List ℕ)) (graph : PlannedGraph Subject)
      → plan_graph recipes nodes goals ≡ ok graph
      → AreGoals graph.nodes goals graph.goals × AreNodes recipes nodes graph.nodes
  unfolding plan_graph
  plan_graph_sound goals graph e = elim (Bool-cases (has_no_goal recipes nodes goals)) [
    | inl t ↦ absurd (cc (rw t at e))
    | inr f ↦
        let (checked, ran, e1) = >>=-eq-ok (check_goals recipes nodes [] goals) _ (rw f at e) in
        let start = empty_planner recipes nodes in
        let (planned, done, last) =
          >>=-eq-ok (collect_goals recipes nodes (suc (length nodes)) goals start) _ e1 in
        let (are, sound, grows) =
          collect_goals-AreGoals (suc (length nodes)) goals start planned empty-IsSound done in
        subst
          (λ (g : PlannedGraph Subject).
            AreGoals g.nodes goals g.goals × AreNodes recipes nodes g.nodes)
          (ok_inj last) (are, sound.own)
  ]
