-- ===== src/Source/Graph/Planner/Visits.antt =====
-- The path of `collect`: it is the same after a node as before, and enough fuel never ends.
use bobr.Base.{
  ℕ, zero, suc, ◌≤◌, ◌<◌, ◌≡◌, ◌≢◌, refl, sym, ap, ◌∙◌, subst, true, false, Option, none, some,
  List, [], ◌∷◌, length, if◌then◌else◌, bytes_eq, bytes_eq_refl, eq_of_bytes_eq, ok, err, ok_or,
  >>=-eq-ok, inl, inr, Bool-cases, Option-cases, ok_inj, arith,
}
use bobr.Base.Text.{codes}
use bobr.Store.RefName.{validate_ref_name}
use bobr.Source.Graph.{
  Value, Fields, nil, cons, remove, as_object, BuildKey, GraphPlanError, out_of_fuel, unknown_node,
  bad_name, bad_builder, bad_source, missing_field, expected_inputs, expected_request, Inputs,
  Recipes, take_string, parse_input_value, lookup, contains, parse_builder_subject,
  parse_source_subject,
}
use bobr.Source.Graph.Planner.{
  PlannedNode, Planner, map_err, remove_id, Collect, collect_inputs, plan_builder, plan_source,
  plan_node, finish, visit, collect_new, collect, node_name,
}

pub ok_or_ok :
    {A : Type 0} (o : Option A) (e : GraphPlanError) → e ≢ out_of_fuel → ok_or o e ≢ err out_of_fuel
ok_or_ok none e differ same = let eq : e ≡ out_of_fuel = cc same in differ eq
ok_or_ok (some a) e differ same = cc same

pub ok_or-ok :
    {A : Type 0} (o : Option A) (e : GraphPlanError) (a : A) → ok_or o e ≡ ok a → o ≡ some a
ok_or-ok none e a same = absurd (cc same)
ok_or-ok (some b) e a same = ap some (ok_inj same)

-- The nodes that are not on the path.
abbrev pub free : List (List ℕ) → List (List ℕ × Value) → ℕ
free visited [] = 0
free visited ((key, value) ∷ rest) =
    if contains visited key then free visited rest else suc (free visited rest)

pub free-all : (nodes : List (List ℕ × Value)) → free [] nodes ≡ length nodes
unfolding contains
free-all [] = refl
free-all ((key, value) ∷ rest) = ap suc (free-all rest)

free-visit_le :
    (id : List ℕ) (visited : List (List ℕ)) (nodes : List (List ℕ × Value))
    → free (id ∷ visited) nodes ≤ free visited nodes
unfolding contains
free-visit_le id visited [] = omega arith
free-visit_le id visited ((key, value) ∷ rest) =
    let below = free-visit_le id visited rest in
    elim (Bool-cases (contains visited key)) [
      | inl t ↦ elim (Bool-cases (bytes_eq id key)) [
        | inl s ↦ rw (contains, s, t) below
        | inr s ↦ rw (contains, s, t) below
      ]
      | inr f ↦ elim (Bool-cases (bytes_eq id key)) [
        | inl s ↦ rw (contains, s, f) (omega (arith, below))
        | inr s ↦ rw (contains, s, f) (omega (arith, below))
      ]
    ]

pub free-visit :
    (id : List ℕ) (visited : List (List ℕ)) (nodes : List (List ℕ × Value)) (value : Value)
    → contains visited id ≡ false
    → lookup nodes id ≡ some value
    → free (id ∷ visited) nodes < free visited nodes
unfolding contains lookup
free-visit id visited [] value new there = absurd (cc there)
free-visit id visited ((key, v) ∷ rest) value new there = elim (Bool-cases (bytes_eq key id)) [
  | inl t ↦
      let same = eq_of_bytes_eq key id t in
      let off : contains visited key ≡ false =
        subst (λ k. contains visited k ≡ false) (sym same) new in
      let on : bytes_eq id key ≡ true =
        subst (λ k. bytes_eq id k ≡ true) (sym same) (bytes_eq_refl id) in
      let below = free-visit_le id visited rest in rw (contains, on, off) (omega (arith, below))
  | inr f ↦
      let below = free-visit id visited rest value new (rw f at there) in
      elim (Bool-cases (contains visited key)) [
        | inl t ↦ elim (Bool-cases (bytes_eq id key)) [
          | inl s ↦ rw (contains, s, t) below
          | inr s ↦ rw (contains, s, t) below
        ]
        | inr g ↦ elim (Bool-cases (bytes_eq id key)) [
          | inl s ↦ rw (contains, s, g) (omega (arith, below))
          | inr s ↦ rw (contains, s, g) (omega (arith, below))
        ]
      ]
]

module _ {Builder Subject : Type 0} (recipes : Recipes Builder Subject)
    (nodes : List (List ℕ × Value)) where
  -- The path is the same afterwards.
  abbrev pub Restores : Collect recipes nodes → Type 0
  Restores collect =
      (id : List ℕ) (planner : Planner Subject) (result : BuildKey × Planner Subject)
      → collect id planner ≡ ok result
      → result.1.visited_in_path ≡ planner.visited_in_path

  collect_inputs-Restores :
      (collect : Collect recipes nodes) (id : List ℕ) (fields : Fields) (planner : Planner Subject)
      (result : Inputs × Planner Subject)
      → Restores collect
      → collect_inputs recipes nodes collect id fields planner ≡ ok result
      → result.1.visited_in_path ≡ planner.visited_in_path
  unfolding collect_inputs
  collect_inputs-Restores collect id nil planner result restores e =
      let same : ([], planner) ≡ result = ok_inj e in
      sym (ap (λ (r : Inputs × Planner Subject). r.1.visited_in_path) same)
  collect_inputs-Restores collect id (cons name value rest) planner result restores e =
      let (child, parsed, e1) = >>=-eq-ok (parse_input_value id name value) _ e in
      let (one, ran, e2) = >>=-eq-ok (collect child planner) _ e1 in
      let (others, more, e3) =
        >>=-eq-ok (collect_inputs recipes nodes collect id rest one.1) _ e2 in
      let same : ((name, one.0) ∷ others.0, others.1) ≡ result = ok_inj e3 in
      sym (ap (λ (r : Inputs × Planner Subject). r.1.visited_in_path) same)
      ∙ collect_inputs-Restores collect id rest one.1 others restores more
      ∙ restores child planner one ran

  plan_node-Restores :
      (collect : Collect recipes nodes) (id : List ℕ) (value : Value) (planner : Planner Subject)
      (result : PlannedNode Subject × Planner Subject)
      → Restores collect
      → plan_node recipes nodes collect id value planner ≡ ok result
      → result.1.visited_in_path ≡ planner.visited_in_path
  unfolding plan_node plan_source plan_builder
  plan_node-Restores collect id value planner result restores e =
      let (fields, is, e1) = >>=-eq-ok (ok_or (as_object value) (expected_request id)) _ e in
      let (tagged, took, e2) = >>=-eq-ok (take_string id (codes "tag") fields) _ e1 in
      elim (Bool-cases (bytes_eq tagged.0 (codes "Source"))) [
        | inl t ↦
            let (subject, parsed, e3) =
              >>=-eq-ok (ok_or (parse_source_subject recipes tagged.1) (bad_source id)) _
                (rw t at e2) in
            let same : (PlannedNode.source subject, planner) ≡ result = ok_inj e3 in
            sym (ap (λ (r : PlannedNode Subject × Planner Subject). r.1.visited_in_path) same)
        | inr f ↦
            let (taken, there, e3) =
              >>=-eq-ok
                (ok_or (remove (codes "inputs") tagged.1) (missing_field id (codes "inputs"))) _
                (rw f at e2) in
            let (inputs_object, obj, e4) =
              >>=-eq-ok (ok_or (as_object taken.0) (expected_inputs id)) _ e3 in
            let (inputs, ran, e5) =
              >>=-eq-ok (collect_inputs recipes nodes collect id inputs_object planner) _ e4 in
            let (subject, parsed, e6) =
              >>=-eq-ok
                (map_err bad_builder (parse_builder_subject recipes tagged.0 taken.1 inputs.0)) _
                e5 in
            let same : (PlannedNode.builder subject, inputs.1) ≡ result =
              ok_inj {a = (PlannedNode.builder subject, inputs.1)} e6 in
            sym (ap (λ (r : PlannedNode Subject × Planner Subject). r.1.visited_in_path) same)
            ∙ collect_inputs-Restores collect id inputs_object planner inputs restores ran
      ]

  remove_id-head : (id : List ℕ) (visited : List (List ℕ)) → remove_id id (id ∷ visited) ≡ visited
  unfolding remove_id
  remove_id-head id visited = rw (bytes_eq_refl id) refl

  pub collect-Restores : (fuel : ℕ) → Restores (collect recipes nodes fuel)
  unfolding collect collect_new finish
  collect-Restores zero id planner result e = absurd (cc e)
  collect-Restores (suc fuel) id planner result e =
      elim (Option-cases (lookup planner.node_keys id)) [
        | inr (key, known) ↦
            let same : (key, planner) ≡ result = cc (rw known at e) in
            sym (ap (λ (r : BuildKey × Planner Subject). r.1.visited_in_path) same)
        | inl new ↦ elim (Bool-cases (contains planner.visited_in_path id)) [
          | inl t ↦ absurd (cc (rw (new, t) at e))
          | inr off ↦
              let (value, there, e1) =
                >>=-eq-ok (ok_or (lookup nodes id) (unknown_node id)) _ (rw (new, off) at e) in
              let (planned, ran, e2) =
                >>=-eq-ok
                  (plan_node recipes nodes (collect recipes nodes fuel) id value
                    (visit recipes nodes id planner))
                  _ e1 in
              let (valid, ok_name, e3) =
                >>=-eq-ok
                  (map_err (λ _. bad_name id)
                    (validate_ref_name (node_name recipes nodes planned.0)))
                  _ e2 in
              let path =
                plan_node-Restores (collect recipes nodes fuel) id value
                  (visit recipes nodes id planner) planned (collect-Restores fuel) ran in
              sym (ap (λ (r : BuildKey × Planner Subject). r.1.visited_in_path) (ok_inj e3))
              ∙ ap (remove_id id) path
              ∙ remove_id-head id planner.visited_in_path
        ]
      ]
