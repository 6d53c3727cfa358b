-- ===== src/Source/Graph/Planner/Fuel.antt =====
-- On the fuel of `collect`.
use bobr.Base.{
  ℕ, zero, suc, ◌<◌, ◌≡◌, ◌≢◌, sym, subst, List, [], ◌∷◌, length, bytes_eq, Result, ok, err, ok_or,
  >>=-eq-err, inl, inr, Bool-cases, Option-cases, arith,
}
use bobr.Base.Text.{codes}
use bobr.Store.RefName.{validate_ref_name}
use bobr.Source.Graph.{
  Value, Fields, nil, cons, remove, as_object, as_str, GraphPlanError, out_of_fuel, unknown_node,
  bad_name, bad_builder, bad_source, missing_field, expected_inputs, expected_request,
  expected_string, Recipes, take_string, parse_input_value, lookup, contains, parse_builder_subject,
  parse_source_subject,
}
use bobr.Source.Graph.Planner.{
  PlannedNode, Planner, map_err, Collect, collect_inputs, plan_builder, plan_source, plan_node,
  finish, visit, collect_new, collect, collect_goals, check_goals, empty_planner, plan_graph,
  has_no_goal, node_name,
}
use bobr.Source.Graph.Planner.Visits.{
  ok_or_ok, ok_or-ok, free, free-all, free-visit, Restores, collect-Restores,
}

module _ {Builder Subject : Type 0} (recipes : Recipes Builder Subject)
    (nodes : List (List ℕ × Value)) where
  -- With as many nodes off the path, the fuel does not end.
  abbrev Lasts : ℕ → Collect recipes nodes → Type 0
  Lasts fuel run =
      (id : List ℕ) (planner : Planner Subject)
      → free planner.visited_in_path nodes < fuel
      → run id planner ≢ err out_of_fuel

  parse_input_value_lem :
      (id name : List ℕ) (value : Value) → parse_input_value id name value ≢ err out_of_fuel
  unfolding parse_input_value
  parse_input_value_lem id name (Value.string s) e = cc e
  parse_input_value_lem id name Value.null e = cc e
  parse_input_value_lem id name (Value.array vs) e = cc e
  parse_input_value_lem id name Value.scalar e = cc e
  parse_input_value_lem id name (Value.object fields) e = cc e

  collect_inputs-Lasts :
      (fuel : ℕ) (run : Collect recipes nodes) (id : List ℕ) (fields : Fields)
      (planner : Planner Subject)
      → Lasts fuel run
      → Restores recipes nodes run
      → free planner.visited_in_path nodes < fuel
      → collect_inputs recipes nodes run id fields planner ≢ err out_of_fuel
  unfolding collect_inputs
  collect_inputs-Lasts fuel run id nil planner lasts restores enough e = cc e
  collect_inputs-Lasts fuel run id (cons name value rest) planner lasts restores enough e =
      elim (>>=-eq-err (parse_input_value id name value) _ e) [
        | inl bad ↦ parse_input_value_lem id name value bad
        | inr (child, parsed, e1) ↦ elim (>>=-eq-err (run child planner) _ e1) [
          | inl bad ↦ lasts child planner enough bad
          | inr (one, ran, e2) ↦
              let path = restores child planner one ran in
              elim (>>=-eq-err (collect_inputs recipes nodes run id rest one.1) _ e2) [
                | inl bad ↦
                    collect_inputs-Lasts fuel run id rest one.1 lasts restores
                      (subst (λ v. free v nodes < fuel) (sym path) enough) bad
                | inr (others, more, e3) ↦ cc e3
              ]
        ]
      ]

  take_string_lem :
      (id field : List ℕ) (fields : Fields) → take_string id field fields ≢ err out_of_fuel
  unfolding take_string
  take_string_lem id field fields e =
      elim (>>=-eq-err (ok_or (remove field fields) (missing_field id field)) _ e) [
        | inl bad ↦ ok_or_ok (remove field fields) (missing_field id field) (λ h. cc h) bad
        | inr (taken, there, e1) ↦
            elim (>>=-eq-err (ok_or (as_str taken.0) (expected_string id field)) _ e1) [
              | inl bad ↦ ok_or_ok (as_str taken.0) (expected_string id field) (λ h. cc h) bad
              | inr (text, is, e2) ↦ cc e2
            ]
      ]

  map_err_ok :
      {E A : Type 0} (f : E → GraphPlanError) (r : Result E A)
      → ((e : E) → f e ≢ out_of_fuel)
      → map_err f r ≢ err out_of_fuel
  map_err_ok f (ok a) differ e = cc e
  map_err_ok f (err b) differ e = let same : f b ≡ out_of_fuel = cc e in differ b same

  plan_source_lem :
      (id : List ℕ) (fields : Fields) (planner : Planner Subject)
      → plan_source recipes nodes id fields planner ≢ err out_of_fuel
  unfolding plan_source
  plan_source_lem id fields planner e =
      elim (>>=-eq-err (ok_or (parse_source_subject recipes fields) (bad_source id)) _ e) [
        | inl bad ↦ ok_or_ok (parse_source_subject recipes fields) (bad_source id) (λ h. cc h) bad
        | inr (subject, parsed, e1) ↦ cc e1
      ]

  plan_builder-Lasts :
      (fuel : ℕ) (run : Collect recipes nodes) (id tag : List ℕ) (fields : Fields)
      (planner : Planner Subject)
      → Lasts fuel run
      → Restores recipes nodes run
      → free planner.visited_in_path nodes < fuel
      → plan_builder recipes nodes run id tag fields planner ≢ err out_of_fuel
  unfolding plan_builder
  plan_builder-Lasts fuel run id tag fields planner lasts restores enough e =
      elim (>>=-eq-err (ok_or (remove (codes "inputs") fields) (missing_field id (codes "inputs")))
        _ e) [
          | inl bad ↦
              ok_or_ok (remove (codes "inputs") fields) (missing_field id (codes "inputs"))
                (λ h. cc h) bad
          | inr (taken, there, e1) ↦
              elim (>>=-eq-err (ok_or (as_object taken.0) (expected_inputs id)) _ e1) [
                | inl bad ↦ ok_or_ok (as_object taken.0) (expected_inputs id) (λ h. cc h) bad
                | inr (inputs_object, is, e2) ↦
                    elim (>>=-eq-err (collect_inputs recipes nodes run id inputs_object planner) _
                      e2) [
                        | inl bad ↦
                            collect_inputs-Lasts fuel run id inputs_object planner lasts restores
                              enough bad
                        | inr (inputs, ran, e3) ↦
                            elim (>>=-eq-err
                              (map_err bad_builder
                                (parse_builder_subject recipes tag taken.1 inputs.0))
                              _ e3) [
                                | inl bad ↦
                                    map_err_ok bad_builder
                                      (parse_builder_subject recipes tag taken.1 inputs.0)
                                      (λ b h. cc h) bad
                                | inr (subject, parsed, e4) ↦ cc e4
                              ]
                      ]
              ]
        ]

  plan_node-Lasts :
      (fuel : ℕ) (run : Collect recipes nodes) (id : List ℕ) (value : Value)
      (planner : Planner Subject)
      → Lasts fuel run
      → Restores recipes nodes run
      → free planner.visited_in_path nodes < fuel
      → plan_node recipes nodes run id value planner ≢ err out_of_fuel
  unfolding plan_node
  plan_node-Lasts fuel run id value planner lasts restores enough e =
      elim (>>=-eq-err (ok_or (as_object value) (expected_request id)) _ e) [
        | inl bad ↦ ok_or_ok (as_object value) (expected_request id) (λ h. cc h) bad
        | inr (fields, is, e1) ↦ elim (>>=-eq-err (take_string id (codes "tag") fields) _ e1) [
          | inl bad ↦ take_string_lem id (codes "tag") fields bad
          | inr (tagged, took, e2) ↦ elim (Bool-cases (bytes_eq tagged.0 (codes "Source"))) [
            | inl t ↦ plan_source_lem id tagged.1 planner (rw t at e2)
            | inr f ↦
                plan_builder-Lasts fuel run id tagged.0 tagged.1 planner lasts restores enough
                  (rw f at e2)
          ]
        ]
      ]

  finish_lem :
      (id : List ℕ) (node : PlannedNode Subject) (planner : Planner Subject)
      → finish recipes nodes id node planner ≢ err out_of_fuel
  unfolding finish
  finish_lem id node planner e =
      elim (>>=-eq-err
        (map_err (λ _. bad_name id) (validate_ref_name (node_name recipes nodes node))) _ e) [
          | inl bad ↦
              map_err_ok (λ _. bad_name id) (validate_ref_name (node_name recipes nodes node))
                (λ b h. cc h) bad
          | inr (valid, named, e1) ↦ cc e1
        ]

  collect-Lasts : (fuel : ℕ) → Lasts fuel (collect recipes nodes fuel)
  unfolding collect collect_new
  collect-Lasts zero id planner enough e = absurd (omega arith)
  collect-Lasts (suc fuel) id planner enough e = elim (Option-cases (lookup planner.node_keys id)) [
    | inr (key, known) ↦ cc (rw known at e)
    | inl new ↦ elim (Bool-cases (contains planner.visited_in_path id)) [
      | inl t ↦ cc (rw (new, t) at e)
      | inr off ↦
          elim (>>=-eq-err (ok_or (lookup nodes id) (unknown_node id)) _ (rw (new, off) at e)) [
            | inl bad ↦ ok_or_ok (lookup nodes id) (unknown_node id) (λ h. cc h) bad
            | inr (value, there, e1) ↦
                let less =
                  free-visit id planner.visited_in_path nodes value off
                    (ok_or-ok (lookup nodes id) (unknown_node id) value there) in
                elim (>>=-eq-err
                  (plan_node recipes nodes (collect recipes nodes fuel) id value
                    (visit recipes nodes id planner))
                  _ e1) [
                    | inl bad ↦
                        plan_node-Lasts fuel (collect recipes nodes fuel) id value
                          (visit recipes nodes id planner) (collect-Lasts fuel)
                          (collect-Restores recipes nodes fuel) (omega arith) bad
                    | inr (planned, ran, e2) ↦ finish_lem id planned.0 planned.1 e2
                  ]
          ]
    ]
  ]

  collect_goals_lem :
      (fuel : ℕ) (goals : List (List ℕ)) (planner : Planner Subject)
      → free planner.visited_in_path nodes < fuel
      → collect_goals recipes nodes fuel goals planner ≢ err out_of_fuel
  unfolding collect_goals
  collect_goals_lem fuel [] planner enough e = cc e
  collect_goals_lem fuel (goal ∷ goals) planner enough e =
      elim (>>=-eq-err (collect recipes nodes fuel goal planner) _ e) [
        | inl bad ↦ collect-Lasts fuel goal planner enough bad
        | inr (one, ran, e1) ↦
            let path = collect-Restores recipes nodes fuel goal planner one ran in
            elim (>>=-eq-err (collect_goals recipes nodes fuel goals one.1) _ e1) [
              | inl bad ↦
                  collect_goals_lem fuel goals one.1
                    (subst (λ v. free v nodes < fuel) (sym path) enough) bad
              | inr (others, more, e2) ↦ cc e2
            ]
      ]

  check_goals_lem :
      (seen goals : List (List ℕ)) → check_goals recipes nodes seen goals ≢ err out_of_fuel
  unfolding check_goals
  check_goals_lem seen [] e = cc e
  check_goals_lem seen (goal ∷ goals) e = elim (Bool-cases (contains seen goal)) [
    | inl t ↦ cc (rw t at e)
    | inr f ↦ elim (Option-cases (lookup nodes goal)) [
      | inl gone ↦ cc (rw (check_goals, f, gone) at e)
      | inr (value, there) ↦ check_goals_lem (goal ∷ seen) goals (rw (check_goals, f, there) at e)
    ]
  ]

  -- plan_graph never runs out of fuel, for any request, whether its nodes make cycles or not:
  -- fuel of one more than the number of nodes is enough for the recursion of collect.
  pub plan_graph_total : (goals : List (List ℕ)) → plan_graph recipes nodes goals ≢ err out_of_fuel
  unfolding plan_graph
  plan_graph_total goals e = elim (Bool-cases (has_no_goal recipes nodes goals)) [
    | inl t ↦ cc (rw t at e)
    | inr f ↦ elim (>>=-eq-err (check_goals recipes nodes [] goals) _ (rw f at e)) [
      | inl bad ↦ check_goals_lem [] goals bad
      | inr (checked, ran, e1) ↦
          elim (>>=-eq-err
            (collect_goals recipes nodes (suc (length nodes)) goals (empty_planner recipes nodes)) _
            e1) [
              | inl bad ↦
                  let all = free-all nodes in
                  collect_goals_lem (suc (length nodes)) goals (empty_planner recipes nodes)
                    (omega (arith, all)) bad
              | inr (planned, done, e2) ↦ cc e2
            ]
    ]
  ]
