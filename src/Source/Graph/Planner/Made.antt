-- ===== src/Source/Graph/Planner/Made.antt =====
-- What `plan_node` has done when it succeeds.
use bobr.Base.{
  ℕ, ◌≡◌, ap, subst, true, false, some, List, bytes_eq, Result, ok, err, ok_or, >>=-eq-ok, ok_inj,
  inl, inr, Bool-cases,
}
use bobr.Base.Text.{codes}
use bobr.Store.RefName.{validate_ref_name}
use bobr.Source.Graph.{
  Value, Fields, remove, as_object, GraphPlanError, bad_builder, bad_source, missing_field,
  expected_inputs, expected_request, Recipes, take_string, lookup, parse_builder_subject,
  parse_source_subject,
}
use bobr.Source.Graph.Planner.{
  PlannedNode, Planner, map_err, Collect, collect_inputs, plan_builder, plan_source, plan_node,
  node_name,
}
use bobr.Source.Graph.Planner.Visits.{ok_or-ok}
use bobr.Source.Graph.Planner.Meaning.{
  has_source, has_builder, Grows, IsSound, IsRight, collect_inputs-HaveKeys, HasNode,
}

module _ {Builder Subject : Type 0} (recipes : Recipes Builder Subject)
    (nodes : List (List ℕ × Value)) where
  pub map_err-ok :
      {E A : Type 0} (f : E → GraphPlanError) (r : Result E A) (a : A)
      → map_err f r ≡ ok a
      → r ≡ ok a
  map_err-ok f (ok b) a e = ap ok (ok_inj e)
  map_err-ok f (err b) a e = absurd (cc e)

  -- What `plan_node` has done, but for the name of the node.
  abbrev Made : List ℕ → Planner Subject → PlannedNode Subject × Planner Subject → Type 0
  Made id planner result =
      (validate_ref_name (node_name recipes nodes result.0) ≡ ok tt
        → HasNode recipes nodes id result.0)
      × IsSound recipes nodes result.1
      × Grows recipes nodes planner.planned_nodes result.1.planned_nodes

  plan_source-Made :
      (id : List ℕ) (value : Value) (fields : Fields) (tagged : List ℕ × Fields)
      (planner : Planner Subject) (result : PlannedNode Subject × Planner Subject)
      → IsSound recipes nodes planner
      → lookup nodes id ≡ some value
      → as_object value ≡ some fields
      → take_string id (codes "tag") fields ≡ ok tagged
      → bytes_eq tagged.0 (codes "Source") ≡ true
      → plan_source recipes nodes id tagged.1 planner ≡ ok result
      → Made id planner result
  unfolding plan_source
  plan_source-Made id value fields tagged planner result sound there is took t e =
      let (subject, parsed, last) =
        >>=-eq-ok (ok_or (parse_source_subject recipes tagged.1) (bad_source id)) _ e in
      subst (Made id planner) (ok_inj {a = (PlannedNode.source subject, planner)} last) (
        has_source id value fields tagged subject there is took t
            (ok_or-ok (parse_source_subject recipes tagged.1) (bad_source id) subject parsed),
        sound,
        λ key node h. h,
      )

  plan_builder-Made :
      (run : Collect recipes nodes) (id : List ℕ) (value : Value) (fields : Fields)
      (tagged : List ℕ × Fields) (planner : Planner Subject)
      (result : PlannedNode Subject × Planner Subject)
      → IsRight recipes nodes run
      → IsSound recipes nodes planner
      → lookup nodes id ≡ some value
      → as_object value ≡ some fields
      → take_string id (codes "tag") fields ≡ ok tagged
      → bytes_eq tagged.0 (codes "Source") ≡ false
      → plan_builder recipes nodes run id tagged.0 tagged.1 planner ≡ ok result
      → Made id planner result
  unfolding plan_builder
  plan_builder-Made run id value fields tagged planner result right sound there is took f e =
      let (taken, has_inputs, e1) =
        >>=-eq-ok (ok_or (remove (codes "inputs") tagged.1) (missing_field id (codes "inputs"))) _
          e in
      let (inputs_object, obj, e2) =
        >>=-eq-ok (ok_or (as_object taken.0) (expected_inputs id)) _ e1 in
      let (inputs, ran, e3) =
        >>=-eq-ok (collect_inputs recipes nodes run id inputs_object planner) _ e2 in
      let (subject, parsed, last) =
        >>=-eq-ok (map_err bad_builder (parse_builder_subject recipes tagged.0 taken.1 inputs.0)) _
          e3 in
      let (have, later, grows) =
        collect_inputs-HaveKeys recipes nodes run id inputs_object planner inputs right sound ran in
      subst (Made id planner) (ok_inj {a = (PlannedNode.builder subject, inputs.1)} last) (
        has_builder id value fields tagged taken inputs_object inputs.0 subject there is took f
            (ok_or-ok (remove (codes "inputs") tagged.1) (missing_field id (codes "inputs")) taken
              has_inputs)
            (ok_or-ok (as_object taken.0) (expected_inputs id) inputs_object obj) have
            (map_err-ok bad_builder (parse_builder_subject recipes tagged.0 taken.1 inputs.0)
              subject parsed),
        later,
        grows,
      )

  pub plan_node-Made :
      (run : Collect recipes nodes) (id : List ℕ) (value : Value) (planner : Planner Subject)
      (result : PlannedNode Subject × Planner Subject)
      → IsRight recipes nodes run
      → IsSound recipes nodes planner
      → lookup nodes id ≡ some value
      → plan_node recipes nodes run id value planner ≡ ok result
      → Made id planner result
  unfolding plan_node
  plan_node-Made run id value planner result right sound there e =
      let (fields, is, e1) = >>=-eq-ok (ok_or (as_object value) (expected_request id)) _ e in
      let (tagged, took, e2) = >>=-eq-ok (take_string id (codes "tag") fields) _ e1 in
      let obj = ok_or-ok (as_object value) (expected_request id) fields is in
      elim (Bool-cases (bytes_eq tagged.0 (codes "Source"))) [
        | inl t ↦
            plan_source-Made id value fields tagged planner result sound there obj took t
              (rw t at e2)
        | inr f ↦
            plan_builder-Made run id value fields tagged planner result right sound there obj took f
              (rw f at e2)
      ]
