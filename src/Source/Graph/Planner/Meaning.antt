-- ===== src/Source/Graph/Planner/Meaning.antt =====
-- The nodes of a request without the memo table of the planner, and the plan that `plan_graph` makes.
use bobr.Base.{ℕ, ◌≡◌, subst, true, false, some, List, [], ◌∷◌, bytes_eq, ok, >>=-eq-ok, ok_inj}
use bobr.Base.Text.{codes}
use bobr.Store.RefName.{validate_ref_name}
use bobr.Source.Graph.{
  Value, Fields, nil, cons, remove, as_object, BuildKey, SourceSubject, Inputs, Recipes,
  take_string, parse_input_value, lookup, parse_builder_subject, parse_source_subject,
}
use bobr.Source.Graph.Planner.{PlannedNode, Planner, Collect, collect_inputs, build_key}

mutual
  -- The node of an id: its recipe parsed, with the keys of the nodes that its inputs name.
  pub data HasNode {Builder Subject : Type 0} (recipes : Recipes Builder Subject)
      (nodes : List (List ℕ × Value)) : List ℕ → PlannedNode Subject → Type 0 where
    has_source :
        (id : List ℕ) (value : Value) (fields : Fields) (tagged : List ℕ × Fields)
        (subject : SourceSubject)
        → lookup nodes id ≡ some value
        → as_object value ≡ some fields
        → take_string id (codes "tag") fields ≡ ok tagged
        → bytes_eq tagged.0 (codes "Source") ≡ true
        → parse_source_subject recipes tagged.1 ≡ some subject
        → validate_ref_name subject.name ≡ ok tt
        → HasNode recipes nodes id (PlannedNode.source subject)
    has_builder :
        (id : List ℕ) (value : Value) (fields : Fields) (tagged : List ℕ × Fields)
        (taken : Value × Fields) (inputs_object : Fields) (inputs : Inputs) (subject : Subject)
        → lookup nodes id ≡ some value
        → as_object value ≡ some fields
        → take_string id (codes "tag") fields ≡ ok tagged
        → bytes_eq tagged.0 (codes "Source") ≡ false
        → remove (codes "inputs") tagged.1 ≡ some taken
        → as_object taken.0 ≡ some inputs_object
        → HaveKeys recipes nodes id inputs_object inputs
        → parse_builder_subject recipes tagged.0 taken.1 inputs ≡ ok subject
        → validate_ref_name (recipes.subject_name subject) ≡ ok tt
        → HasNode recipes nodes id (PlannedNode.builder subject)

  pub data HaveKeys {Builder Subject : Type 0} (recipes : Recipes Builder Subject)
      (nodes : List (List ℕ × Value)) : List ℕ → Fields → Inputs → Type 0 where
    no_input : (id : List ℕ) → HaveKeys recipes nodes id nil []
    next_input :
        (id name : List ℕ) (value : Value) (rest : Fields) (child : List ℕ)
        (node : PlannedNode Subject) (inputs : Inputs)
        → parse_input_value id name value ≡ ok child
        → HasNode recipes nodes child node
        → HaveKeys recipes nodes id rest inputs
        → HaveKeys recipes nodes id
            (cons name value rest)
            ((name, build_key recipes nodes node) ∷ inputs)

module _ {Builder Subject : Type 0} (recipes : Recipes Builder Subject)
    (nodes : List (List ℕ × Value)) where
  -- The id has a node with the key, and the key is planned.
  abbrev pub IsPlanned : List (BuildKey × PlannedNode Subject) → List ℕ → BuildKey → Type 0
  IsPlanned planned id key =
      (node : PlannedNode Subject) × HasNode recipes nodes id node
      × (build_key recipes nodes node ≡ key)
      × (first : PlannedNode Subject) × (lookup planned key ≡ some first)

  -- Each planned node is the node of an id, under its own key.
  abbrev pub AreNodes : List (BuildKey × PlannedNode Subject) → Type 0
  AreNodes planned =
      (key : BuildKey) (node : PlannedNode Subject)
      → lookup planned key ≡ some node
      → (build_key recipes nodes node ≡ key) × ((id : List ℕ) × HasNode recipes nodes id node)

  -- What is planned stays planned.
  abbrev pub Grows :
      List (BuildKey × PlannedNode Subject) → List (BuildKey × PlannedNode Subject) → Type 0
  Grows planned later =
      (key : BuildKey) (node : PlannedNode Subject)
      → lookup planned key ≡ some node
      → lookup later key ≡ some node

  pub record IsSound (planner : Planner Subject) : Type 0 where
    pub keys :
        (id : List ℕ) (key : BuildKey)
        → lookup planner.node_keys id ≡ some key
        → IsPlanned planner.planned_nodes id key
    pub own : AreNodes planner.planned_nodes

  abbrev pub IsRight : Collect recipes nodes → Type 0
  IsRight run =
      (id : List ℕ) (planner : Planner Subject) (result : BuildKey × Planner Subject)
      → IsSound planner
      → run id planner ≡ ok result
      → IsPlanned result.1.planned_nodes id result.0
        × IsSound result.1
        × Grows planner.planned_nodes result.1.planned_nodes

  pub IsPlanned-Grows :
      (planned later : List (BuildKey × PlannedNode Subject)) (id : List ℕ) (key : BuildKey)
      → Grows planned later
      → IsPlanned planned id key
      → IsPlanned later id key
  IsPlanned-Grows planned later id key grows (node, has, is, first, there) =
      (node, has, is, first, grows key first there)

  pub collect_inputs-HaveKeys :
      (run : Collect recipes nodes) (id : List ℕ) (fields : Fields) (planner : Planner Subject)
      (result : Inputs × Planner Subject)
      → IsRight run
      → IsSound planner
      → collect_inputs recipes nodes run id fields planner ≡ ok result
      → HaveKeys recipes nodes id fields result.0
        × IsSound result.1
        × Grows planner.planned_nodes result.1.planned_nodes
  unfolding collect_inputs
  collect_inputs-HaveKeys run id nil planner result right sound e =
      subst
        (λ (r : Inputs × Planner Subject).
          HaveKeys recipes nodes id nil r.0
          × IsSound r.1
          × Grows planner.planned_nodes r.1.planned_nodes)
        (ok_inj {a = ([], planner)} e) (no_input id, sound, λ key node h. h)
  collect_inputs-HaveKeys run id (cons name value rest) planner result right sound e =
      let (child, parsed, e1) = >>=-eq-ok (parse_input_value id name value) _ e in
      let (one, ran, e2) = >>=-eq-ok (run child planner) _ e1 in
      let (others, more, e3) = >>=-eq-ok (collect_inputs recipes nodes run id rest one.1) _ e2 in
      let ((node, has, is, first, there), between, grows) = right child planner one sound ran in
      let (have, later, grow) =
        collect_inputs-HaveKeys run id rest one.1 others right between more in
      subst
        (λ (r : Inputs × Planner Subject).
          HaveKeys recipes nodes id (cons name value rest) r.0
          × IsSound r.1
          × Grows planner.planned_nodes r.1.planned_nodes)
        (ok_inj {a = ((name, one.0) ∷ others.0, others.1)} e3)
        (
          subst (λ key. HaveKeys recipes nodes id (cons name value rest) ((name, key) ∷ others.0))
              is (next_input id name value rest child node others.0 parsed has have),
          later,
          λ key n h. grow key n (grows key n h),
        )
