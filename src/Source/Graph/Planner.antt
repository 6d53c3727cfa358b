-- ===== src/Source/Graph/Planner.antt =====
-- `plan_graph` and `Planner::collect` of bobr-source/src/graph.rs. The recursion is on fuel: one more
-- than the number of the request's nodes is enough, since the nodes on the path are different.
pub mod Visits
pub mod Fuel
pub mod Meaning
pub mod Made
pub mod Sound
pub mod Goals
mod Tests
use bobr.Base.{
  ℕ, zero, suc, Bool, true, false, ◌||◌, Option, none, some, List, [], ◌∷◌, if◌then◌else◌, bytes_eq,
  length, Result, ok, err, ok_or, ◌>>=◌,
}
use bobr.Base.Text.{codes}
use bobr.Store.RefName.{RefNameError, validate_ref_name}
use bobr.Source.Graph.{
  Value, Fields, nil, cons, remove, as_object, BuildKey, BuilderPlanError, GraphPlanError, no_goal,
  out_of_fuel, duplicate_goal, unknown_goal, cycle, unknown_node, expected_request, expected_inputs,
  missing_field, bad_source, bad_name, bad_builder, SourceSubject, from_object_hash, Inputs,
  Recipes, take_string, parse_input_value, lookup, contains, parse_builder_subject,
  parse_source_subject,
}

pub data PlannedNode (Subject : Type 0) : Type 0 where
  source : SourceSubject → PlannedNode Subject
  builder : Subject → PlannedNode Subject

-- The state of a `Planner`, without the request; `visited_in_path` with the last node first.
pub record Planner (Subject : Type 0) : Type 0 where
  pub planned_nodes : List (BuildKey × PlannedNode Subject)
  pub node_keys : List (List ℕ × BuildKey)
  pub visited_in_path : List (List ℕ)

pub record PlannedGraph (Subject : Type 0) : Type 0 where
  pub goals : List BuildKey
  pub nodes : List (BuildKey × PlannedNode Subject)

-- An error of another kind.
abbrev pub map_err : {E F A : Type 0} → (E → F) → Result E A → Result F A
map_err f (ok a) = ok a
map_err f (err e) = err (f e)

-- `BTreeSet::remove`.
unfoldable pub remove_id : List ℕ → List (List ℕ) → List (List ℕ)
remove_id id [] = []
remove_id id (v ∷ vs) = let rest = remove_id id vs in if bytes_eq v id then vs else v ∷ rest

module _ {Builder Subject : Type 0} (recipes : Recipes Builder Subject)
    (nodes : List (List ℕ × Value)) where
  -- `PlannedNode::name` and `PlannedNode::build_key`.
  abbrev pub node_name : PlannedNode Subject → List ℕ
  node_name (source subject) = subject.name
  node_name (builder subject) = recipes.subject_name subject

  abbrev pub build_key : PlannedNode Subject → BuildKey
  build_key (source subject) = from_object_hash subject.object_hash
  build_key (builder subject) = recipes.subject_key subject

  abbrev pub Collect : Type 0
  Collect = List ℕ → Planner Subject → Result GraphPlanError (BuildKey × Planner Subject)

  -- The loop over the inputs.
  unfoldable pub collect_inputs :
      Collect → List ℕ → Fields → Planner Subject → Result GraphPlanError (Inputs × Planner Subject)
  collect_inputs collect id nil planner = ok ([], planner)
  collect_inputs collect id (cons name value rest) planner =
      parse_input_value id name value >>= λ child. collect child planner >>= λ one.
      collect_inputs collect id rest one.1 >>= λ others. ok ((name, one.0) ∷ others.0, others.1)

  unfoldable pub plan_builder :
      Collect
      → List ℕ
      → List ℕ
      → Fields
      → Planner Subject
      → Result GraphPlanError (PlannedNode Subject × Planner Subject)
  plan_builder collect id tag fields planner =
      ok_or (remove (codes "inputs") fields) (missing_field id (codes "inputs")) >>= λ taken.
      ok_or (as_object taken.0) (expected_inputs id) >>= λ inputs_object.
      collect_inputs collect id inputs_object planner >>= λ inputs.
      map_err bad_builder (parse_builder_subject recipes tag taken.1 inputs.0) >>= λ subject.
      ok (builder subject, inputs.1)

  unfoldable pub plan_source :
      List ℕ
      → Fields
      → Planner Subject
      → Result GraphPlanError (PlannedNode Subject × Planner Subject)
  plan_source id fields planner =
      ok_or (parse_source_subject recipes fields) (bad_source id) >>= λ subject.
      ok (source subject, planner)

  unfoldable pub plan_node :
      Collect
      → List ℕ
      → Value
      → Planner Subject
      → Result GraphPlanError (PlannedNode Subject × Planner Subject)
  plan_node collect id value planner = ok_or (as_object value) (expected_request id) >>= λ fields.
      take_string id (codes "tag") fields >>= λ tagged.
      if bytes_eq tagged.0 (codes "Source")
      then plan_source id tagged.1 planner
      else plan_builder collect id tagged.0 tagged.1 planner

  -- `entry(key).or_insert_with`.
  abbrev pub or_insert :
      BuildKey
      → PlannedNode Subject
      → List (BuildKey × PlannedNode Subject)
      → List (BuildKey × PlannedNode Subject)
  or_insert key node planned = elim (lookup planned key) [
    | none ↦ (key, node) ∷ planned
    | some first ↦ planned
  ]

  -- The end of `collect`.
  unfoldable pub finish :
      List ℕ
      → PlannedNode Subject
      → Planner Subject
      → Result GraphPlanError (BuildKey × Planner Subject)
  finish id node planner =
      map_err (λ (e : RefNameError). bad_name id) (validate_ref_name (node_name node)) >>= λ valid.
      ok (
        build_key node,
        record {
          planned_nodes = or_insert (build_key node) node planner.planned_nodes;
          node_keys = (id, build_key node) ∷ planner.node_keys;
          visited_in_path = remove_id id planner.visited_in_path;
        },
      )

  abbrev pub visit : List ℕ → Planner Subject → Planner Subject
  visit id planner = record {
    planned_nodes = planner.planned_nodes;
    node_keys = planner.node_keys;
    visited_in_path = id ∷ planner.visited_in_path;
  }

  -- `collect` of a node that has no key yet.
  unfoldable pub collect_new :
      Collect → List ℕ → Planner Subject → Result GraphPlanError (BuildKey × Planner Subject)
  collect_new collect id planner =
      if contains planner.visited_in_path id
      then err (cycle id)
      else (ok_or (lookup nodes id) (unknown_node id) >>= λ value.
          plan_node collect id value (visit id planner) >>= λ planned.
          finish id planned.0 planned.1)

  abbrev known_or :
      {A : Type 0}
      → Option BuildKey
      → Planner Subject
      → Result A (BuildKey × Planner Subject)
      → Result A (BuildKey × Planner Subject)
  known_or none planner more = more
  known_or (some key) planner more = ok (key, planner)

  unfoldable pub collect : ℕ → Collect
  collect zero id planner = err out_of_fuel
  collect (suc fuel) id planner =
      known_or (lookup planner.node_keys id) planner (collect_new (collect fuel) id planner)

  unfoldable pub collect_goals :
      ℕ → List (List ℕ) → Planner Subject → Result GraphPlanError (List BuildKey × Planner Subject)
  collect_goals fuel [] planner = ok ([], planner)
  collect_goals fuel (goal ∷ goals) planner = collect fuel goal planner >>= λ one.
      collect_goals fuel goals one.1 >>= λ others. ok (one.0 ∷ others.0, others.1)

  -- The loop that checks the goals, with the goals seen.
  unfoldable pub check_goals : List (List ℕ) → List (List ℕ) → Result GraphPlanError (Unit {0})
  check_goals seen [] = ok tt
  check_goals seen (goal ∷ goals) =
      if contains seen goal then err (duplicate_goal goal) else elim (lookup nodes goal) [
        | none ↦ err (unknown_goal goal)
        | some value ↦ check_goals (goal ∷ seen) goals
      ]

  abbrev pub empty_planner : Planner Subject
  empty_planner = record { planned_nodes = []; node_keys = []; visited_in_path = [] }

  abbrev pub has_no_goal : List (List ℕ) → Bool
  has_no_goal [] = true
  has_no_goal (goal ∷ goals) = false

  unfoldable pub plan_graph : List (List ℕ) → Result GraphPlanError (PlannedGraph Subject)
  plan_graph goals =
      if has_no_goal goals
      then err no_goal
      else (check_goals [] goals >>= λ checked.
          collect_goals (suc (length nodes)) goals empty_planner >>= λ planned.
          ok (record { goals = planned.0; nodes = planned.1.planned_nodes }))
