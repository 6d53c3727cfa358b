-- ===== src/Source/Graph/Planner/Tests.antt =====
-- Tests of the planner: a builder with one input, which a source makes.
use bobr.Base.{
  ℕ, ◌≡◌, ◌≢◌, refl, true, none, some, List, [], ◌∷◌, ◌++◌, bytes_eq, ok, err, ◌⊎◌, suc, length,
  ◌>>=◌,
}
use bobr.Base.Text.{codes}
use bobr.Store.RefName.{validate_ref_name, validate_ref_name-IsFileName, IsFileName}
use bobr.Source.Graph.{
  GraphPlanError, Value, nil, cons, remove, take_string, take_source_string, parse_source_subject,
  parse_builder_subject, find_builder, eq_ignore_ascii_case, parse_input_value, lookup, contains,
  Inputs, Recipes, out_of_fuel, cycle, error_kind, invalid_request,
}
use bobr.Source.Graph.Planner.{
  PlannedNode, PlannedGraph, plan_graph, check_goals, collect_goals, collect, collect_new,
  plan_node, plan_source, plan_builder, collect_inputs, finish, remove_id, empty_planner,
}
use bobr.Source.Graph.Planner.Goals.{AreDistinct, AreKnown, Explains, plan_graph-check_goals}
use bobr.Source.Graph.Planner.Fuel.{plan_graph_total}
use bobr.Source.Graph.Planner.Meaning.{AreNodes}
use bobr.Source.Graph.Planner.Sound.{AreGoals, plan_graph_sound}

-- A builder is its tag, a subject its name and inputs.
abbrev recipes : Recipes (List ℕ) (List ℕ × Inputs)
recipes = record {
  parse_object_hash = λ text. some text;
  is_origin = λ origin. true;
  builders = codes "Unpack" ∷ [];
  builder_tag = λ builder. builder;
  new_builder = λ builder name config inputs. ok (name, inputs);
  subject_name = λ subject. subject.0;
  subject_key = λ subject. 1 ∷ (subject.0 ++ codes "#");
}

abbrev source_node : Value
source_node = Value.object (
    cons (codes "name") (Value.string (codes "src.tar")) (
      cons (codes "object_hash") (Value.string (codes "h"))
        (cons (codes "tag") (Value.string (codes "Source")) nil)))

abbrev builder_node : List ℕ → Value
builder_node input = Value.object (
    cons (codes "config") Value.null (
      cons (codes "inputs") (Value.object (cons (codes "src") (Value.string input) nil)) (
        cons (codes "name") (Value.string (codes "out"))
          (cons (codes "tag") (Value.string (codes "unpack")) nil))))

abbrev nodes : List (List ℕ × Value)
nodes = (codes "a", builder_node (codes "b")) ∷ (codes "b", source_node) ∷ []

abbrev goals : List (List ℕ)
goals = codes "a" ∷ codes "b" ∷ []

abbrev graph : PlannedGraph (List ℕ × Inputs)
graph = record {
  goals = (1 ∷ codes "out#") ∷ codes "h" ∷ [];
  nodes =
      (1 ∷ codes "out#", PlannedNode.builder (codes "out", (codes "src", codes "h") ∷ []))
      ∷ (
        codes "h",
        PlannedNode.source
            (record { name = codes "src.tar"; object_hash = codes "h"; origin = none }),
      )
      ∷ [];
}

planned : plan_graph recipes nodes goals ≡ ok graph
unfolding plan_graph check_goals collect_goals collect collect_new plan_node plan_source
    plan_builder collect_inputs finish remove_id remove take_string take_source_string
    parse_source_subject parse_builder_subject find_builder eq_ignore_ascii_case parse_input_value
    lookup contains validate_ref_name bytes_eq
planned = refl

-- A node that is its own input.
cyclic :
    plan_graph recipes ((codes "a", builder_node (codes "a")) ∷ []) (codes "a" ∷ [])
    ≡ err (cycle (codes "a"))
unfolding plan_graph check_goals collect_goals collect collect_new plan_node plan_source
    plan_builder collect_inputs finish remove_id remove take_string take_source_string
    parse_source_subject parse_builder_subject find_builder eq_ignore_ascii_case parse_input_value
    lookup contains validate_ref_name bytes_eq
cyclic = refl

plan_graph_total_example : plan_graph recipes nodes goals ≢ err out_of_fuel
plan_graph_total_example = plan_graph_total recipes nodes goals

plan_graph_sound_example :
    AreGoals recipes nodes graph.nodes goals graph.goals × AreNodes recipes nodes graph.nodes
plan_graph_sound_example = plan_graph_sound recipes nodes goals graph planned

valid_name : validate_ref_name (codes "src.tar") ≡ ok tt
unfolding validate_ref_name bytes_eq
valid_name = refl

validate_ref_name-IsFileName_example : IsFileName (codes "src.tar")
validate_ref_name-IsFileName_example = validate_ref_name-IsFileName (codes "src.tar") valid_name

plan_graph-check_goals_example :
    ((goals ≢ [])
      × AreDistinct goals
      × AreKnown recipes nodes goals
      × (plan_graph recipes nodes goals ≡ (
          collect_goals recipes nodes (suc (length nodes)) goals (empty_planner recipes nodes)
          >>= λ planned. ok (record { goals = planned.0; nodes = planned.1.planned_nodes }))))
    ⊎ ((e : GraphPlanError) × (plan_graph recipes nodes goals ≡ err e)
        × Explains recipes nodes [] goals e
        × (error_kind e ≡ invalid_request))
plan_graph-check_goals_example = plan_graph-check_goals recipes nodes goals
