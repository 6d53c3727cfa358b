-- ===== src/Source/Graph.antt =====
-- bobr-source/src/graph.rs: the recipes of a request graph, as JSON values. The parsers of hashes and
-- origins and the registry of builders, with what it makes of a recipe, are fields of `Recipes`.
pub mod Planner
use bobr.Base.{
  ℕ, ◌≤◌, Bool, true, false, ◌&&◌, ◌||◌, Option, none, some, List, [], ◌∷◌, leb, ◌+◌, ◌==◌,
  if◌then◌else◌, bytes_eq, Result, ok, err, ok_or, ◌>>=◌,
}
use bobr.Base.Text.{codes}

-- `serde_json::Value`, with numbers and Booleans as one, and the `Map` of an object in the order of
-- its iteration.
mutual
  pub data Value : Type 0 where
    null scalar : Value
    string : List ℕ → Value
    array : Values → Value
    object : Fields → Value

  pub data Values : Type 0 where
    no_value : Values
    push_value : Value → Values → Values

  pub data Fields : Type 0 where
    nil : Fields
    cons : List ℕ → Value → Fields → Fields

-- `Map::remove`, with the rest of the map.
unfoldable pub remove : List ℕ → Fields → Option (Value × Fields)
remove field nil = none
remove field (cons name value rest) =
    let later = remove field rest in
    if bytes_eq name field
    then some (value, rest)
    else elim later [ none ↦ none | some (found, others) ↦ some (found, cons name value others) ]

abbrev pub as_object : Value → Option Fields
as_object (object fields) = some fields
as_object null = none
as_object scalar = none
as_object (string s) = none
as_object (array vs) = none

abbrev pub as_str : Value → Option (List ℕ)
as_str (string s) = some s
as_str null = none
as_str scalar = none
as_str (array vs) = none
as_str (object fields) = none

abbrev pub has_no_field : Fields → Bool
has_no_field nil = true
has_no_field (cons name value rest) = false

abbrev pub BuildKey : Type 0
BuildKey = List ℕ

pub data BuilderPlanError : Type 0 where
  unknown_builder recipe invalid_builder identity : BuilderPlanError

pub data GraphPlanErrorKind : Type 0 where
  request_load unknown_tag invalid_request : GraphPlanErrorKind

-- The errors by their message; `out_of_fuel` is none of the code.
pub data GraphPlanError : Type 0 where
  no_goal out_of_fuel : GraphPlanError
  duplicate_goal unknown_goal cycle unknown_node expected_request expected_inputs :
      List ℕ → GraphPlanError
  missing_field expected_string bad_input : List ℕ → List ℕ → GraphPlanError
  bad_source bad_name : List ℕ → GraphPlanError
  bad_builder : BuilderPlanError → GraphPlanError

-- `map_builder_error`.
abbrev pub map_builder_error : BuilderPlanError → GraphPlanErrorKind
map_builder_error unknown_builder = unknown_tag
map_builder_error recipe = request_load
map_builder_error invalid_builder = invalid_request
map_builder_error identity = invalid_request

-- `GraphPlanError::kind`.
unfoldable pub error_kind : GraphPlanError → GraphPlanErrorKind
error_kind no_goal = invalid_request
error_kind out_of_fuel = invalid_request
error_kind (duplicate_goal id) = invalid_request
error_kind (unknown_goal id) = invalid_request
error_kind (cycle id) = invalid_request
error_kind (unknown_node id) = invalid_request
error_kind (expected_request id) = request_load
error_kind (expected_inputs id) = request_load
error_kind (missing_field id field) = request_load
error_kind (expected_string id field) = request_load
error_kind (bad_input id name) = request_load
error_kind (bad_source id) = request_load
error_kind (bad_name id) = request_load
error_kind (bad_builder error) = map_builder_error error

-- The fields of a `SourcePlannedSubject`, without the key, which `from_object_hash` makes of the hash.
pub record SourceSubject : Type 0 where
  pub name : List ℕ
  pub object_hash : List ℕ
  pub origin : Option Value

abbrev pub from_object_hash : List ℕ → BuildKey
from_object_hash hash = hash

abbrev pub Inputs : Type 0
Inputs = List (List ℕ × BuildKey)

-- What the planner takes from elsewhere: `parse_object_hash` trims and parses a hash, `is_origin` says
-- whether an origin parses, `new_builder` is `BuilderPlannedSubject::new`.
pub record Recipes (Builder : Type 0) (Subject : Type 0) : Type 0 where
  pub parse_object_hash : List ℕ → Option (List ℕ)
  pub is_origin : Value → Bool
  pub builders : List Builder
  pub builder_tag : Builder → List ℕ
  pub new_builder : Builder → List ℕ → Value → Inputs → Result BuilderPlanError Subject
  pub subject_name : Subject → List ℕ
  pub subject_key : Subject → BuildKey

-- `take_string` of bobr-source/src/graph.rs, with the rest of the object.
unfoldable pub take_string : List ℕ → List ℕ → Fields → Result GraphPlanError (List ℕ × Fields)
take_string id field fields = ok_or (remove field fields) (missing_field id field) >>= λ taken.
    ok_or (as_str taken.0) (expected_string id field) >>= λ text. ok (text, taken.1)

-- `parse_input_value`.
unfoldable pub parse_input_value : List ℕ → List ℕ → Value → Result GraphPlanError (List ℕ)
parse_input_value id name (string child) = ok child
parse_input_value id name null = err (bad_input id name)
parse_input_value id name (array vs) = err (bad_input id name)
parse_input_value id name scalar = err (bad_input id name)
parse_input_value id name (object fields) = err (bad_input id name)

-- `eq_ignore_ascii_case`.
abbrev pub to_ascii_lowercase : ℕ → ℕ
to_ascii_lowercase b = if leb b'A' b && leb b b'Z' then b + 32 else b

unfoldable pub eq_ignore_ascii_case : List ℕ → List ℕ → Bool
eq_ignore_ascii_case [] [] = true
eq_ignore_ascii_case [] (y ∷ ys) = false
eq_ignore_ascii_case (x ∷ xs) [] = false
eq_ignore_ascii_case (x ∷ xs) (y ∷ ys) =
    (to_ascii_lowercase x == to_ascii_lowercase y) && eq_ignore_ascii_case xs ys

-- `get` of an association list.
unfoldable pub lookup : {A : Type 0} → List (List ℕ × A) → List ℕ → Option A
lookup [] id = none
lookup ((key, a) ∷ rest) id =
    let later = lookup rest id in if bytes_eq key id then some a else later

unfoldable pub contains : List (List ℕ) → List ℕ → Bool
contains [] id = false
contains (key ∷ rest) id = bytes_eq key id || contains rest id

-- `take_string` of bobr-source/src/lib.rs; the errors are one.
unfoldable pub take_source_string : List ℕ → Fields → Option (List ℕ × Fields)
take_source_string field fields = elim (remove field fields) [
  | none ↦ none
  | some (value, rest) ↦ elim (as_str value) [ none ↦ none | some text ↦ some (text, rest) ]
]

module _ {Builder Subject : Type 0} (recipes : Recipes Builder Subject) where
  -- The `find` of `parse_builder_subject`.
  unfoldable pub find_builder : List Builder → List ℕ → Option Builder
  find_builder [] tag = none
  find_builder (builder ∷ rest) tag =
      let later = find_builder rest tag in
      if eq_ignore_ascii_case (recipes.builder_tag builder) tag then some builder else later

  unfoldable pub parse_builder_subject : List ℕ → Fields → Inputs → Result BuilderPlanError Subject
  parse_builder_subject tag fields inputs = ok_or (remove (codes "name") fields) recipe >>= λ named.
      ok_or (as_str named.0) recipe >>= λ name.
      ok_or (remove (codes "config") named.1) recipe >>= λ configured.
      if has_no_field configured.1
      then (ok_or (find_builder recipes.builders tag) unknown_builder >>= λ builder.
          recipes.new_builder builder name configured.0 inputs)
      else err recipe

  abbrev pub source_of : List ℕ → List ℕ → Option (Value × Fields) → Fields → Option SourceSubject
  source_of name hash none fields =
      if has_no_field fields
      then some (record { name = name; object_hash = hash; origin = none })
      else none
  source_of name hash (some (value, rest)) fields =
      if recipes.is_origin value && has_no_field rest
      then some (record { name = name; object_hash = hash; origin = some value })
      else none

  unfoldable pub parse_source_subject : Fields → Option SourceSubject
  parse_source_subject fields = elim (take_source_string (codes "name") fields) [
    | none ↦ none
    | some (name, fields) ↦ elim (take_source_string (codes "object_hash") fields) [
      | none ↦ none
      | some (text, fields) ↦ elim (recipes.parse_object_hash text) [
        | none ↦ none
        | some hash ↦ source_of name hash (remove (codes "origin") fields) fields
      ]
    ]
  ]
