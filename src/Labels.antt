-- ===== src/Labels.antt =====
-- packages/k8s-client/src/label-selector.ts: label selectors, their evaluation in memory and the
-- query string that is sent to the Kubernetes API. `Record<string, string>` is a dictionary in
-- insertion order; an absent optional array or object is `none`.
pub mod Matching
use a5e.Base.{
  String, ◌<>◌, Bool, true, false, ◌&&◌, Option, none, some, List, [], ◌∷◌, ◌++◌, map, ◌==◌,
  string_eq, option_eq, if◌then◌else◌, not,
}
use a5e.Base.Dict
use a5e.Base.Dict.{Dict}

pub data Operator : Type 0 where
  in_values not_in exists does_not_exist : Operator

pub record Requirement : Type 0 where
  pub key : String
  pub operator : Operator
  pub values : Option (List String)

pub record LabelSelector : Type 0 where
  pub match_labels : Option (Dict String String)
  pub match_expressions : Option (List Requirement)

abbrev pub Labels : Type 0
Labels = Dict String String

-- `x ?? fallback`
abbrev pub or_default {ℓ} : {A : Type ℓ} → A → Option A → A
or_default d none = d
or_default d (some a) = a

-- `xs.includes(x)`
unfoldable pub includes : List String → String → Bool
includes [] x = false
includes (y ∷ ys) x = if y == x then true else includes ys x

-- The loop over `matchLabels`.
labels_match : Labels → List (String × String) → Bool
labels_match l [] = true
labels_match l ((key, value) ∷ rest) =
    if not (Dict.lookup key l == some value) then false else labels_match l rest

-- One round of the loop over `matchExpressions`: `false` is the early return.
requirement_matches : Option String → Operator → List String → Bool
requirement_matches none in_values values = false
requirement_matches (some value) in_values values = includes values value
requirement_matches none not_in values = true
requirement_matches (some value) not_in values = not (includes values value)
requirement_matches none exists values = false
requirement_matches (some value) exists values = true
requirement_matches none does_not_exist values = true
requirement_matches (some value) does_not_exist values = false

expressions_match : Labels → List Requirement → Bool
expressions_match l [] = true
expressions_match l (expr ∷ rest) =
    if not (requirement_matches (Dict.lookup expr.key l) expr.operator (or_default [] expr.values))
    then false
    else expressions_match l rest

-- `labelSelectorMatches`
unfoldable pub label_selector_matches : Option LabelSelector → Option Labels → Bool
unfolding labels_match requirement_matches expressions_match includes Dict.lookup
label_selector_matches none labels = true
label_selector_matches (some selector) labels =
    let l = or_default [] labels in
    if not (labels_match l (or_default [] selector.match_labels))
    then false
    else expressions_match l (or_default [] selector.match_expressions)

-- `parts.join(separator)`
unfoldable pub join : String → List String → String
join separator [] = ""
join separator (part ∷ []) = part
join separator (part ∷ next ∷ parts) = part <> (separator <> join separator (next ∷ parts))

label_part : String × String → String
label_part (key, value) = key <> ("=" <> value)

expression_part : String → Operator → List String → String
unfolding join
expression_part key in_values values = key <> (" in (" <> (join "," values <> ")"))
expression_part key not_in values = key <> (" notin (" <> (join "," values <> ")"))
expression_part key exists values = key
expression_part key does_not_exist values = "!" <> key

selector_parts : LabelSelector → List String
unfolding label_part expression_part
selector_parts selector =
    map label_part (or_default [] selector.match_labels)
    ++ map (λ expr. expression_part expr.key expr.operator (or_default [] expr.values))
        (or_default [] selector.match_expressions)

join_parts : List String → Option String
unfolding join
join_parts [] = none
join_parts (part ∷ parts) = some (join "," (part ∷ parts))

-- `labelSelectorToString`
unfoldable pub label_selector_to_string : Option LabelSelector → Option String
unfolding join_parts selector_parts
label_selector_to_string none = none
label_selector_to_string (some selector) = join_parts (selector_parts selector)
