-- ===== src/Labels/Matching.antt =====
-- `labelSelectorMatches` against the meaning of a selector, requirement by requirement.
use a5e.Base.{
  String, ◌≡◌, ◌≢◌, ◌↔◌, refl, true, Option, none, some, List, [], ◌∷◌, arith, ◌==◌, string_eq,
  option_eq, ==_iff, In, sym, Memᴰ, Bool-cases, inl, inr, subst,
}
use mathlib.Core.Option.{some-injective}
use a5e.Base.Dict
use a5e.Labels.{
  Operator, in_values, not_in, exists, does_not_exist, Requirement, LabelSelector, Labels,
  or_default, includes, labels_match, requirement_matches, expressions_match,
  label_selector_matches,
}

pub includes-In : (xs : List String) (x : String) → includes xs x ≡ true → In x xs
unfolding includes
includes-In [] x h = cc
includes-In (y ∷ ys) x h = elim (Bool-cases (y == x)) [
  | inl same ↦ Memᴰ.head (sym ((==_iff y x).0 same))
  | inr differ ↦ Memᴰ.tail (includes-In ys x (ground arith))
]

pub In-includes : (xs : List String) (x : String) → In x xs → includes xs x ≡ true
unfolding includes
In-includes [] x m = elim m [ ]
In-includes (y ∷ ys) x (Memᴰ.head e) = ground (arith, ==_iff y x)
In-includes (y ∷ ys) x (Memᴰ.tail m) = ground (arith, In-includes ys x m)

-- What a requirement asks of the labels, as the Kubernetes API documents the four operators.
abbrev pub Asks : Option String → Operator → List String → Type 0
Asks found in_values values = (v : String) × (found ≡ some v) × In v values
Asks found not_in values = (v : String) → found ≡ some v → ¬ In v values
Asks found exists values = found ≢ none
Asks found does_not_exist values = found ≡ none

-- An object's labels satisfy a selector: every pair is present and every requirement holds.
pub record Satisfies (selector : LabelSelector) (l : Labels) : Type 0 where
  pub pairs :
      (k v : String) → In (k, v) (or_default [] selector.match_labels) → Dict.lookup k l ≡ some v
  pub requirements :
      (r : Requirement)
      → In r (or_default [] selector.match_expressions)
      → Asks (Dict.lookup r.key l) r.operator (or_default [] r.values)

requirement_matches-Asks :
    (found : Option String) (o : Operator) (values : List String)
    → (requirement_matches found o values ≡ true) ↔ Asks found o values
unfolding requirement_matches
requirement_matches-Asks none in_values values = (λ h. cc, λ (v, e, m). cc)
requirement_matches-Asks (some value) in_values values = (
  λ h. (value, refl, includes-In values value h),
  λ (v, e, m). rw (some-injective _ _ e) (In-includes values v m),
)
requirement_matches-Asks none not_in values = (λ h v e. cc, λ a. refl)
requirement_matches-Asks (some value) not_in values = (
  λ h v e m. ground (arith, In-includes values v m),
  λ a. elim (Bool-cases (includes values value)) [
    | inl present ↦ absurd (a value refl (includes-In values value present))
    | inr missing ↦ rw missing
  ],
)
requirement_matches-Asks none exists values = (λ h. cc, λ a. absurd (a refl))
requirement_matches-Asks (some value) exists values = (λ h e. cc, λ a. refl)
requirement_matches-Asks none does_not_exist values = (λ h. refl, λ a. refl)
requirement_matches-Asks (some value) does_not_exist values = (λ h. cc, λ a. cc)

module _ (l : Labels) where
  labels_match_sound :
      (pairs : List (String × String))
      → labels_match l pairs ≡ true
      → (k v : String) → In (k, v) pairs
      → Dict.lookup k l ≡ some v
  unfolding labels_match
  labels_match_sound [] h k v m = elim m [ ]
  labels_match_sound ((key, value) ∷ rest) h k v (Memᴰ.head e) =
      ground (arith, ==_iff (Dict.lookup key l) (some value))
  labels_match_sound ((key, value) ∷ rest) h k v (Memᴰ.tail m) =
      labels_match_sound rest (ground arith) k v m

  labels_match_complete :
      (pairs : List (String × String))
      → ((k v : String) → In (k, v) pairs → Dict.lookup k l ≡ some v)
      → labels_match l pairs ≡ true
  unfolding labels_match
  labels_match_complete [] a = refl
  labels_match_complete ((key, value) ∷ rest) a = ground (
    arith,
    ==_iff (Dict.lookup key l) (some value),
    a key value (Memᴰ.head refl),
    labels_match_complete rest (λ k v m. a k v (Memᴰ.tail m)),
  )

  abbrev Met : Requirement → Type 0
  Met r = Asks (Dict.lookup r.key l) r.operator (or_default [] r.values)

  expressions_match_sound :
      (exprs : List Requirement)
      → expressions_match l exprs ≡ true
      → (r : Requirement) → In r exprs
      → Met r
  unfolding expressions_match
  expressions_match_sound [] h r m = elim m [ ]
  expressions_match_sound (x ∷ rest) h r (Memᴰ.head e) =
      subst Met (sym e) ((requirement_matches-Asks _ _ _).0 (ground arith))
  expressions_match_sound (x ∷ rest) h r (Memᴰ.tail m) =
      expressions_match_sound rest (ground arith) r m

  expressions_match_complete :
      (exprs : List Requirement)
      → ((r : Requirement) → In r exprs → Met r)
      → expressions_match l exprs ≡ true
  unfolding expressions_match
  expressions_match_complete [] a = refl
  expressions_match_complete (x ∷ rest) a =
      let now = (requirement_matches-Asks _ _ _).1 (a x (Memᴰ.head refl)) in
      let later = expressions_match_complete rest (λ r m. a r (Memᴰ.tail m)) in rw (now, later)

-- The loops with early returns decide exactly the documented meaning of a selector: every pair of
-- `matchLabels` is present, and every requirement of `matchExpressions` holds; absent labels count
-- as none.
pub label_selector_matches-Satisfies :
    (selector : LabelSelector) (labels : Option Labels)
    → (label_selector_matches (some selector) labels ≡ true)
      ↔ Satisfies selector (or_default [] labels)
unfolding label_selector_matches
label_selector_matches-Satisfies selector labels = (
  λ h. record {
    pairs = labels_match_sound l pairs (ground arith);
    requirements = expressions_match_sound l exprs (ground arith);
  },
  λ s.
      rw (labels_match_complete l pairs s.pairs)
        (expressions_match_complete l exprs s.requirements),
)
  where
    l : Labels
    l = or_default [] labels

    pairs : List (String × String)
    pairs = or_default [] selector.match_labels

    exprs : List Requirement
    exprs = or_default [] selector.match_expressions
