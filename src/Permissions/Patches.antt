-- ===== src/Permissions/Patches.antt =====
-- `mergedLabelsAfterPatch` key by key.
use a5e.Base.{String, ◌≡◌, refl, Option, none, some, [], ◌∷◌, arith, string_eq, ==_iff}
use a5e.Base.Dict
use a5e.Base.Dict.{Dict, lookup-insert, lookup-erase}
use a5e.Labels.{Labels, or_default}
use a5e.Permissions.{apply_patch, merged_labels_after_patch}

-- The keys of a JavaScript object are distinct.
abbrev pub DistinctKeys {ℓ} : {V : Type ℓ} → Dict String V → Type ℓ
DistinctKeys [] = Unit
DistinctKeys ((k, v) ∷ d) = (Dict.lookup k d ≡ none) × DistinctKeys d

-- A merge patch of one field: absent leaves the value, `null` deletes it, a string sets it.
abbrev pub patched : Option (Option String) → Option String → Option String
patched none current = current
patched (some value) current = value

apply_patch-absent :
    (k : String) (m : Labels) (p : Dict String (Option String))
    → Dict.lookup k p ≡ none
    → Dict.lookup k (apply_patch m p) ≡ Dict.lookup k m
unfolding apply_patch Dict.lookup
apply_patch-absent k m [] h = refl
apply_patch-absent k m ((j, none) ∷ p) h =
    ground (arith, apply_patch-absent k (Dict.erase j m) p, lookup-erase j k m)
apply_patch-absent k m ((j, some v) ∷ p) h =
    ground (arith, apply_patch-absent k (Dict.insert j v m) p, lookup-insert j k v m)

apply_patch-lookup :
    (k : String) (m : Labels) (p : Dict String (Option String))
    → DistinctKeys p
    → Dict.lookup k (apply_patch m p) ≡ patched (Dict.lookup k p) (Dict.lookup k m)
unfolding apply_patch Dict.lookup
apply_patch-lookup k m [] h = refl
apply_patch-lookup k m ((j, none) ∷ p) (fresh, h) = ground (
  arith,
  apply_patch-lookup k (Dict.erase j m) p h,
  lookup-erase j k m,
  ==_iff j k,
  apply_patch-absent j (Dict.erase j m) p fresh,
)
apply_patch-lookup k m ((j, some v) ∷ p) (fresh, h) = ground (
  arith,
  apply_patch-lookup k (Dict.insert j v m) p h,
  lookup-insert j k v m,
  ==_iff j k,
  apply_patch-absent j (Dict.insert j v m) p fresh,
)

-- The labels that a merge patch leaves, at every key: a key that the patch does not name keeps its
-- value, a `null` deletes it, a string sets it; a patch with no labels changes nothing. The keys of
-- the patch are distinct, as those of a parsed JSON object are.
pub lookup-merged_labels_after_patch :
    (k : String) (current : Option Labels) (patch_labels : Option (Dict String (Option String)))
    → DistinctKeys (or_default [] patch_labels)
    → Dict.lookup k (or_default [] (merged_labels_after_patch current patch_labels))
      ≡ patched (Dict.lookup k (or_default [] patch_labels)) (Dict.lookup k (or_default [] current))
unfolding merged_labels_after_patch Dict.lookup
lookup-merged_labels_after_patch k current none h = refl
lookup-merged_labels_after_patch k current (some p) h =
    apply_patch-lookup k (or_default [] current) p h
