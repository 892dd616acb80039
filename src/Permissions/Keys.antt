-- ===== src/Permissions/Keys.antt =====
-- `dedupeEntries`: the keys of entries of plain names, and the entries that are dropped by them.
use mathlib.Core.Option.{some-injective}
use a5e.Base.{
  String, ◌≡◌, ◌≢◌, refl, sym, ap, ◌∙◌, Bool, true, false, ◌||◌, Option, none, some, List, [], ◌∷◌,
  arith, ◌==◌, string_eq, ==_iff, some_of, All, Bool-cases, inl, inr, ◌++◌, All-append,
}
use a5e.Base.Text.{Lacks, split_at_mark}
use a5e.Base.Dict
use a5e.Base.Dict.{Dict}
use a5e.Labels.{or_default}
use a5e.Permissions.{ListPlanEntry, entry_key, dedupe_from, dict_values, dedupe_entries}

-- A namespace of an entry, or none, that the key keeps apart from every other.
abbrev pub IsPlainName : Option String → Type 0
IsPlainName none = Unit
IsPlainName (some n) = (n ≢ "") × Lacks "|" n

pub record IsPlain (e : ListPlanEntry) : Type 0 where
  pub named : IsPlainName e.namespace
  pub selecting : e.label_selector ≢ some ""

default-Lacks : (o : Option String) → IsPlainName o → Lacks "|" (or_default "" o)
default-Lacks none h = tt
default-Lacks (some n) (_, h) = h

name-ne : (o : Option String) → IsPlainName o → o ≢ some ""
name-ne none h = λ e. cc
name-ne (some n) (h, _) = λ e. h (some-injective n "" e)

default-injective :
    (x y : Option String) → x ≢ some "" → y ≢ some "" → or_default "" x ≡ or_default "" y → x ≡ y
default-injective none none h k e = refl
default-injective none (some b) h k e = absurd (k (ap some (sym e)))
default-injective (some a) none h k e = absurd (h (ap some e))
default-injective (some a) (some b) h k e = ap some e

entry_key-injective :
    (a b : ListPlanEntry) → IsPlain a → IsPlain b → entry_key a ≡ entry_key b → a ≡ b
unfolding entry_key
entry_key-injective a b p q e =
    let (n, s) =
      split_at_mark "|" _ _ _ _ (default-Lacks a.namespace p.named)
        (default-Lacks b.namespace q.named) e in
    λ i. record {
      namespace =
          default-injective a.namespace b.namespace (name-ne _ p.named) (name-ne _ q.named) n i;
      label_selector = default-injective _ _ p.selecting q.selecting s i;
    }

-- The entries of a dictionary stand under their own keys.
abbrev IsKeyed : String × ListPlanEntry → Type 0
IsKeyed (k, e) = (k ≡ entry_key e) × IsPlain e

insert-absent :
    (k : String) (e : ListPlanEntry) (d : Dict String ListPlanEntry)
    → Dict.has k d ≡ false
    → Dict.insert k e d ≡ d ++ ((k, e) ∷ [])
unfolding Dict.has Dict.insert
insert-absent k e [] h = refl
insert-absent k e ((j, f) ∷ d) h = ground (arith, insert-absent k e d)

module _ (P : ListPlanEntry → Bool) where
  some_of-snoc :
      (d : Dict String ListPlanEntry) (k : String) (e : ListPlanEntry)
      → some_of P (dict_values (d ++ ((k, e) ∷ []))) ≡ (some_of P (dict_values d) || P e)
  unfolding dict_values
  some_of-snoc [] k e = ground arith
  some_of-snoc (x ∷ d) k e = ground (arith, some_of-snoc d k e)

  -- An entry whose key was seen adds nothing.
  has-covered :
      (e : ListPlanEntry) (d : Dict String ListPlanEntry)
      → IsPlain e
      → All IsKeyed d
      → Dict.has (entry_key e) d ≡ true
      → P e ≡ true
      → some_of P (dict_values d) ≡ true
  unfolding Dict.has dict_values
  has-covered e [] p k h t = cc
  has-covered e ((j, f) ∷ d) p ((own, q), k) h t = elim (Bool-cases (j == entry_key e)) [
    | inl same ↦
        let eq : f ≡ e = entry_key-injective f e q p (sym own ∙ (==_iff j (entry_key e)).0 same) in
        rw (eq, t)
    | inr differ ↦ ground (arith, has-covered e d p k)
  ]

  dedupe_from-covers :
      (d : Dict String ListPlanEntry) (es : List ListPlanEntry)
      → All IsKeyed d
      → All IsPlain es
      → some_of P (dict_values (dedupe_from d es)) ≡ (some_of P (dict_values d) || some_of P es)
  unfolding dedupe_from
  dedupe_from-covers d [] k p = ground arith
  dedupe_from-covers d (e ∷ es) k (p, ps) = elim (Bool-cases (Dict.has (entry_key e) d)) [
    | inl seen ↦
        rw seen (rw (dedupe_from-covers d es k ps) (ground (arith, has-covered e d p k seen)))
    | inr fresh ↦
        let d' = d ++ ((entry_key e, e) ∷ []) in
        rw fresh (
          rw (insert-absent (entry_key e) e d fresh) (
            rw (dedupe_from-covers d' es (All-append IsKeyed d _ k ((refl, p), tt)) ps)
              (ground (arith, some_of-snoc d (entry_key e) e))))
  ]

  -- De-duplicating plain entries changes no answer to whether some entry passes a test.
  pub some_of-dedupe_entries :
      (es : List ListPlanEntry) → All IsPlain es → some_of P (dedupe_entries es) ≡ some_of P es
  unfolding dedupe_entries
  some_of-dedupe_entries es p = dedupe_from-covers [] es tt p
