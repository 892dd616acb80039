-- ===== src/Users/Text/Appends.antt =====
-- The operations on strings at a text with something after it.
use Prim.Native.Char.{Char, char, code}
use Prim.Native.String.{String, [], ◌∷◌}
use text.Mathlib.TextLemmas.{nil-append, cons-append}
use a5e.Base.{
  ◌+◌, ◌≡◌, refl, sym, ap, ◌∙◌, Bool, true, false, not, ◌==◌, nat_eq, if◌then◌else◌, ◌<>◌,
  Bool-cases, inl, inr,
}
use a5e.Users.Text.{
  lower, to_lower_case, replace_runs, trim_start, trim_end, cons_unless, between, ascii, dash,
}

-- Over the code points, so that the character's own number stays apart.
lower-append : (c : Char) (s t : String) → lower c s <> t ≡ lower c (s <> t)
unfolding lower
lower-append c s t = by_tests (between b'A' b'Z' c) (code c == 0x212A) (code c == 0x0130)
  where
    by_tests :
        (a k i : Bool)
        → (if a
              then ascii (code c + 32) ∷ s
              else if k
              then "k" ∷ s
              else if i
              then "i" ∷ char 0x0307 tt ∷ s
              else c ∷ s)
            <> t
          ≡ (if a
              then ascii (code c + 32) ∷ (s <> t)
              else if k
              then "k" ∷ (s <> t)
              else if i
              then "i" ∷ char 0x0307 tt ∷ (s <> t)
              else c ∷ (s <> t))
    by_tests true k i = cons-append _ s t
    by_tests false true i = cons-append _ s t
    by_tests false false true =
        cons-append _ (char 0x0307 tt ∷ s) t ∙ ap (◌∷◌ "i") (cons-append _ s t)
    by_tests false false false = cons-append _ s t

pub to_lower_case-append :
    (s t : String) → to_lower_case (s <> t) ≡ to_lower_case s <> to_lower_case t
unfolding to_lower_case
to_lower_case-append [] t = rw (nil-append t, nil-append (to_lower_case t))
to_lower_case-append (c ∷ s) t = rw (cons-append c s t) (
    ap (lower c) (to_lower_case-append s t)
    ∙ sym (lower-append c (to_lower_case s) (to_lower_case t)))

opened-append :
    (k b : Bool) (c : Char) (s t : String)
    → (if k then c ∷ s else if b then s else dash ∷ s) <> t
      ≡ (if k then c ∷ (s <> t) else if b then s <> t else dash ∷ (s <> t))
opened-append true b c s t = cons-append c s t
opened-append false true c s t = refl
opened-append false false c s t = cons-append dash s t

module _ (kept : Char → Bool) where
  -- The round at one character, with the rest put after.
  round-append :
      (in_run : Bool) (c : Char) (s t u : String)
      → replace_runs kept (not (kept c)) (s <> t) ≡ replace_runs kept (not (kept c)) s <> u
      → replace_runs kept in_run ((c ∷ s) <> t) ≡ replace_runs kept in_run (c ∷ s) <> u
  unfolding replace_runs
  round-append in_run c s t u e =
      ap (replace_runs kept in_run) (cons-append c s t)
      ∙ (ap (λ r. if kept c then c ∷ r else if in_run then r else dash ∷ r) e
          ∙ sym (opened-append (kept c) in_run c (replace_runs kept (not (kept c)) s) u))

  -- What stands after a text changes only by what was read before it.
  pub replace_runs-append :
      (in_run : Bool) (s t : String)
      → (rest : String) × (replace_runs kept in_run (s <> t) ≡ replace_runs kept in_run s <> rest)
  unfolding replace_runs
  replace_runs-append in_run [] t =
      (replace_runs kept in_run t, rw (nil-append t, nil-append (replace_runs kept in_run t)))
  replace_runs-append in_run (c ∷ s) t =
      let (rest, e) = replace_runs-append (not (kept c)) s t in
      (rest, round-append in_run c s t rest e)

  kept_first :
      (in_run : Bool) (c : Char) (t : String)
      → kept c ≡ true
      → replace_runs kept in_run (c ∷ t) ≡ c ∷ replace_runs kept false t
  unfolding replace_runs
  kept_first in_run c t k = rw k

  -- A text that begins with a character of the set.
  pub replace_runs-append_kept :
      (in_run : Bool) (s : String) (c : Char) (t : String)
      → kept c ≡ true
      → replace_runs kept in_run (s <> (c ∷ t))
        ≡ replace_runs kept in_run s <> (c ∷ replace_runs kept false t)
  unfolding replace_runs
  replace_runs-append_kept in_run [] c t k =
      rw (nil-append (c ∷ t), nil-append (c ∷ replace_runs kept false t)) (kept_first in_run c t k)
  replace_runs-append_kept in_run (d ∷ s) c t k =
      round-append in_run d s (c ∷ t) _ (replace_runs-append_kept (not (kept d)) s c t k)

  abbrev pub AllKept : String → Type 0
  AllKept [] = Unit
  AllKept (c ∷ s) = (kept c ≡ true) × AllKept s

  pub replace_runs-AllKept : (s : String) → AllKept s → replace_runs kept false s ≡ s
  unfolding replace_runs
  replace_runs-AllKept [] h = refl
  replace_runs-AllKept (c ∷ s) (k, h) =
      kept_first false c s k ∙ ap (◌∷◌ c) (replace_runs-AllKept s h)

module _ (out : Char → Bool) where
  pub trim_start-append_some :
      (s t : String) (c : Char) (u : String)
      → trim_start out s ≡ c ∷ u
      → trim_start out (s <> t) ≡ (c ∷ u) <> t
  unfolding trim_start
  trim_start-append_some [] t c u e = cc
  trim_start-append_some (d ∷ s) t c u e = elim (Bool-cases (out d)) [
    | inl y ↦ rw (cons-append d s t, y) (trim_start-append_some s t c u (rw y at e))
    | inr n ↦ rw (cons-append d s t, n) (sym (cons-append d s t) ∙ ap (λ x. x <> t) (rw n at e))
  ]

  pub trim_start-append_none :
      (s t : String) → trim_start out s ≡ [] → trim_start out (s <> t) ≡ trim_start out t
  unfolding trim_start
  trim_start-append_none [] t e = rw (nil-append t)
  trim_start-append_none (d ∷ s) t e = elim (Bool-cases (out d)) [
    | inl y ↦ rw (cons-append d s t, y) (trim_start-append_none s t (rw y at e))
    | inr n ↦ let e' : d ∷ s ≡ [] = rw n at e in cc
  ]

  -- A last character that stays keeps all that stands before it.
  pub trim_end-append_some :
      (s t : String) (c : Char) (u : String)
      → trim_end out t ≡ c ∷ u
      → trim_end out (s <> t) ≡ s <> (c ∷ u)
  unfolding trim_end cons_unless
  trim_end-append_some [] t c u e = rw (nil-append t, nil-append (c ∷ u)) e
  trim_end-append_some (d ∷ s) t c u e =
      rw (cons-append d s t, cons-append d s (c ∷ u), trim_end-append_some s t c u e)
        (cons_some d s c u)
    where
      cons_some :
          (d : Char) (s : String) (c : Char) (u : String)
          → cons_unless out d (s <> (c ∷ u)) ≡ d ∷ (s <> (c ∷ u))
      cons_some d [] c u = rw (nil-append (c ∷ u))
      cons_some d (x ∷ s) c u = rw (cons-append x s (c ∷ u))

  pub trim_end-cons :
      (d c : Char) (s u : String)
      → trim_end out (c ∷ s) ≡ c ∷ u
      → trim_end out (d ∷ c ∷ s) ≡ d ∷ c ∷ u
  unfolding trim_end cons_unless
  trim_end-cons d c s u e = ap (cons_unless out d) e
