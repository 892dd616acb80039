-- ===== src/Base/Text.antt =====
-- Texts joined by a separator character, and their parts.
use Prim.Native.Char.{Char, code}
use Prim.Native.String.{String, [], ◌∷◌, ◌++◌}
use mathlib.Core.Path.{◌≡◌, refl, ap, sym, ◌∙◌}
use mathlib.Core.Logic.{◌≢◌}
use native.Mathlib.Omega.{arith}
use a5e.Base.Tests.{nat_beq, nat_beq_iff}
use mathlib.Core.Bool.{false}
use text.Mathlib.TextLemmas.{nil-append, cons-append}

-- Characters of different numbers are different.
pub apart : (c d : Char) → nat_beq (code c) (code d) ≡ false → c ≢ d
apart c d h e = ground (arith, ap code e, nat_beq_iff (code c) (code d))

module _ (bar : Char) where
  -- The character does not occur.
  abbrev pub Lacks : String → Type 0
  Lacks [] = Unit
  Lacks (c ∷ s) = (c ≢ bar) × Lacks s

  pub split_at_bar :
      (a b s t : String) → Lacks a → Lacks b → a ++ (bar ∷ s) ≡ b ++ (bar ∷ t) → (a ≡ b) × (s ≡ t)
  split_at_bar [] [] s t h k e =
      let e' = sym (nil-append (bar ∷ s)) ∙ (e ∙ nil-append (bar ∷ t)) in (refl, cc)
  split_at_bar [] (d ∷ b) s t h (n, k) e =
      let e' = sym (nil-append (bar ∷ s)) ∙ (e ∙ cons-append d b (bar ∷ t)) in absurd (n (cc))
  split_at_bar (c ∷ a) [] s t (n, h) k e =
      let e' = sym (cons-append c a (bar ∷ s)) ∙ (e ∙ nil-append (bar ∷ t)) in absurd (n (cc))
  split_at_bar (c ∷ a) (d ∷ b) s t (n, h) (m, k) e =
      let e' = sym (cons-append c a (bar ∷ s)) ∙ (e ∙ cons-append d b (bar ∷ t)) in
      let (f, g) = split_at_bar a b s t h k cc in (cc, g)

  pub split_at_mark :
      (a b s t : String)
      → Lacks a
      → Lacks b
      → a ++ ((bar ∷ []) ++ s) ≡ b ++ ((bar ∷ []) ++ t)
      → (a ≡ b) × (s ≡ t)
  split_at_mark a b s t h k e =
      split_at_bar a b s t h k (ap (◌++◌ a) (sym (bar_first s)) ∙ (e ∙ ap (◌++◌ b) (bar_first t)))
    where
      bar_first : (u : String) → (bar ∷ []) ++ u ≡ bar ∷ u
      bar_first u = cons-append bar [] u ∙ ap (◌∷◌ bar) (nil-append u)
