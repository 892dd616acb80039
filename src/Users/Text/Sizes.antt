-- ===== src/Users/Text/Sizes.antt =====
-- How long a text is after the operations on strings.
use Prim.Native.Char.{Char, char, code}
use Prim.Native.String.{String, [], ◌∷◌}
use text.Mathlib.TextLemmas.{nil-append, cons-append}
use a5e.Base.{
  ℕ, zero, suc, ◌+◌, ◌*◌, ◌≤◌, ◌≡◌, refl, ap, Bool, true, false, not, ◌==◌, nat_eq, arith,
  if◌then◌else◌, ◌<>◌, Bool-cases, inl, inr,
}
use a5e.Users.Text.{
  lower, to_lower_case, replace_runs, trim_start, trim_end, cons_unless, slice, size, between,
  ascii, dash,
}

pub size-append : (s t : String) → size (s <> t) ≡ size s + size t
unfolding size
size-append [] t = rw (nil-append t) (omega arith)
size-append (c ∷ s) t = rw (cons-append c s t) (omega (arith, size-append s t))

size-lower : (c : Char) (s : String) → size (lower c s) ≤ size s + 2
unfolding lower size
size-lower c s = by_tests (between b'A' b'Z' c) (code c == 0x212A) (code c == 0x0130)
  where
    by_tests :
        (a k i : Bool)
        → size (
            if a
            then ascii (code c + 32) ∷ s
            else if k
            then "k" ∷ s
            else if i
            then "i" ∷ char 0x0307 tt ∷ s
            else c ∷ s)
          ≤ size s + 2
    by_tests true k i = omega arith
    by_tests false true i = omega arith
    by_tests false false true = omega arith
    by_tests false false false = omega arith

size-to_lower_case : (s : String) → size (to_lower_case s) ≤ 2 * size s
unfolding to_lower_case size
size-to_lower_case [] = omega arith
size-to_lower_case (c ∷ s) = omega (arith, size-lower c (to_lower_case s), size-to_lower_case s)

size-replace_runs :
    (kept : Char → Bool) (in_run : Bool) (s : String) → size (replace_runs kept in_run s) ≤ size s
unfolding replace_runs size
size-replace_runs kept in_run [] = omega arith
size-replace_runs kept in_run (c ∷ s) =
    by_tests (kept c) in_run _ (size-replace_runs kept (not (kept c)) s)
  where
    by_tests :
        (k b : Bool) (r : String)
        → size r ≤ size s
        → size (if k then c ∷ r else if b then r else dash ∷ r) ≤ suc (size s)
    by_tests true b r h = omega arith
    by_tests false true r h = omega arith
    by_tests false false r h = omega arith

size-trim_start : (out : Char → Bool) (s : String) → size (trim_start out s) ≤ size s
unfolding trim_start size
size-trim_start out [] = omega arith
size-trim_start out (c ∷ s) = elim (Bool-cases (out c)) [
  | inl y ↦ rw y (omega (arith, size-trim_start out s))
  | inr n ↦ rw n (omega arith)
]

pub size-cleaned :
    (kept out : Char → Bool) (s : String)
    → size (trim_start out (replace_runs kept false (to_lower_case s))) ≤ 2 * size s
size-cleaned kept out s = omega (
  arith,
  size-trim_start out (replace_runs kept false (to_lower_case s)),
  size-replace_runs kept false (to_lower_case s),
  size-to_lower_case s,
)

begins-cons_unless :
    (out : Char → Bool) (n : ℕ) (c : Char) (a b : String)
    → suc n ≤ size (cons_unless out c a)
    → ((m : ℕ) → m ≤ size a → slice m b ≡ slice m a)
    → slice (suc n) (cons_unless out c b) ≡ slice (suc n) (cons_unless out c a)
unfolding slice size cons_unless
begins-cons_unless out n c [] [] h ih = refl
begins-cons_unless out zero c [] (e ∷ u) h ih = elim (Bool-cases (out c)) [
  | inl y ↦ let h' : 1 ≤ 0 = rw y at h in absurd (omega arith)
  | inr k ↦ rw k refl
]
begins-cons_unless out (suc n) c [] (e ∷ u) h ih = elim (Bool-cases (out c)) [
  | inl y ↦ let h' : suc (suc n) ≤ 0 = rw y at h in absurd (omega arith)
  | inr k ↦ let h' : suc (suc n) ≤ 1 = rw k at h in absurd (omega arith)
]
begins-cons_unless out n c (d ∷ s) [] h ih = let e = ih 1 (omega arith) in cc
begins-cons_unless out n c (d ∷ s) (e ∷ u) h ih = ap (◌∷◌ c) (ih n (omega arith))

-- Nothing after a text changes how it begins, up to the length that its trimmed form has.
pub slice-trim_end :
    (out : Char → Bool) (n : ℕ) (s t : String)
    → n ≤ size (trim_end out s)
    → slice n (trim_end out (s <> t)) ≡ slice n (trim_end out s)
unfolding slice trim_end size
slice-trim_end out zero s t h = refl
slice-trim_end out (suc n) [] t h = absurd (omega arith)
slice-trim_end out (suc n) (c ∷ s) t h = rw (cons-append c s t) (
    begins-cons_unless out n c (trim_end out s) (trim_end out (s <> t)) h
      (λ m k. slice-trim_end out m s t k))

-- A text that is not longer than the bound stays whole.
pub slice_short : (n : ℕ) (s : String) → size s ≤ n → slice n s ≡ s
unfolding slice size
slice_short zero [] h = refl
slice_short zero (c ∷ s) h = absurd (omega arith)
slice_short (suc n) [] h = refl
slice_short (suc n) (c ∷ s) h = ap (◌∷◌ c) (slice_short n s (omega arith))

pub slice-append : (p : String) (n : ℕ) (t : String) → slice (size p + n) (p <> t) ≡ p <> slice n t
unfolding size slice
slice-append [] n t = rw (nil-append t, nil-append (slice n t), zero_add n)
  where
    zero_add : (n : ℕ) → 0 + n ≡ n
    zero_add n = omega arith
slice-append (c ∷ p) n t =
    rw (cons-append c p t, cons-append c p (slice n t), suc_add (size p) n)
      (ap (◌∷◌ c) (slice-append p n t))
  where
    suc_add : (m n : ℕ) → suc m + n ≡ suc (m + n)
    suc_add m n = omega arith
