-- ===== src/Users/Names/Suffixes.antt =====
-- The names of users whose username ends in a dash and digits, as `claimUsername` makes them.
use Prim.Native.Char.{Char, code}
use Prim.Native.String.{String, [], ◌∷◌}
use text.Mathlib.TextLemmas.{nil-append, cons-append, append_assoc}
use a5e.Base.{◌+◌, ◌*◌, ◌≤◌, ◌<◌, ◌≡◌, refl, sym, ap, ◌∙◌, Bool, true, false, nat_eq, arith, ◌<>◌}
use a5e.Users.Text.{
  lower, to_lower_case, replace_runs, trim_start, trim_end, slice, or_else, size, between, dash,
  is_dash,
}
use a5e.Users.Text.Appends.{
  to_lower_case-append, replace_runs-append_kept, replace_runs-AllKept, AllKept,
  trim_start-append_some, trim_start-append_none, trim_end-append_some, trim_end-cons,
}
use a5e.Users.Text.Sizes.{size-append, size-cleaned, slice_short}
use a5e.Users.Names.{in_segment, sanitize_segment, local_cr_name, max_name}

abbrev is_digit : Char → Bool
is_digit c = between b'0' b'9' c

-- A text of one or more digits.
abbrev pub IsNumeral : String → Type 0
IsNumeral [] = ⊥
IsNumeral (c ∷ s) = AllKept is_digit (c ∷ s)

digit-lower : (c : Char) (s : String) → code c < 65 → lower c s ≡ c ∷ s
unfolding lower
digit-lower c s h = ground arith

digit_code : (c : Char) → is_digit c ≡ true → (48 ≤ code c) × (code c ≤ 57)
digit_code c h = ground arith

digit-in_segment : (c : Char) → is_digit c ≡ true → in_segment c ≡ true
unfolding in_segment
digit-in_segment c h = ground arith

digit-is_dash : (c : Char) → is_digit c ≡ true → is_dash c ≡ false
digit-is_dash c h = ground arith

digits-to_lower_case : (s : String) → AllKept is_digit s → to_lower_case s ≡ s
unfolding to_lower_case
digits-to_lower_case [] h = refl
digits-to_lower_case (c ∷ s) (d, h) =
    digit-lower c (to_lower_case s) (omega (arith, digit_code c d))
    ∙ ap (◌∷◌ c) (digits-to_lower_case s h)

digits-AllKept : (s : String) → AllKept is_digit s → AllKept in_segment s
digits-AllKept [] h = tt
digits-AllKept (c ∷ s) (d, h) = (digit-in_segment c d, digits-AllKept s h)

-- What stands before the digits in the name, whatever the digits are.
stem_of : String → String
stem_of [] = []
stem_of (c ∷ s) = (c ∷ s) <> (dash ∷ [])

cleaned : String → String
cleaned desired = trim_start is_dash (replace_runs in_segment false (to_lower_case desired))

pub stem : String → String
unfolding stem_of cleaned
stem desired = stem_of (cleaned desired)

dash_kept : in_segment dash ≡ true
unfolding in_segment
dash_kept = refl

numbered-replace_runs :
    (d s : String)
    → AllKept is_digit s
    → replace_runs in_segment false (to_lower_case (d <> ("-" <> s)))
      ≡ replace_runs in_segment false (to_lower_case d) <> (dash ∷ s)
unfolding to_lower_case lower
numbered-replace_runs d s h =
    ap (replace_runs in_segment false) (
      to_lower_case-append d ("-" <> s)
      ∙ ap (◌<>◌ (to_lower_case d)) (
          ap to_lower_case (cons-append dash [] s ∙ ap (◌∷◌ dash) (nil-append s))
          ∙ ap (◌∷◌ dash) (digits-to_lower_case s h)))
    ∙ (replace_runs-append_kept in_segment false (to_lower_case d) dash s dash_kept
        ∙ ap (λ r. replace_runs in_segment false (to_lower_case d) <> (dash ∷ r))
            (replace_runs-AllKept in_segment s (digits-AllKept s h)))

numeral-trim_start :
    (c : Char) (s : String) → is_digit c ≡ true → trim_start is_dash (c ∷ s) ≡ c ∷ s
unfolding trim_start
numeral-trim_start c s d = rw (digit-is_dash c d)

dash-trim_start : (s : String) → trim_start is_dash (dash ∷ s) ≡ trim_start is_dash s
unfolding trim_start
dash-trim_start s = refl

dash-trim_end :
    (c : Char) (s : String)
    → trim_end is_dash (c ∷ s) ≡ c ∷ s
    → trim_end is_dash (dash ∷ c ∷ s) ≡ dash ∷ c ∷ s
dash-trim_end c s e = trim_end-cons is_dash dash c s s e

stem_of-append : (s t : String) (c : Char) → (c ∷ s) <> (dash ∷ t) ≡ stem_of (c ∷ s) <> t
unfolding stem_of
stem_of-append s t c =
    ap (◌<>◌ (c ∷ s)) (ap (◌∷◌ dash) (sym (nil-append t)) ∙ sym (cons-append dash [] t))
    ∙ sym (append_assoc (c ∷ s) (dash ∷ []) t)

digits-trim_end : (s : String) → AllKept is_digit s → trim_end is_dash s ≡ s
unfolding trim_end
digits-trim_end [] h = refl
digits-trim_end (c ∷ []) (d, h) = rw (digit-is_dash c d)
digits-trim_end (c ∷ e ∷ s) (d, h) = trim_end-cons is_dash c e s s (digits-trim_end (e ∷ s) h)

trimmed :
    (x : String) (c : Char) (s : String)
    → AllKept is_digit (c ∷ s)
    → (r : String) → trim_start is_dash x ≡ r
    → trim_end is_dash (trim_start is_dash (x <> (dash ∷ c ∷ s))) ≡ stem_of r <> (c ∷ s)
unfolding stem_of
trimmed x c s (d, h) [] e =
    ap (trim_end is_dash) (
      trim_start-append_none is_dash x (dash ∷ c ∷ s) e
      ∙ (dash-trim_start (c ∷ s) ∙ numeral-trim_start c s d))
    ∙ (digits-trim_end (c ∷ s) (d, h) ∙ sym (nil-append (c ∷ s)))
trimmed x c s (d, h) (b ∷ u) e =
    ap (trim_end is_dash) (trim_start-append_some is_dash x (dash ∷ c ∷ s) b u e)
    ∙ (trim_end-append_some is_dash (b ∷ u) (dash ∷ c ∷ s) dash (c ∷ s)
          (dash-trim_end c s (digits-trim_end (c ∷ s) (d, h)))
        ∙ stem_of-append u (c ∷ s) b)

or_else-numeral : (s : String) (c : Char) (t : String) → or_else "x" (s <> (c ∷ t)) ≡ s <> (c ∷ t)
unfolding or_else
or_else-numeral [] c t = rw (nil-append (c ∷ t))
or_else-numeral (d ∷ s) c t = rw (cons-append d s (c ∷ t))

-- The segment of a username with digits after the dash is the stem, then the digits.
pub numbered-sanitize_segment :
    (d s : String) → IsNumeral s → sanitize_segment (d <> ("-" <> s)) ≡ stem d <> s
unfolding sanitize_segment stem cleaned
numbered-sanitize_segment d [] h = absurd h
numbered-sanitize_segment d (c ∷ s) h =
    ap (λ r. or_else "x" (trim_end is_dash (trim_start is_dash r)))
      (numbered-replace_runs d (c ∷ s) h)
    ∙ (ap (or_else "x") (trimmed (replace_runs in_segment false (to_lower_case d)) c s h _ refl)
        ∙ or_else-numeral (stem d) c s)

size-stem_of : (s : String) → size (stem_of s) ≤ size s + 1
unfolding stem_of size
size-stem_of [] = omega arith
size-stem_of (c ∷ s) = omega (arith, size-append (c ∷ s) (dash ∷ []))

size-stem : (d : String) → size (stem d) ≤ 2 * size d + 1
unfolding stem cleaned
size-stem d = omega (arith, size-stem_of (cleaned d), size-cleaned in_segment is_dash d)

local_size : (s : String) → size ("local-" <> s) ≡ 6 + size s
unfolding size
local_size s = size-append "local-" s

-- Where it is short, the name keeps the digits.
pub numbered-local_cr_name :
    (d s : String)
    → IsNumeral s
    → size s ≤ 3
    → size d ≤ 121
    → local_cr_name (d <> ("-" <> s)) ≡ "local-" <> (stem d <> s)
unfolding local_cr_name
numbered-local_cr_name d s h short_s short_d =
    ap (λ r. slice max_name ("local-" <> r)) (numbered-sanitize_segment d s h)
    ∙ slice_short max_name ("local-" <> (stem d <> s))
        (omega (arith, local_size (stem d <> s), size-append (stem d) s, size-stem d))
