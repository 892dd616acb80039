-- ===== src/Users/Text.antt =====
-- The operations on strings that packages/api/src/auth/user-store.ts uses: `toLowerCase`, `replace` with
-- a set of characters, `trim`, `slice`. A text is its code points; the source counts UTF-16 units only
-- where all are ASCII.
pub mod Appends
pub mod Sizes
use Prim.Native.Char.{Char, char, code, nul, IsScalar}
use Prim.Native.Nat.{compare, Ordering}
use Prim.Native.String.{String, [], ◌∷◌}
use native.Mathlib.Decide.{dec_lt}
use mathlib.Core.Logic.{dite}
use a5e.Base.{
  ℕ, zero, suc, ◌+◌, ◌<◌, ◌≡◌, refl, Bool, true, false, not, ◌&&◌, ◌||◌, Option, none, some, ◌==◌,
  nat_eq, leb, arith, if◌then◌else◌, ◌<>◌,
}

IsScalar_of_ascii : (n : ℕ) → n < 128 → IsScalar n
IsScalar_of_ascii n h = rw below tt
  where
    below : compare n 55296 ≡ Ordering.lt
    below = ground arith

unfoldable pub ascii : ℕ → Char
unfolding IsScalar_of_ascii dec_lt
ascii n = dite (dec_lt n 128) (λ h. char n (IsScalar_of_ascii n h)) (λ _. nul)

abbrev pub between : ℕ → ℕ → Char → Bool
between low high c = leb low (code c) && leb (code c) high

-- `toLowerCase` of one character, before the rest. Two characters that are not ASCII have a lower case
-- that is, or begins with, a letter of ASCII. Any other stays outside ASCII, and is replaced or removed
-- below whatever it is.
unfoldable pub lower : Char → String → String
lower c rest =
    if between b'A' b'Z' c
    then ascii (code c + 32) ∷ rest
    else if code c == 0x212A
    then "k" ∷ rest
    else if code c == 0x0130
    then "i" ∷ char 0x0307 tt ∷ rest
    else c ∷ rest

unfoldable pub to_lower_case : String → String
unfolding lower ascii
to_lower_case [] = []
to_lower_case (c ∷ s) = lower c (to_lower_case s)

abbrev pub dash : Char
dash = "-"

abbrev pub is_dash : Char → Bool
is_dash c = code c == b'-'

-- `.replace(/[^…]+/g, '-')`: a run of characters outside the set becomes one dash.
unfoldable pub replace_runs : (Char → Bool) → Bool → String → String
replace_runs kept in_run [] = []
replace_runs kept in_run (c ∷ s) =
    let rest = replace_runs kept (not (kept c)) s in
    if kept c then c ∷ rest else if in_run then rest else dash ∷ rest

-- `.replace(/[^…]+/g, '')`
unfoldable pub keep_only : (Char → Bool) → String → String
keep_only kept [] = []
keep_only kept (c ∷ s) = let rest = keep_only kept s in if kept c then c ∷ rest else rest

unfoldable pub trim_start : (Char → Bool) → String → String
trim_start out [] = []
trim_start out (c ∷ s) = let rest = trim_start out s in if out c then rest else c ∷ s

cons_unless : (Char → Bool) → Char → String → String
cons_unless out c [] = if out c then [] else c ∷ []
cons_unless out c (d ∷ s) = c ∷ d ∷ s

unfoldable pub trim_end : (Char → Bool) → String → String
unfolding cons_unless
trim_end out [] = []
trim_end out (c ∷ s) = cons_unless out c (trim_end out s)

-- `.slice(0, n)`
unfoldable pub slice : ℕ → String → String
slice zero s = []
slice (suc n) [] = []
slice (suc n) (c ∷ s) = c ∷ slice n s

-- `sanitized || fallback`
unfoldable pub or_else : String → String → String
or_else fallback [] = fallback
or_else fallback (c ∷ s) = c ∷ s

-- `\s`, and what `trim` removes.
unfoldable pub is_space : Char → Bool
is_space c =
    between 0x09 0x0D c
    || (between 0x2000 0x200A c
        || (code c == 0x20
            || (code c == 0xA0
                || (code c == 0x1680
                    || (between 0x2028 0x2029 c
                        || (code c == 0x202F
                            || (code c == 0x205F || (code c == 0x3000 || code c == 0xFEFF))))))))

unfoldable pub trim : String → String
unfolding is_space trim_start trim_end
trim s = trim_end is_space (trim_start is_space s)

unfoldable pub non_empty : String → Option String
non_empty [] = none
non_empty (c ∷ s) = some (c ∷ s)

-- `text.startsWith(prefix)`
unfoldable pub has_prefix : String → String → Bool
has_prefix [] s = true
has_prefix (c ∷ p) [] = false
has_prefix (c ∷ p) (d ∷ s) = code c == code d && has_prefix p s

unfoldable pub size : String → ℕ
size [] = 0
size (c ∷ s) = suc (size s)
