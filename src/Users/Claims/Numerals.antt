-- ===== src/Users/Claims/Numerals.antt =====
-- The numbers of the first attempts of `claimUsername` in packages/api/src/auth/user-store.ts, as texts.
use Prim.Native.Char.{code}
use Prim.Native.String.{String, [], ◌∷◌}
use a5e.Base.{
  ℕ, zero, suc, ◌+◌, ◌-◌, ◌*◌, ◌≤◌, ◌<◌, ◌≡◌, refl, sym, ap, subst, ◌∙◌, Bool, true, false, ◌&&◌,
  leb, ◌==◌, ==_iff, nat_eq, arith, &&-split, Bool-cases, inl, inr,
}
use a5e.Base.Decimal.{show_nat}
use a5e.Users.Text.{size, between}
use a5e.Users.Text.Appends.{AllKept}
use a5e.Users.Names.Suffixes.{IsNumeral}

value : ℕ → String → ℕ
value acc [] = acc
value acc (c ∷ s) = value (acc * 10 + (code c - 48)) s

digits_only : String → Bool
digits_only [] = true
digits_only (c ∷ s) = between b'0' b'9' c && digits_only s

numeral : String → Bool
unfolding digits_only
numeral [] = false
numeral (c ∷ s) = digits_only (c ∷ s)

checks : ℕ → Bool
unfolding numeral size show_nat value
checks n = numeral (show_nat n) && (leb (size (show_nat n)) 3 && value 0 (show_nat n) == n)

-- Whether the checks hold of so many numbers, from a first one on.
row : ℕ → ℕ → Bool
row first zero = true
row first (suc count) = checks first && row (suc first) count

row-checks :
    (count first n : ℕ) → row first count ≡ true → first ≤ n → n < first + count → checks n ≡ true
unfolding row
row-checks zero first n h low high = absurd (omega arith)
row-checks (suc count) first n h low high =
    let (here, later) = &&-split (checks first) (row (suc first) count) h in
    elim (Bool-cases (leb n first)) [
      | inl y ↦ subst (λ k. checks k ≡ true) (ground arith) here
      | inr y ↦ row-checks count (suc first) n later (ground arith) (omega arith)
    ]

table : row 0 101 ≡ true
unfolding row checks
table = refl

digits_only-AllKept : (s : String) → digits_only s ≡ true → AllKept (between b'0' b'9') s
unfolding digits_only
digits_only-AllKept [] h = tt
digits_only-AllKept (c ∷ s) h =
    let (d, rest) = &&-split (between b'0' b'9' c) (digits_only s) h in
    (d, digits_only-AllKept s rest)

numeral-IsNumeral : (s : String) → numeral s ≡ true → IsNumeral s
unfolding numeral
numeral-IsNumeral [] h = cc
numeral-IsNumeral (c ∷ s) h = digits_only-AllKept (c ∷ s) h

leb→le : (a b : ℕ) → leb a b ≡ true → a ≤ b
leb→le a b h = ground arith

checked : (n : ℕ) → n ≤ 100 → checks n ≡ true
checked n h = row-checks 101 0 n table (omega arith) (omega arith)

-- The three facts that the table checks.
facts :
    (n : ℕ)
    → n ≤ 100
    → IsNumeral (show_nat n) × (size (show_nat n) ≤ 3) × (value 0 (show_nat n) ≡ n)
unfolding checks
facts n h =
    let (a, rest) = &&-split (numeral (show_nat n)) _ (checked n h) in
    let (b, c) = &&-split (leb (size (show_nat n)) 3) _ rest in
    (numeral-IsNumeral (show_nat n) a, leb→le _ 3 b, (==_iff (value 0 (show_nat n)) n).0 c)

pub show_nat-IsNumeral : (n : ℕ) → n ≤ 100 → IsNumeral (show_nat n)
show_nat-IsNumeral n h = (facts n h).0

pub size-show_nat : (n : ℕ) → n ≤ 100 → size (show_nat n) ≤ 3
size-show_nat n h = (facts n h).1

pub show_nat-injective : (m n : ℕ) → m ≤ 100 → n ≤ 100 → show_nat m ≡ show_nat n → m ≡ n
show_nat-injective m n h k e = sym (facts m h).2 ∙ (ap (value 0) e ∙ (facts n k).2)
