-- ===== src/Users/Claims/Long.antt =====
-- `claimUsername` of packages/api/src/auth/user-store.ts with a long username.
use Prim.Native.String.{String, [], ◌∷◌}
use a5e.Base.{
  ℕ, zero, suc, ◌≤◌, ◌≡◌, refl, sym, ap, ◌∙◌, ◌<>◌, false, not, none, List, leb, arith, Bool-cases,
  inl, inr,
}
use a5e.Labels.{includes}
use a5e.Users.{UserCr}
use a5e.Users.Text.{
  to_lower_case, replace_runs, trim_start, trim_end, slice, or_else, size, is_dash,
}
use a5e.Users.Text.Appends.{to_lower_case-append, replace_runs-append, trim_start-append_some}
use a5e.Users.Text.Sizes.{slice-trim_end, slice-append}
use a5e.Users.Names.{in_segment, sanitize_segment, local_cr_name, max_name}
use a5e.Users.Claims.{taken_names, is_free, candidate, next_free, claim_username}

chosen :
    (r r' : String)
    → 247 ≤ size (or_else "x" r)
    → (247 ≤ size r → slice 247 r' ≡ slice 247 r)
    → slice 247 (or_else "x" r') ≡ slice 247 (or_else "x" r)
unfolding or_else size slice
chosen [] r' h e = absurd (omega arith)
chosen (c ∷ s) [] h e = let e' = e h in cc
chosen (c ∷ s) (d ∷ u) h e = e h

-- What is trimmed at the end of a text that begins as a long one begins.
begins_trimmed :
    (a b : String)
    → 247 ≤ size (or_else "x" (trim_end is_dash a))
    → slice 247 (or_else "x" (trim_end is_dash (a <> b)))
      ≡ slice 247 (or_else "x" (trim_end is_dash a))
begins_trimmed a b h =
    chosen (trim_end is_dash a) (trim_end is_dash (a <> b)) h (slice-trim_end is_dash 247 a b)

short : 247 ≤ size (or_else "x" (trim_end is_dash [])) → ⊥
unfolding size or_else trim_end
short h = omega arith

begins :
    (x y : String)
    → 247 ≤ size (or_else "x" (trim_end is_dash (trim_start is_dash x)))
    → slice 247 (or_else "x" (trim_end is_dash (trim_start is_dash (x <> y))))
      ≡ slice 247 (or_else "x" (trim_end is_dash (trim_start is_dash x)))
begins x y h = by_start (trim_start is_dash x) refl h
  where
    by_start :
        (r : String)
        → trim_start is_dash x ≡ r
        → 247 ≤ size (or_else "x" (trim_end is_dash r))
        → slice 247 (or_else "x" (trim_end is_dash (trim_start is_dash (x <> y))))
          ≡ slice 247 (or_else "x" (trim_end is_dash r))
    by_start [] e h = absurd (short h)
    by_start (c ∷ u) e h =
        ap (λ r. slice 247 (or_else "x" (trim_end is_dash r)))
          (trim_start-append_some is_dash x y c u e)
        ∙ begins_trimmed (c ∷ u) y h

-- A long username and the same with a suffix have one object name.
long-local_cr_name :
    (desired suffix : String)
    → 247 ≤ size (sanitize_segment desired)
    → local_cr_name (desired <> suffix) ≡ local_cr_name desired
unfolding local_cr_name sanitize_segment size
long-local_cr_name desired suffix h =
    let (rest, e) =
      replace_runs-append in_segment false (to_lower_case desired) (to_lower_case suffix) in
    ap (λ r. slice max_name ("local-" <> or_else "x" (trim_end is_dash (trim_start is_dash r))))
      (ap (replace_runs in_segment false) (to_lower_case-append desired suffix) ∙ e)
    ∙ (slice-append "local-" 247 _
        ∙ (ap (◌<>◌ "local-")
              (begins (replace_runs in_segment false (to_lower_case desired)) rest h)
            ∙ sym (slice-append "local-" 247 _)))

module _ (random : ℕ → String) where
  is_free-candidate :
      (taken : List String) (desired : String) (attempt : ℕ)
      → 247 ≤ size (sanitize_segment desired)
      → is_free taken (candidate random desired attempt) ≡ is_free taken desired
  unfolding candidate is_free
  is_free-candidate taken desired attempt h = elim (Bool-cases (leb attempt 100)) [
    | inl e ↦ rw e (ap (λ r. not (includes taken r)) (long-local_cr_name desired _ h))
    | inr e ↦ rw e (ap (λ r. not (includes taken r)) (long-local_cr_name desired _ h))
  ]

  next_free-none :
      (fuel : ℕ) (taken : List String) (desired : String) (attempt : ℕ)
      → 247 ≤ size (sanitize_segment desired)
      → is_free taken desired ≡ false
      → next_free random fuel taken desired attempt ≡ none
  unfolding next_free
  next_free-none zero taken desired attempt h n = refl
  next_free-none (suc fuel) taken desired attempt h n =
      rw (is_free-candidate taken desired attempt h, n)
        (next_free-none fuel taken desired (suc attempt) h n)

  -- Where the sanitized form of the desired username has 247 characters or more, and another user has its
  -- object name, no number of attempts finds a free one.
  pub claim_username-none :
      (fuel : ℕ) (users : List UserCr) (desired except : String)
      → 247 ≤ size (sanitize_segment desired)
      → is_free (taken_names users except) desired ≡ false
      → claim_username random fuel users desired except ≡ none
  unfolding claim_username
  claim_username-none fuel users desired except h n =
      rw n (next_free-none fuel (taken_names users except) desired 2 h n)
