-- ===== src/Users/Names.antt =====
-- packages/api/src/auth/user-store.ts: the names of `User` objects and the usernames of identities from
-- single sign-on.
pub mod Suffixes
use Prim.Native.Char.{Char, code}
use Prim.Native.String.{String, [], ◌∷◌}
use a5e.Base.{
  ℕ, ◌≡◌, refl, Bool, false, not, ◌||◌, Option, none, some, ◌==◌, nat_eq, if◌then◌else◌, ◌<>◌,
}
use a5e.Users.Text.{
  between, is_dash, to_lower_case, replace_runs, keep_only, trim_start, trim_end, slice, or_else,
  is_space, trim, non_empty,
}

-- `[a-z0-9-]`
unfoldable pub in_segment : Char → Bool
in_segment c = between b'a' b'z' c || (between b'0' b'9' c || is_dash c)

-- `sanitizeSegment`
unfoldable pub sanitize_segment : String → String
unfolding to_lower_case in_segment replace_runs trim_start trim_end or_else
sanitize_segment raw =
    or_else "x"
      (trim_end is_dash (trim_start is_dash (replace_runs in_segment false (to_lower_case raw))))

abbrev pub max_name : ℕ
max_name = 253

-- `localCRName`
unfoldable pub local_cr_name : String → String
unfolding sanitize_segment slice
local_cr_name username = slice max_name ("local-" <> sanitize_segment username)

-- `oidcCRName`
unfoldable pub oidc_cr_name : String → String
unfolding sanitize_segment slice
oidc_cr_name sub = slice max_name ("oidc-" <> sanitize_segment sub)

-- `[._@-]`
unfoldable pub is_mark : Char → Bool
is_mark c = code c == b'.' || (code c == b'_' || (code c == b'@' || is_dash c))

-- `[a-z0-9._@-]`
unfoldable pub in_username : Char → Bool
unfolding is_mark
in_username c = between b'a' b'z' c || (between b'0' b'9' c || is_mark c)

-- `sanitizeUsername`
unfoldable pub sanitize_username : String → Option String
unfolding trim to_lower_case is_space in_username is_mark replace_runs keep_only trim_start trim_end
    non_empty
sanitize_username raw =
    let dashed = replace_runs (λ c. not (is_space c)) false (to_lower_case (trim raw)) in
    non_empty (trim_end is_mark (trim_start is_mark (keep_only in_username dashed)))

-- `email.split('@')[0]`
unfoldable pub before_at : String → String
before_at [] = []
before_at (c ∷ s) = let rest = before_at s in if code c == b'@' then [] else c ∷ rest

-- A claim is read where it is there and not empty.
unfoldable pub claimed : Option String → Option String
unfolding non_empty
claimed none = none
claimed (some s) = non_empty s

from_claim : Option String → (String → String) → Option String
unfolding claimed sanitize_username
from_claim claim part = elim (claimed claim) [ none ↦ none | some s ↦ sanitize_username (part s) ]

first_of : Option String → String → String
first_of none fallback = fallback
first_of (some s) fallback = s

-- `deriveOidcUsername`
unfoldable pub derive_oidc_username : Option String → Option String → String → String
unfolding from_claim first_of before_at
derive_oidc_username preferred_username email sub =
    first_of (from_claim preferred_username (λ s. s))
      (first_of (from_claim email before_at) (first_of (sanitize_username sub) "sso-user"))

names_test :
    local_cr_name "Alice.Bob "
      <> (oidc_cr_name "--" <> derive_oidc_username (some " ") (some "J Doe@x") "s")
    ≡ "local-alice-boboidc-xj-doe"
unfolding local_cr_name oidc_cr_name derive_oidc_username
names_test = refl
