-- ===== src/Sessions.antt =====
-- packages/api/src/auth/session.ts and session-store.ts: the sessions of those who are logged in, and the
-- logins that wait for the identity provider. The stores are the maps of the module; the time is in
-- milliseconds, and one operation reads the clock once.
pub mod Logins
use a5e.Base.{
  ℕ, zero, suc, ◌-◌, ◌*◌, String, Bool, true, false, Option, none, some, List, [], ◌∷◌, ◌==◌,
  string_eq, ltb, if◌then◌else◌,
}
use a5e.Base.Dict
use a5e.Base.Dict.{Dict}
use a5e.Users.Text.{has_prefix, trim, non_empty}

pub data SessionKind : Type 0 where
  local oidc : SessionKind

pub record Session : Type 0 where
  pub kind : SessionKind
  pub impersonate_user : String
  pub impersonate_groups : Option (List String)
  pub display_name : String

-- `text.slice(n)`
unfoldable pub drop_text : ℕ → String → String
drop_text zero s = s
drop_text (suc n) String.[] = String.[]
drop_text (suc n) (String.◌∷◌ c s) = drop_text n s

bearer : String → Option String
unfolding has_prefix drop_text trim non_empty
bearer value = if has_prefix "Bearer " value then non_empty (trim (drop_text 7 value)) else none

first_header : Option String → Option String → Option String
first_header none other = other
first_header (some value) other = some value

-- `extractBearerToken`, given the headers `authorization` and `Authorization`.
unfoldable pub extract_bearer_token : Option String → Option String → Option String
unfolding bearer first_header
extract_bearer_token lower upper = elim (first_header lower upper) [
  | none ↦ none
  | some value ↦ bearer value
]

pub record PendingLogin : Type 0 where
  pub code_verifier : String
  pub created_at : ℕ

pub record Stores : Type 0 where
  pub sessions : Dict String Session
  pub pending_logins : Dict String PendingLogin

abbrev pub pending_login_ttl : ℕ
pending_login_ttl = 5 * 60000

-- `storeSession`
unfoldable pub store_session : String → Session → Stores → Stores
unfolding Dict.insert
store_session id session s = record s { sessions = Dict.insert id session s.sessions }

-- `getStoredSession`, and `resolveSession`.
unfoldable pub get_stored_session : Option String → Stores → Option Session
unfolding Dict.lookup non_empty
get_stored_session none s = none
get_stored_session (some id) s = elim (non_empty id) [
  | none ↦ none
  | some _ ↦ Dict.lookup id s.sessions
]

-- `deleteSession`
unfoldable pub delete_session : Option String → Stores → Stores
unfolding Dict.erase non_empty
delete_session none s = s
delete_session (some id) s = elim (non_empty id) [
  | none ↦ s
  | some _ ↦ record s { sessions = Dict.erase id s.sessions }
]

abbrev is_stale : ℕ → PendingLogin → Bool
is_stale now p = ltb pending_login_ttl (now - p.created_at)

drop_stale : ℕ → Dict String PendingLogin → Dict String PendingLogin
drop_stale now [] = []
drop_stale now ((state, p) ∷ d) =
    let rest = drop_stale now d in if is_stale now p then rest else (state, p) ∷ rest

-- `storePendingLogin`
unfoldable pub store_pending_login : ℕ → String → String → Stores → Stores
unfolding Dict.insert drop_stale
store_pending_login now state code_verifier s = record s {
  pending_logins = drop_stale now (
      Dict.insert state (record { code_verifier = code_verifier; created_at = now })
        s.pending_logins);
}

fresh_verifier : ℕ → Option PendingLogin → Option String
fresh_verifier now none = none
fresh_verifier now (some p) = if is_stale now p then none else some p.code_verifier

-- `consumePendingLogin`
unfoldable pub consume_pending_login : ℕ → String → Stores → Option String × Stores
unfolding Dict.lookup Dict.erase fresh_verifier
consume_pending_login now state s = (
  fresh_verifier now (Dict.lookup state s.pending_logins),
  record s { pending_logins = Dict.erase state s.pending_logins },
)
