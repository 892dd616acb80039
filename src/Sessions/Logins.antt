-- ===== src/Sessions/Logins.antt =====
-- The pending logins of packages/api/src/auth/session-store.ts: their use and their age.
use mathlib.Core.Option.{some-injective}
use a5e.Base.{
  ℕ, ◌-◌, ◌≤◌, ◌≡◌, ◌≢◌, refl, ap, ◌∙◌, String, false, Option, none, some, [], ◌∷◌, ◌==◌, ==_refl,
  ==_false, string_eq, ltb, ltb→le, if◌then◌else◌, arith, Bool-cases, inl, inr, ◌⊎◌,
}
use a5e.Base.Dict
use a5e.Base.Dict.{Dict, lookup-insert, lookup-erase}
use a5e.Sessions.{
  PendingLogin, Stores, drop_stale, is_stale, fresh_verifier, store_pending_login,
  consume_pending_login, pending_login_ttl,
}

abbrev pub pending : String → Stores → Option PendingLogin
pending state s = Dict.lookup state s.pending_logins

-- What a use of a login gives: nothing, or the verifier of one that waits and is fresh.
abbrev pub IsFresh : ℕ → Option PendingLogin → Option String → Type 0
IsFresh now o verifier =
    (verifier ≡ none)
    ⊎ (p : PendingLogin) × (o ≡ some p)
      × (verifier ≡ some p.code_verifier)
      × (now - p.created_at ≤ pending_login_ttl)

fresh_verifier-IsFresh : (now : ℕ) (o : Option PendingLogin) → IsFresh now o (fresh_verifier now o)
unfolding fresh_verifier
fresh_verifier-IsFresh now none = inl refl
fresh_verifier-IsFresh now (some p) = elim (Bool-cases (is_stale now p)) [
  | inl y ↦ inl (rw y refl)
  | inr n ↦ inr (p, refl, rw n refl, ltb→le pending_login_ttl (now - p.created_at) n)
]

erased :
    (state other : String) (s : Stores)
    → Dict.lookup other (Dict.erase state s.pending_logins)
      ≡ (if state == other then none else pending other s)
erased state other s = lookup-erase state other s.pending_logins

lookup-drop_stale :
    (now : ℕ) (state : String) (p : PendingLogin) (d : Dict String PendingLogin)
    → is_stale now p ≡ false
    → Dict.lookup state d ≡ some p
    → Dict.lookup state (drop_stale now d) ≡ some p
unfolding drop_stale Dict.lookup
lookup-drop_stale now state p [] f e = e
lookup-drop_stale now state p ((k, q) ∷ d) f e = elim (Bool-cases (k == state)) [
  | inl y ↦
      let same : q ≡ p = some-injective q p (rw y at e) in
      rw (ap (is_stale now) same ∙ f, y) (ap some same)
  | inr n ↦
      let rest = lookup-drop_stale now state p d f (rw n at e) in
      elim (Bool-cases (is_stale now q)) [ inl t ↦ rw t rest | inr t ↦ rw (t, n) rest ]
]

consume_pending_login-store_pending_login :
    (now later : ℕ) (state code_verifier : String) (s : Stores)
    → (consume_pending_login later state (store_pending_login now state code_verifier s)).0
      ≡ (if ltb pending_login_ttl (later - now) then none else some code_verifier)
unfolding consume_pending_login store_pending_login
consume_pending_login-store_pending_login now later state code_verifier s =
    ap (fresh_verifier later) (
      lookup-drop_stale now state p (Dict.insert state p s.pending_logins) new
        (rw (==_refl state) at (lookup-insert state state p s.pending_logins)))
    ∙ read
  where
    p : PendingLogin
    p = record { code_verifier = code_verifier; created_at = now }

    new : is_stale now p ≡ false
    new = ground arith

    read :
        fresh_verifier later (some p)
        ≡ (if ltb pending_login_ttl (later - now) then none else some code_verifier)
    read = refl

-- A login that is stored comes back with its verifier until five minutes have passed, and not after. A
-- verifier comes back only for the state that it was stored under and only so long. A second use, at any
-- time, gives nothing, and the login of another state is left as it is.
pub consume_pending_login-once :
    (now later : ℕ) (state other code_verifier : String) (s : Stores)
    → state ≢ other
    → ((consume_pending_login later state (store_pending_login now state code_verifier s)).0
        ≡ (if ltb pending_login_ttl (later - now) then none else some code_verifier))
      × IsFresh now (pending state s) (consume_pending_login now state s).0
      × ((consume_pending_login later state (consume_pending_login now state s).1).0 ≡ none)
      × (pending other (consume_pending_login now state s).1 ≡ pending other s)
unfolding consume_pending_login
consume_pending_login-once now later state other code_verifier s n = (
  consume_pending_login-store_pending_login now later state code_verifier s,
  fresh_verifier-IsFresh now (pending state s),
  ap (fresh_verifier later) (rw (==_refl state) at (erased state state s)),
  rw (==_false state other n) at (erased state other s),
)
