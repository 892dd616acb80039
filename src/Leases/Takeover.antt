-- ===== src/Leases/Takeover.antt =====
-- When the lease of packages/operator/src/k8s/leader-election.ts changes its holder.
use mathlib.Core.Option.{some-injective}
use a5e.Base.{
  ℕ, ◌+◌, ◌-◌, ◌*◌, ◌<◌, ◌≡◌, ◌≢◌, refl, sym, ap, subst, ◌∙◌, String, true, Option, some, ==_iff,
  string_eq, option_eq, ltb→lt, Bool-cases, inl, inr, ◌⊎◌, arith,
}
use a5e.Labels.{or_default}
use a5e.Leases.{
  Lease, Stored, Reading, found, missing, unreadable, replace, decline, expired, held_by,
  next_lease, intend,
}
use a5e.Leases.Steps.{World, created, replaced, failed, Step, tick, read, write, Reach}
use a5e.Leases.Consistency.{Held, Reach-IsConsistent, not_absent}

not_declined : (version : ℕ) (lease : Lease) → decline ≡ replace version lease → ⊥
not_declined version lease e = cc

module _ (duration : ℕ) where
  -- What a replacement tells of the reading that it follows.
  intend-replace :
      (i : String) (time : ℕ) (r : Reading) (version : ℕ) (lease : Lease)
      → intend i duration time r ≡ replace version lease
      → (s : Stored) × (r ≡ found s)
        × (s.version ≡ version)
        × (lease.holder_identity ≡ some i)
        × ((s.lease.holder_identity ≡ some i) ⊎ (expired duration time s.lease ≡ true))
  unfolding intend next_lease
  intend-replace i time missing version lease e = cc
  intend-replace i time unreadable version lease e = cc
  intend-replace i time (found s) version lease e = elim (Bool-cases (held_by i s.lease)) [
    | inl h ↦
        let e' = rw h at e in (s, refl, cc, cc, inl ((==_iff s.lease.holder_identity (some i)).0 h))
    | inr h ↦ elim (Bool-cases (expired duration time s.lease)) [
      | inl x ↦ let e' = rw (h, x) at e in (s, refl, cc, cc, inr x)
      | inr x ↦ absurd (not_declined version lease (rw (h, x) at e))
    ]
  ]

  expired→lt :
      (time : ℕ) (lease : Lease)
      → expired duration time lease ≡ true
      → or_default 0 lease.renew_time + duration * 1000 < time
  unfolding expired
  expired→lt time lease e =
      let over = ltb→lt (duration * 1000) (time - or_default 0 lease.renew_time) e in omega arith

  -- A replacement of a reading that is what is stored, by another holder, follows an expiry.
  replacement-expired :
      (w : World) (i : String) (r : Reading) (time : ℕ) (c : Stored) (version : ℕ) (lease : Lease)
      → Held w r time
      → w.stored ≡ some c
      → c.version ≡ version
      → intend i duration time r ≡ replace version lease
      → c.lease.holder_identity ≢ lease.holder_identity
      → or_default 0 c.lease.renew_time + duration * 1000 < w.clock
  replacement-expired w i r time c version lease k at v e other =
      let (s, found_s, sv, lh, why) = intend-replace i time r version lease e in
      let (c0, at0, le, same, t) : Held w (found s) time = subst (λ q. Held w q time) found_s k in
      let c0≡c : c0 ≡ c = some-injective c0 c (sym at0 ∙ at) in
      let s≡c : s ≡ c = same (sv ∙ sym v ∙ ap (λ x. x.version) (sym c0≡c)) ∙ c0≡c in
      elim why [
        | inl ours ↦ absurd (other (ap (λ x. x.lease.holder_identity) (sym s≡c) ∙ ours ∙ sym lh))
        | inr x ↦
            let over =
              expired→lt time c.lease (ap (λ y. expired duration time y.lease) (sym s≡c) ∙ x) in
            omega arith
      ]

  same_lease :
      (c c' : Stored) (o o' : Option Stored)
      → o ≡ some c
      → o' ≡ some c'
      → o' ≡ o
      → c.lease.holder_identity ≡ c'.lease.holder_identity
  same_lease c c' o o' e e' same =
      ap (λ x. x.lease.holder_identity) (some-injective c c' (sym e ∙ sym same ∙ e'))

  -- Among replicas with one duration and one clock: from a reachable world, a step that leaves the stored
  -- lease with another holder is made when more than the duration has passed since the renewal that
  -- was stored.
  pub takeover_after_expiry :
      (w w' : World) (c c' : Stored)
      → Reach duration w
      → Step duration w w'
      → w.stored ≡ some c
      → w'.stored ≡ some c'
      → c.lease.holder_identity ≢ c'.lease.holder_identity
      → or_default 0 c.lease.renew_time + duration * 1000 < w.clock
  takeover_after_expiry w w' c c' reached (tick n e) at at' other =
      absurd (other (same_lease c c' w.stored w'.stored at at' (ap (λ v. v.stored) e)))
  takeover_after_expiry w w' c c' reached (read i r m l h e) at at' other =
      absurd (other (same_lease c c' w.stored w'.stored at at' (ap (λ v. v.stored) e)))
  takeover_after_expiry w w' c c' reached
        (write i r time stored' acquired l (created lease version d n f a) e) at at' other =
      absurd (not_absent c (sym n ∙ at))
  takeover_after_expiry w w' c c' reached (write i r time stored' acquired l (failed f a) e) at at'
        other =
      absurd (other (same_lease c c' w.stored w'.stored at at' (ap (λ v. v.stored) e ∙ f)))
  takeover_after_expiry w w' c c' reached
        (write i r time stored' acquired l (replaced old lease version d o n f a) e) at at' other =
      let held = (Reach-IsConsistent duration w reached).held i r time l in
      let written = some-injective c' _ (sym at' ∙ ap (λ v. v.stored) e ∙ f) in
      replacement-expired w i r time c old.version lease held at
        (ap (λ x. x.version) (some-injective c old (sym at ∙ o))) d
        (λ h. other (h ∙ ap (λ x. x.lease.holder_identity) (sym written)))
