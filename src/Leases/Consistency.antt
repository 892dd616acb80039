-- ===== src/Leases/Consistency.antt =====
-- What the replicas of packages/operator/src/k8s/leader-election.ts have read, against what is stored.
use mathlib.Core.Option.{some-injective}
use a5e.Base.{
  ℕ, ◌+◌, ◌≤◌, ◌≡◌, refl, sym, ap, subst, ◌∙◌, String, Bool, Option, none, some, ◌==◌, string_eq,
  option_eq, Bool-cases, inl, inr, arith,
}
use a5e.Leases.{Stored, Reading, found, missing, unreadable, Intent, intend, after_attempt}
use a5e.Leases.Steps.{
  Local, idle, read_at, World, set, Reads, reads_found, Writes, created, replaced, failed, Step,
  tick, read, write, Reach, start, step,
}

pub not_absent : (c : Stored) → none ≡ some c → ⊥
not_absent c e = cc

idle_read : (r : Reading) (time : ℕ) → idle ≡ read_at r time → ⊥
idle_read r time e = cc

-- A reading that a replica holds is not newer than what is stored, and is it if the versions agree.
abbrev pub Held : World → Reading → ℕ → Type 0
Held w missing time = Unit
Held w unreadable time = Unit
Held w (found s) time =
    (c : Stored) × (w.stored ≡ some c)
    × (s.version ≤ c.version)
    × (s.version ≡ c.version → s ≡ c)
    × (time ≤ w.clock)

pub record IsConsistent (w : World) : Type 0 where
  pub held : (i : String) (r : Reading) (time : ℕ) → w.locals i ≡ read_at r time → Held w r time

start-IsConsistent : (w : World) → ((i : String) → w.locals i ≡ idle) → IsConsistent w
start-IsConsistent w h = record { held = λ i r time e. absurd (idle_read r time (sym (h i) ∙ e)) }

-- `Held` reads what is stored and the clock only.
relocated :
    (w v : World) (r : Reading) (time : ℕ)
    → v.stored ≡ w.stored
    → v.clock ≡ w.clock
    → Held w r time
    → Held v r time
relocated w v missing time e f h = tt
relocated w v unreadable time e f h = tt
relocated w v (found s) time e f (c, g, b, same, t) = (c, e ∙ g, b, same, omega arith)

tick-Held :
    (w : World) (n : ℕ) (r : Reading) (time : ℕ)
    → Held w r time
    → Held (record w { clock = w.clock + n }) r time
tick-Held w n missing time h = tt
tick-Held w n unreadable time h = tt
tick-Held w n (found s) time (c, e, b, same, t) = (c, e, b, same, omega arith)

new-Held : (w : World) (r : Reading) → Reads w.stored r → Held w r w.clock
new-Held w missing h = tt
new-Held w unreadable h = tt
new-Held w (found s) (reads_found s' e) = (s, e, omega arith, λ same. refl, omega arith)

-- Where the stored lease does not change but for a write.
write-Held :
    (w : World) (intent : Intent) (stored' : Option Stored) (acquired : Bool) (r : Reading)
    (time : ℕ)
    → Writes w.stored intent stored' acquired
    → Held w r time
    → Held (record w { stored = stored' }) r time
write-Held w intent stored' acquired missing time h k = tt
write-Held w intent stored' acquired unreadable time h k = tt
write-Held w intent stored' acquired (found s) time (created lease version d n f a)
      (c, e, b, same, t) =
    absurd (not_absent c (sym n ∙ e))
write-Held w intent stored' acquired (found s) time (replaced old lease version d o n f a)
      (c, e, b, same, t) =
    let older : c.version ≡ old.version = ap (λ x. x.version) (some-injective c old (sym e ∙ o)) in
    (record { lease = lease; version = version }, f, omega arith, λ v. absurd (omega arith), t)
write-Held w intent stored' acquired (found s) time (failed f a) (c, e, b, same, t) =
    (c, f ∙ e, b, same, t)

reading_of : Local → Reading
reading_of idle = missing
reading_of (read_at r time) = r

time_of : Local → ℕ
time_of idle = 0
time_of (read_at r time) = time

-- What holds of the readings of all replicas but one, and of that one's new reading.
Held-set :
    (w : World) (f : String → Local) (i : String) (l : Local)
    → ((j : String) (r : Reading) (time : ℕ) → f j ≡ read_at r time → Held w r time)
    → ((r : Reading) (time : ℕ) → l ≡ read_at r time → Held w r time)
    → (j : String) (r : Reading) (time : ℕ) → set i l f j ≡ read_at r time
    → Held w r time
Held-set w f i l h k j r time e = elim (Bool-cases (i == j)) [
  | inl t ↦ k r time (rw t at e)
  | inr n ↦ h j r time (rw n at e)
]

read-Held :
    (w v : World) (r q : Reading) (time : ℕ)
    → v.stored ≡ w.stored
    → v.clock ≡ w.clock
    → Held w r w.clock
    → read_at r w.clock ≡ read_at q time
    → Held v q time
unfolding reading_of time_of
read-Held w v r q time e f h k =
    subst (Held v q) (ap time_of k)
      (subst (λ x. Held v x w.clock) (ap reading_of k) (relocated w v r w.clock e f h))

module _ (duration : ℕ) where
  Step-IsConsistent : (w w' : World) → Step duration w w' → IsConsistent w → IsConsistent w'
  Step-IsConsistent w w' (tick n e) c =
      subst IsConsistent (sym e)
        (record { held = λ i r time l. tick-Held w n r time (c.held i r time l) })
  Step-IsConsistent w w' (read i r m l h e) c =
      let v : World = record w { locals = set i (read_at r w.clock) w.locals } in
      subst IsConsistent (sym e) (record {
        held =
            Held-set v w.locals i (read_at r w.clock)
              (λ j q time k. relocated w v q time refl refl (c.held j q time k))
              (λ q time k. read-Held w v r q time refl refl (new-Held w r h) k);
      })
  Step-IsConsistent w w' (write i r time stored' acquired l h e) c =
      let v : World = record {
        stored = stored';
        clock = w.clock;
        locals = set i idle w.locals;
        modes = set i (after_attempt (w.modes i) acquired) w.modes;
      } in
      subst IsConsistent (sym e) (record {
        held =
            Held-set v w.locals i idle
              (λ j q u k.
                relocated (record w { stored = stored' }) v q u refl refl
                  (write-Held w (intend i duration time r) stored' acquired q u h (c.held j q u k)))
              (λ q u k. absurd (idle_read q u k));
      })

  pub Reach-IsConsistent : (w : World) → Reach duration w → IsConsistent w
  Reach-IsConsistent w (start _ h) = start-IsConsistent w h
  Reach-IsConsistent w (step u _ r s) = Step-IsConsistent u w s (Reach-IsConsistent u r)
