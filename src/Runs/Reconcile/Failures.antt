-- ===== src/Runs/Reconcile/Failures.antt =====
-- `startRun` where something fails.
use a5e.Base.{String, ◌≡◌, refl, ap, ◌∙◌, subst, not, Option, none, some, List, [], ◌∷◌, ◌++◌}
use a5e.Base.Result.{Result, ok, err, Failure}
use a5e.Runs.{resolving, error, RunStatus, Condition, ParallelConfig, Run}
use a5e.Runs.Status.{status_of, patch_status, merged_status}
use a5e.Runs.Shards.{PreparedRun, Preparation, prepared, done}
use a5e.Runs.Control.{start_parallel_run}
use a5e.Runs.Writes.{patch_status-Emits}
use a5e.Runs.Starts.{StartWrite, start_parallel_run-StartOver}
use a5e.Runs.Reconcile.{
  StartOutcome, returned, parallel_promise, parallel_of, start_run, is_resolving, mark_resolving,
  start_prepared, start_failed, settle,
}
use a5e.Cluster.{
  Server, Act, Trace, patch_run_status, pure, now, try_catch, call, continue, ◌>>=◌, ◌>>◌,
}
use a5e.Effects.Emits.{Emits, Grows, Emits-pure, Emits-if, Emits-bind}
use a5e.Cluster.Writes.{Writes, NoStatus, Emits-Writes}

module _ {W A : Type 0} where
  abbrev handled : (Failure → Act W A) → Result A → Trace W → Result A × Trace W
  handled handler r after = elim r [ ok a ↦ (ok a, after) | err e ↦ handler e after ]

  caught :
      (m : Act W A) (handler : Failure → Act W A) (e : Failure) (t t' : Trace W)
      → m t ≡ (err e, t')
      → try_catch m handler t ≡ handler e t'
  unfolding try_catch
  caught m handler e t t' h = ap (λ q. handled handler q.0 q.1) h

  not_caught :
      (m : Act W A) (handler : Failure → Act W A) (a : A) (t t' : Trace W)
      → m t ≡ (ok a, t')
      → try_catch m handler t ≡ (ok a, t')
  unfolding try_catch
  not_caught m handler a t t' h = ap (λ q. handled handler q.0 q.1) h

module _ {W A B : Type 0} where
  bind_at :
      (m : Act W A) (f : A → Act W B) (t : Trace W) (r : Result A × Trace W)
      → m t ≡ r
      → (m >>= f) t ≡ continue r.0 f r.1
  unfolding ◌>>=◌
  bind_at m f t r h = ap (λ r. continue r.0 f r.1) h

bind_assoc :
    {W A B C : Type 0}
    → (m : Act W A) (n : Act W B) (f : B → Act W C) (t : Trace W)
    → (m >> (n >>= f)) t ≡ ((m >> n) >>= f) t
unfolding ◌>>=◌
bind_assoc {W} {A} {B} {C} m n f t = by_case (m t).0 (m t).1
  where
    by_case :
        (r : Result A) (u : Trace W)
        → continue r (λ _ v. continue (n v).0 f (n v).1) u
          ≡ continue (continue r (λ _. n) u).0 f (continue r (λ _. n) u).1
    by_case (ok a) u = refl
    by_case (err e) u = refl

module _ {W : Type 0} (srv : Server W) (runner_image : String) (obj : Run) where
  -- The `try` block of `startRun`, up to the choice between one Job and a parallel run.
  abbrev pub preparing : Act W Preparation → Act W Preparation
  preparing prepare = mark_resolving srv runner_image obj >> prepare

  abbrev pub starting : Act W Preparation → Act W StartOutcome
  starting prepare = do
    mark_resolving srv runner_image obj
    prep ← prepare
    start_prepared srv runner_image obj prep (parallel_of obj.spec.parallel)

  abbrev pub HasMessage : String → Option (List Condition) → Type 0
  HasMessage message none = ⊥
  HasMessage message (some []) = ⊥
  HasMessage message (some (c ∷ cs)) = c.message ≡ message

  abbrev error_status : Failure → Trace W → RunStatus
  error_status e t =
      merged_status obj (λ s. record s { completion_time = some (srv.clock t.world) }) (some error)
        (some (record { reason = "Error"; message = e.message })) (srv.clock t.world)

  settled :
      (r : Result Unit) (u : Trace W)
      → let q = continue r (λ _. pure (returned done)) u in
        (continue q.0 (settle srv runner_image obj) q.1).1 ≡ u
  unfolding settle pure
  settled (ok _) u = refl
  settled (err e) u = refl

  failed_last :
      (e : Failure) (t : Trace W)
      → let q = start_failed srv runner_image obj e t in
        (continue q.0 (settle srv runner_image obj) q.1).1.calls
        ≡ t.calls ++ (patch_run_status obj.namespace obj.name (error_status e t) ∷ [])
  unfolding start_failed patch_status ◌>>=◌ now call
  failed_last e t = ap (λ u. u.calls) (settled _ _)

  -- Where the `try` block of `startRun` throws, the last call writes a status with the phase `Error`
  -- and a condition with the message of what was thrown.
  pub start_run-thrown :
      (prepare : Act W Preparation) (e : Failure) (t t' : Trace W)
      → starting prepare t ≡ (err e, t')
      → (status : RunStatus) × ((start_run srv runner_image obj prepare t).1.calls
          ≡ t'.calls ++ (patch_run_status obj.namespace obj.name status ∷ []))
        × (status.phase ≡ some error)
        × HasMessage e.message status.conditions
  unfolding start_run merged_status
  start_run-thrown prepare e t t' h = (
    error_status e t',
    ap (λ q. q.1.calls)
          (bind_at _ (settle srv runner_image obj) t _
            (caught (starting prepare) (start_failed srv runner_image obj) e t t' h))
        ∙ failed_last e t',
    refl,
    refl,
  )

  started_body :
      (prepare : Act W Preparation) (prep : PreparedRun) (parallel : ParallelConfig)
      (t t' : Trace W)
      → preparing prepare t ≡ (ok (prepared prep), t')
      → parallel_of obj.spec.parallel ≡ some parallel
      → starting prepare t ≡ (ok (parallel_promise prep parallel), t')
  unfolding start_prepared pure
  started_body prepare prep parallel t t' h p =
      bind_assoc _ prepare _ t ∙ (bind_at _ _ t _ h ∙ rw p refl)

  start_run-promise :
      (prepare : Act W Preparation) (prep : PreparedRun) (parallel : ParallelConfig)
      (t t' : Trace W)
      → preparing prepare t ≡ (ok (prepared prep), t')
      → parallel_of obj.spec.parallel ≡ some parallel
      → start_run srv runner_image obj prepare t
        ≡ start_parallel_run srv runner_image obj prep parallel t'
  unfolding start_run settle
  start_run-promise prepare prep parallel t t' h p =
      bind_at _ (settle srv runner_image obj) t _
        (not_caught _ _ _ t t' (started_body prepare prep parallel t t' h p))

  abbrev IsResolving : RunStatus → Type 0
  IsResolving status = status.phase ≡ some resolving

  mark_resolving-Emits : Emits (Writes IsResolving) (mark_resolving srv runner_image obj)
  unfolding mark_resolving merged_status
  mark_resolving-Emits =
      Emits-if (not (is_resolving (status_of obj).phase)) _ _
        (λ h.
          patch_status-Emits srv runner_image obj IsResolving (λ s. s) (some resolving) none
            (λ time. refl))
        (λ h. Emits-pure tt)

  preparing-Emits :
      (prepare : Act W Preparation)
      → Emits NoStatus prepare
      → Emits (Writes IsResolving) (preparing prepare)
  preparing-Emits prepare n =
      Emits-bind _ _ mark_resolving-Emits (λ _. Emits-Writes IsResolving prepare n)

  -- Where the preparation of a parallel run writes no status and succeeds, `startRun` returns the
  -- promise of `startParallelRun` from its `try` block without `await`. What that throws, `startRun`
  -- throws too. The statuses that it writes up to the end of the preparation have the phase `Resolving`,
  -- and those after it are statuses of the started shards, with the phase `Running`, or `Succeeded`
  -- without hosts: none has the phase `Error`.
  pub start_run-uncaught :
      (prepare : Act W Preparation) (prep : PreparedRun) (parallel : ParallelConfig) (e : Failure)
      (t t' : Trace W)
      → Emits NoStatus prepare
      → preparing prepare t ≡ (ok (prepared prep), t')
      → parallel_of obj.spec.parallel ≡ some parallel
      → (start_parallel_run srv runner_image obj prep parallel t').0 ≡ err e
      → ((start_run srv runner_image obj prepare t).0 ≡ err e)
        × Grows (Writes (λ status. status.phase ≡ some resolving)) t t'
        × Grows
            (Writes (StartWrite srv runner_image obj prep parallel))
            t'
            (start_run srv runner_image obj prepare t).1
  start_run-uncaught prepare prep parallel e t t' n h p f =
      rw (start_run-promise prepare prep parallel t t' h p) (
        f,
        subst (Grows (Writes IsResolving) t) (ap (λ q. q.1) h) ((preparing-Emits prepare n).at t),
        (start_parallel_run-StartOver srv runner_image obj prep parallel).at t',
      )
