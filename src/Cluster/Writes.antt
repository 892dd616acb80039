-- ===== src/Cluster/Writes.antt =====
-- Actions by the statuses that they write.
use a5e.Base.{List, [], ◌∷◌, All}
use a5e.Runs.{RunStatus}
use a5e.Cluster.{
  Act, Call, create_namespaced_job, read_namespaced_job, read_job_state, patch_job_ttl,
  delete_namespaced_job, list_pods, read_pod_log, patch_run_status, write_log, list_owned_runs,
  create_run, cancel_owned_run, delete_run, patch_job_status,
}
use a5e.Effects.Emits.{Emits}

-- The statuses that are written satisfy `P`; nothing is said of the other calls.
abbrev pub Writes : (RunStatus → Type 0) → Call → Type 0
Writes P (patch_run_status namespace name status) = P status
Writes P (create_namespaced_job _ _) = Unit
Writes P (read_namespaced_job _ _) = Unit
Writes P (read_job_state _ _) = Unit
Writes P (patch_job_ttl _ _ _) = Unit
Writes P (delete_namespaced_job _ _) = Unit
Writes P (list_pods _ _) = Unit
Writes P (read_pod_log _ _ _) = Unit
Writes P (write_log _ _) = Unit
Writes P (list_owned_runs _ _) = Unit
Writes P (create_run _ _) = Unit
Writes P (cancel_owned_run _ _) = Unit
Writes P (delete_run _ _) = Unit
Writes P (patch_job_status _ _ _) = Unit

abbrev pub NoStatus : Call → Type 0
NoStatus = Writes (λ status. ⊥)

module _ (P Q : RunStatus → Type 0) (h : (status : RunStatus) → P status → Q status) where
  any_write : (c : Call) → Writes P c → Writes Q c
  any_write (patch_run_status namespace name status) p = h status p
  any_write (create_namespaced_job _ _) p = tt
  any_write (read_namespaced_job _ _) p = tt
  any_write (read_job_state _ _) p = tt
  any_write (patch_job_ttl _ _ _) p = tt
  any_write (delete_namespaced_job _ _) p = tt
  any_write (list_pods _ _) p = tt
  any_write (read_pod_log _ _ _) p = tt
  any_write (write_log _ _) p = tt
  any_write (list_owned_runs _ _) p = tt
  any_write (create_run _ _) p = tt
  any_write (cancel_owned_run _ _) p = tt
  any_write (delete_run _ _) p = tt
  any_write (patch_job_status _ _ _) p = tt

  all-Writes : (cs : List Call) → All (Writes P) cs → All (Writes Q) cs
  all-Writes [] p = tt
  all-Writes (c ∷ cs) (p, ps) = (any_write c p, all-Writes cs ps)

module _ {W A : Type 0} where
  pub Emits-mono :
      {P Q : RunStatus → Type 0}
      → (m : Act W A) → Emits (Writes P) m
      → ((status : RunStatus) → P status → Q status)
      → Emits (Writes Q) m
  Emits-mono m p h = record {
    at = λ t. let (new, e, all) = p.at t in (new, e, all-Writes _ _ h new all);
  }

  pub Emits-Writes : (P : RunStatus → Type 0) (m : Act W A) → Emits NoStatus m → Emits (Writes P) m
  Emits-Writes P m p = Emits-mono m p (λ status n. absurd n)
