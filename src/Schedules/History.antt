-- ===== src/Schedules/History.antt =====
-- packages/operator/src/controllers/ansiblejob-controller.ts: which runs `pruneHistory` deletes.
pub mod Age
pub mod Sorting
use a5e.Base.{
  ℕ, ◌-◌, String, Bool, true, false, not, ◌&&◌, Option, none, some, List, [], ◌∷◌, ◌++◌,
  if◌then◌else◌, keep, take, length, leb,
}
use a5e.Runs.{RunPhase, pending, resolving, running, succeeded, failed, error, cancelled}
use a5e.Runs.Status.{is_terminal}
use a5e.Schedules.{OwnedRun}

-- `ACTIVE_PHASES.has(r.status?.phase ?? 'Pending')`
unfoldable pub is_active : OwnedRun → Bool
is_active run = elim run.phase [
  | none ↦ true
  | some pending ↦ true
  | some resolving ↦ true
  | some running ↦ true
  | some _ ↦ false
]

unfoldable pub has_succeeded : OwnedRun → Bool
has_succeeded run = elim run.phase [ some succeeded ↦ true | _ ↦ false ]

-- `p !== undefined && TERMINAL_PHASES.has(p) && p !== 'Succeeded'`
unfoldable pub has_failed : OwnedRun → Bool
unfolding is_terminal has_succeeded
has_failed run =
    elim run.phase [ none ↦ false | some phase ↦ is_terminal phase ] && not (has_succeeded run)

-- `sort` by the creation time, which keeps the order of equal times.
unfoldable pub insert_by_age : OwnedRun → List OwnedRun → List OwnedRun
insert_by_age run [] = run ∷ []
insert_by_age run (r ∷ runs) =
    let later = insert_by_age run runs in
    if leb run.created r.created then run ∷ r ∷ runs else r ∷ later

unfoldable pub by_age : List OwnedRun → List OwnedRun
unfolding insert_by_age
by_age [] = []
by_age (run ∷ runs) = insert_by_age run (by_age runs)

-- `runs.slice(0, Math.max(0, runs.length - limit))`
unfoldable pub excess : ℕ → List OwnedRun → List OwnedRun
excess limit runs = take (length runs - limit) runs

-- `toDelete`
unfoldable pub runs_to_delete : List OwnedRun → ℕ → ℕ → List OwnedRun
unfolding has_succeeded has_failed by_age excess
runs_to_delete runs successful_limit failed_limit =
    excess successful_limit (by_age (keep has_succeeded runs))
    ++ excess failed_limit (by_age (keep has_failed runs))
