-- ===== src/Schedules/History/Age.antt =====
-- packages/operator/src/controllers/ansiblejob-controller.ts: the runs that `pruneHistory` deletes, by
-- their age and their phase.
use mathlib.Core.List.{Perm}
use a5e.Base.{
  ℕ, ◌-◌, ◌≡◌, refl, sym, subst, Bool, true, false, List, [], ◌∷◌, ◌++◌, arith, keep, drop, length,
  leb, Bool-cases, inl, inr, In, Memᴰ, take-append-drop, In-append, ◌⊎◌, length-drop, In-take,
  In-keep, min,
}
use a5e.Runs.Status.{is_terminal}
use a5e.Schedules.{OwnedRun}
use a5e.Schedules.History.{
  has_succeeded, has_failed, insert_by_age, by_age, excess, runs_to_delete, is_active,
}
use a5e.Schedules.History.Sorting.{IsSorted, by_age-IsSorted, by_age-Perm, length-by_age}

In-insert_by_age :
    (x run : OwnedRun) (runs : List OwnedRun)
    → In x (insert_by_age run runs)
    → (x ≡ run) ⊎ In x runs
unfolding insert_by_age
In-insert_by_age x run [] (Memᴰ.head e) = inl e
In-insert_by_age x run [] (Memᴰ.tail m) = inr m
In-insert_by_age x run (r ∷ runs) m = elim (Bool-cases (leb run.created r.created)) [
  | inl t ↦ first (rw t at m)
  | inr f ↦ later (rw f at m) (λ n. In-insert_by_age x run runs n)
]
  where
    first : In x (run ∷ r ∷ runs) → (x ≡ run) ⊎ In x (r ∷ runs)
    first (Memᴰ.head e) = inl e
    first (Memᴰ.tail n) = inr n

    later :
        In x (r ∷ insert_by_age run runs)
        → (In x (insert_by_age run runs) → (x ≡ run) ⊎ In x runs)
        → (x ≡ run) ⊎ In x (r ∷ runs)
    later (Memᴰ.head e) k = inr (Memᴰ.head e)
    later (Memᴰ.tail n) k = elim (k n) [ inl e ↦ inl e | inr l ↦ inr (Memᴰ.tail l) ]

In-by_age : (x : OwnedRun) (runs : List OwnedRun) → In x (by_age runs) → In x runs
unfolding by_age
In-by_age x [] m = m
In-by_age x (run ∷ runs) m = elim (In-insert_by_age x run (by_age runs) m) [
  | inl e ↦ Memᴰ.head e
  | inr n ↦ Memᴰ.tail (In-by_age x runs n)
]

-- What is deleted of some runs: with the rest, whose number is the limit, or that of all the runs
-- where they are fewer, it makes up all of them, and before the rest it is in the order of creation.
abbrev pub Trims : ℕ → List OwnedRun → List OwnedRun → Type 0
Trims limit runs deleted =
    (rest : List OwnedRun) × Perm runs (deleted ++ rest)
    × (length rest ≡ min limit (length runs))
    × IsSorted (deleted ++ rest)

excess-Trims : (limit : ℕ) (runs : List OwnedRun) → Trims limit runs (excess limit (by_age runs))
unfolding excess
excess-Trims limit runs =
    let sorted = by_age runs in
    let n = length sorted - limit in
    (
      drop n sorted,
      subst (Perm runs) (sym (take-append-drop n sorted)) (by_age-Perm runs),
      omega (arith, length-drop n sorted, length-by_age runs),
      subst IsSorted (sym (take-append-drop n sorted)) (by_age-IsSorted runs),
    )

-- The runs that are deleted are some that succeeded and then some that failed. Of each kind exactly as
-- many are left as its limit, or all where there are no more, and the deleted ones, followed by those
-- that are left, are the runs of that kind in the order of their creation: the oldest are deleted.
pub runs_to_delete-Trims :
    (runs : List OwnedRun) (successful_limit failed_limit : ℕ)
    → (old_successful : List OwnedRun) × (old_failed : List OwnedRun) × (runs_to_delete runs
          successful_limit failed_limit
        ≡ old_successful ++ old_failed)
      × Trims successful_limit (keep has_succeeded runs) old_successful
      × Trims failed_limit (keep has_failed runs) old_failed
unfolding runs_to_delete
runs_to_delete-Trims runs successful_limit failed_limit = (
  _,
  _,
  refl,
  excess-Trims successful_limit (keep has_succeeded runs),
  excess-Trims failed_limit (keep has_failed runs),
)

finished_excess :
    (p : OwnedRun → Bool) (limit : ℕ) (runs : List OwnedRun) (d : OwnedRun)
    → ((r : OwnedRun) → p r ≡ true → is_active r ≡ false)
    → In d (excess limit (by_age (keep p runs)))
    → In d runs × (is_active d ≡ false)
unfolding excess
finished_excess p limit runs d h m =
    let l = In-by_age d (keep p runs) (In-take _ (by_age (keep p runs)) d m) in
    let (n, e) = In-keep p runs d l in (n, h d e)

succeeded-inactive : (r : OwnedRun) → has_succeeded r ≡ true → is_active r ≡ false
unfolding has_succeeded is_active
succeeded-inactive r h = ground arith

failed-inactive : (r : OwnedRun) → has_failed r ≡ true → is_active r ≡ false
unfolding has_failed has_succeeded is_active is_terminal
failed-inactive r h = ground arith

-- Only listed runs that are no longer active are deleted.
pub runs_to_delete-inactive :
    (runs : List OwnedRun) (successful_limit failed_limit : ℕ) (d : OwnedRun)
    → In d (runs_to_delete runs successful_limit failed_limit)
    → In d runs × (is_active d ≡ false)
unfolding runs_to_delete
runs_to_delete-inactive runs successful_limit failed_limit d m =
    elim (In-append d (excess successful_limit (by_age (keep has_succeeded runs))) _ m) [
      | inl l ↦ finished_excess has_succeeded successful_limit runs d succeeded-inactive l
      | inr l ↦ finished_excess has_failed failed_limit runs d failed-inactive l
    ]
