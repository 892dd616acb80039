-- ===== src/ChangeRequests/Applying.antt =====
-- How the changes of an approved request are applied, in packages/api/src/modules/change-requests.ts.
use a5e.Base.{
  ℕ, suc, ◌≡◌, ◌↔◌, ◌⊎◌, inl, inr, String, refl, ◌∙◌, Bool, true, false, none, some, List, [], ◌∷◌,
  every, if◌then◌else◌, All, &&-split,
}
use a5e.Base.Result.{Result, ok, err, Failure}
use a5e.ChangeRequests.{
  ChangeItem, ItemStatus, item_applied, item_skipped, item_failed, ItemResult, applied, failed,
}
use a5e.ChangeRequests.Items.{apply_item, apply_items, threw, status_of}
use a5e.Sessions.{Session}
use a5e.ChangeRequests.Review.{is_applied, review_phase, review, reviewed_answer, apply_changes}
use a5e.Effects.{Trace}
use a5e.Api.{Server, Act, Call, call, now, pure, attempt, ◌>>=◌, patch_change_status}

-- The entries of changes that are not tried.
abbrev pub skipped : ℕ → List ChangeItem → List ItemResult
skipped index [] = []
skipped index (item ∷ items) =
    record { index = index; status = item_skipped } ∷ skipped (suc index) items

module _ {W : Type 0} (srv : Server W) where
  -- What it is to apply changes in order: each to its end, up to the first that fails, with the trace after.
  pub data InOrder (u : Trace Call W)
      : Trace Call W → ℕ → List ChangeItem → List ItemResult → Type 0 where
    finished : {index : ℕ} {t : Trace Call W} → u ≡ t → InOrder u t index [] []
    passed :
        {index : ℕ} {t : Trace Call W} {item : ChangeItem} {rest : List ChangeItem}
        {results later : List ItemResult}
        → (v : Trace Call W) → apply_item srv item t ≡ (ok tt, v)
        → InOrder u v (suc index) rest later
        → results ≡ record { index = index; status = item_applied } ∷ later
        → InOrder u t index (item ∷ rest) results
    stopped :
        {index : ℕ} {t : Trace Call W} {item : ChangeItem} {rest : List ChangeItem}
        {results : List ItemResult}
        → (e : Failure) → apply_item srv item t ≡ (err e, u)
        → results
          ≡ record { index = index; status = item_failed e.message } ∷ skipped (suc index) rest
        → InOrder u t index (item ∷ rest) results

  -- One round of the loop, from what the change comes to.
  round :
      (index : ℕ) (item : ChangeItem) (items : List ChangeItem) (t v : Trace Call W)
      (r : Result (Unit {0}))
      → apply_item srv item t ≡ (r, v)
      → apply_items srv index false (item ∷ items) t
        ≡ (apply_items srv (suc index) (threw r) items >>= λ rest.
              pure (record { index = index; status = status_of r } ∷ rest))
            v
  unfolding apply_items ◌>>=◌ attempt
  round index item items t v r e = rw e refl

  pushed :
      (m : Act W (List ItemResult)) (x : ItemResult) (results : List ItemResult)
      (t u : Trace Call W)
      → m t ≡ (ok results, u)
      → (m >>= λ rest. pure (x ∷ rest)) t ≡ (ok (x ∷ results), u)
  unfolding ◌>>=◌ pure
  pushed m x results t u e = rw e refl

  apply_items-skipped :
      (index : ℕ) (items : List ChangeItem) (t : Trace Call W)
      → apply_items srv index true items t ≡ (ok (skipped index items), t)
  unfolding apply_items pure ◌>>=◌
  apply_items-skipped index [] t = refl
  apply_items-skipped index (item ∷ items) t = rw (apply_items-skipped (suc index) items t) refl

  abbrev pub Applies : ℕ → List ChangeItem → Trace Call W → Type 0
  Applies index items t =
      (results : List ItemResult) × (u : Trace Call W) × (apply_items srv index false items t
        ≡ (ok results, u))
      × InOrder u t index items results

  by_outcome :
      (index : ℕ) (item : ChangeItem) (items : List ChangeItem) (t v : Trace Call W)
      (r : Result (Unit {0}))
      → apply_item srv item t ≡ (r, v)
      → ((w : Trace Call W) → Applies (suc index) items w)
      → Applies index (item ∷ items) t
  by_outcome index item items t v (ok done) e ih =
      let (results, u, eq, order) = ih v in
      (
        _,
        u,
        round index item items t v (ok done) e
            ∙ pushed (apply_items srv (suc index) false items) _ results v u eq,
        passed v e order refl,
      )
  by_outcome index item items t v (err f) e ih = (
    _,
    v,
    round index item items t v (err f) e
        ∙ pushed (apply_items srv (suc index) true items) _ (skipped (suc index) items) v v
            (apply_items-skipped (suc index) items v),
    stopped f e refl,
  )

  apply_items-InOrder :
      (index : ℕ) (items : List ChangeItem) (t : Trace Call W) → Applies index items t
  unfolding apply_items pure
  apply_items-InOrder index [] t = ([], t, refl, finished refl)
  apply_items-InOrder index (item ∷ items) t =
      by_outcome index item items t (apply_item srv item t).1 (apply_item srv item t).0 refl
        (apply_items-InOrder (suc index) items)

applied_status :
    (r : ItemResult) (s : ItemStatus) → r.status ≡ s → is_applied r ≡ true → r.status ≡ item_applied
applied_status r item_applied e h = e
applied_status r item_skipped e h = let h' : false ≡ true = rw e at h in cc
applied_status r (item_failed f) e h = let h' : false ≡ true = rw e at h in cc

every-All :
    (rs : List ItemResult) → every is_applied rs ≡ true → All (λ r. r.status ≡ item_applied) rs
every-All [] h = tt
every-All (r ∷ rs) h =
    let (a, b) = &&-split (is_applied r) (every is_applied rs) h in
    (applied_status r r.status refl a, every-All rs b)

All-every :
    (rs : List ItemResult) → All (λ r. r.status ≡ item_applied) rs → every is_applied rs ≡ true
All-every [] h = refl
All-every (r ∷ rs) (a, b) = rw (a, All-every rs b) refl

phase_true : (b : Bool) → (if b then applied else failed) ≡ applied → b ≡ true
phase_true true e = refl
phase_true false e = cc

one_of :
    (b : Bool)
    → ((if b then applied else failed) ≡ applied) ⊎ ((if b then applied else failed) ≡ failed)
one_of true = inl refl
one_of false = inr refl

-- The phase after a review is `Applied` exactly if each change has been applied.
review_phase-applied :
    (results : List ItemResult)
    → (review_phase results ≡ applied) ↔ All (λ r. r.status ≡ item_applied) results
unfolding review_phase
review_phase-applied results = (
  (λ e. every-All results (phase_true (every is_applied results) e)),
  (λ h. rw (All-every results h) refl),
)

phase_cases :
    (results : List ItemResult) → (review_phase results ≡ applied) ⊎ (review_phase results ≡ failed)
unfolding review_phase
phase_cases results = one_of (every is_applied results)

module _ {W : Type 0} (srv : Server W) where
  -- The changes of an approved request are applied in order, each before the next, up to the first that
  -- fails; later ones are skipped and make no call. The loop never throws. After it the status is written
  -- once, with an entry for each change, and its phase is `Applied` exactly if each has been applied, and
  -- `Failed` otherwise.
  pub apply_changes-InOrder :
      (name : String) (session : Session) (changes : List ChangeItem) (t : Trace Call W)
      → (results : List ItemResult) × (u : Trace Call W) × InOrder srv u t 0 changes results
        × ((review_phase results ≡ applied) ↔ All (λ r. r.status ≡ item_applied) results)
        × ((review_phase results ≡ applied) ⊎ (review_phase results ≡ failed))
        × (apply_changes srv name session changes t
            ≡ (call srv (
                    patch_change_status name (
                      review
                        (review_phase results)
                        session
                        (srv.clock u.world)
                        none
                        (some results)))
                  >>= λ _. pure (reviewed_answer (review_phase results) results))
                u)
  unfolding apply_changes now ◌>>=◌
  apply_changes-InOrder name session changes t =
      let (results, u, eq, order) = apply_items-InOrder srv 0 changes t in
      (results, u, order, review_phase-applied results, phase_cases results, rw eq refl)
