-- ===== src/Schedules/History/Sorting.antt =====
-- `pruneHistory`'s `sort` by the creation time, in packages/operator/src/controllers/ansiblejob-controller.ts:
-- the order of its result, and what it is made of.
use mathlib.Core.List.{Perm}
use mathlib.Core.List.Perm
use a5e.Base.{
  ◌≤◌, ◌≡◌, refl, ap, ◌∙◌, List, [], ◌∷◌, arith, length, leb, Bool-cases, inl, inr, All, suc,
}
use a5e.Schedules.{OwnedRun}
use a5e.Schedules.History.{insert_by_age, by_age}

abbrev IsOldest : OwnedRun → List OwnedRun → Type 0
IsOldest run = All (λ r. run.created ≤ r.created)

abbrev pub IsSorted : List OwnedRun → Type 0
IsSorted [] = Unit
IsSorted (run ∷ runs) = IsOldest run runs × IsSorted runs

older :
    (a b : OwnedRun) (runs : List OwnedRun)
    → a.created ≤ b.created
    → IsOldest b runs
    → IsOldest a runs
older a b [] h o = tt
older a b (r ∷ runs) h (o, os) = (omega arith, older a b runs h os)

insert_by_age-IsOldest :
    (a run : OwnedRun) (runs : List OwnedRun)
    → a.created ≤ run.created
    → IsOldest a runs
    → IsOldest a (insert_by_age run runs)
unfolding insert_by_age
insert_by_age-IsOldest a run [] h o = (h, tt)
insert_by_age-IsOldest a run (r ∷ runs) h (o, os) = elim (Bool-cases (leb run.created r.created)) [
  | inl t ↦ rw t (h, (o, os))
  | inr f ↦ rw f (o, insert_by_age-IsOldest a run runs h os)
]

insert_by_age-IsSorted :
    (run : OwnedRun) (runs : List OwnedRun) → IsSorted runs → IsSorted (insert_by_age run runs)
unfolding insert_by_age
insert_by_age-IsSorted run [] s = (tt, tt)
insert_by_age-IsSorted run (r ∷ runs) (o, s) = elim (Bool-cases (leb run.created r.created)) [
  | inl t ↦
      let h : run.created ≤ r.created = ground arith in rw t ((h, older run r runs h o), (o, s))
  | inr f ↦
      let h : r.created ≤ run.created = ground arith in
      rw f (insert_by_age-IsOldest r run runs h o, insert_by_age-IsSorted run runs s)
]

pub by_age-IsSorted : (runs : List OwnedRun) → IsSorted (by_age runs)
unfolding by_age
by_age-IsSorted [] = tt
by_age-IsSorted (run ∷ runs) = insert_by_age-IsSorted run (by_age runs) (by_age-IsSorted runs)

insert_by_age-Perm :
    (run : OwnedRun) (runs : List OwnedRun) → Perm (run ∷ runs) (insert_by_age run runs)
unfolding insert_by_age
insert_by_age-Perm run [] = Perm.refl (run ∷ [])
insert_by_age-Perm run (r ∷ runs) = elim (Bool-cases (leb run.created r.created)) [
  | inl t ↦ rw t (Perm.refl (run ∷ r ∷ runs))
  | inr f ↦ rw f (Perm.trans (Perm.swap r run runs) (Perm.cons r (insert_by_age-Perm run runs)))
]

pub by_age-Perm : (runs : List OwnedRun) → Perm runs (by_age runs)
unfolding by_age
by_age-Perm [] = Perm.nil
by_age-Perm (run ∷ runs) =
    Perm.trans (Perm.cons run (by_age-Perm runs)) (insert_by_age-Perm run (by_age runs))

length-insert_by_age :
    (run : OwnedRun) (runs : List OwnedRun) → length (insert_by_age run runs) ≡ suc (length runs)
unfolding insert_by_age
length-insert_by_age run [] = refl
length-insert_by_age run (r ∷ runs) = elim (Bool-cases (leb run.created r.created)) [
  | inl t ↦ rw t refl
  | inr f ↦ rw f (ap suc (length-insert_by_age run runs))
]

pub length-by_age : (runs : List OwnedRun) → length (by_age runs) ≡ length runs
unfolding by_age
length-by_age [] = refl
length-by_age (run ∷ runs) = length-insert_by_age run (by_age runs) ∙ ap suc (length-by_age runs)
