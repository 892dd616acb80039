-- ===== src/Runs/Shards/Steps.antt =====
-- The moves of one shard of a run, as relations: the steps of a poll and those of a start.
use a5e.Base.{
  String, ◌≤◌, ◌≡◌, refl, sym, ◌∙◌, true, false, some, List, [], ◌∷◌, arith, tally, ◌⊎◌, inl, inr,
}
use a5e.Labels.{or_default}
use a5e.Runs.{RunShardStatus}
use a5e.Runs.Status.{is_terminal_shard}
use a5e.Runs.Poll.{Polled, still_running, not_found, finished}
use a5e.Runs.Shards.{is_running, is_pending, is_finished, polled_shard, ended_phase}

-- The same shard: its number and its hosts.
abbrev pub SameShard : RunShardStatus → RunShardStatus → Type 0
SameShard s s' = (s'.index ≡ s.index) × (s'.hosts ≡ s.hosts)

abbrev pub Ended : RunShardStatus → RunShardStatus → Type 0
Ended s s' = (is_running s ≡ true) × (is_finished s' ≡ true) × SameShard s s'

abbrev pub Started : RunShardStatus → RunShardStatus → Type 0
Started s s' = (is_pending s ≡ true) × (is_running s' ≡ true) × SameShard s s'

abbrev pub PollStep : RunShardStatus → RunShardStatus → Type 0
PollStep s s' = (s' ≡ s) ⊎ Ended s s'

abbrev pub StartStep : RunShardStatus → RunShardStatus → Type 0
StartStep s s' = (s' ≡ s) ⊎ Started s s'

-- One reconcile: a shard stays, or ends, or starts.
abbrev pub ShardStep : RunShardStatus → RunShardStatus → Type 0
ShardStep s s' = (s' ≡ s) ⊎ (Ended s s' ⊎ Started s s')

module _ (R : RunShardStatus → RunShardStatus → Type 0) where
  -- Shard by shard.
  abbrev pub Pointwise : List RunShardStatus → List RunShardStatus → Type 0
  Pointwise [] [] = Unit
  Pointwise [] (y ∷ ys) = ⊥
  Pointwise (x ∷ xs) [] = ⊥
  Pointwise (x ∷ xs) (y ∷ ys) = R x y × Pointwise xs ys

pub Pointwise-refl :
    (R : RunShardStatus → RunShardStatus → Type 0) (xs : List RunShardStatus)
    → ((s : RunShardStatus) → R s s)
    → Pointwise R xs xs
Pointwise-refl R [] r = tt
Pointwise-refl R (x ∷ xs) r = (r x, Pointwise-refl R xs r)

ended-not_running : (s : RunShardStatus) → is_finished s ≡ true → is_running s ≡ false
unfolding is_terminal_shard
ended-not_running s h = ground arith

ended-not_pending : (s : RunShardStatus) → is_finished s ≡ true → is_pending s ≡ false
unfolding is_terminal_shard
ended-not_pending s h = ground arith

-- A shard that a poll changes has ended.
pub ended_shard :
    (s : RunShardStatus) (time : String) (p : Polled)
    → is_running s ≡ true
    → PollStep s (or_default s (polled_shard s time p))
unfolding polled_shard is_terminal_shard
ended_shard s time still_running r = inl refl
ended_shard s time not_found r = inr (r, refl, (refl, refl))
ended_shard s time (finished result) r = inr (
  r,
  elim result.succeeded as (λ b. is_finished (record s { phase = some (ended_phase b) }) ≡ true) [
    | true ↦ refl
    | false ↦ refl
  ],
  (refl, refl),
)

-- Polling frees slots and takes none.
pub tally-PollStep :
    (xs ys : List RunShardStatus)
    → Pointwise PollStep xs ys
    → tally is_running ys ≤ tally is_running xs
tally-PollStep [] [] h = omega arith
tally-PollStep [] (y ∷ ys) h = absurd h
tally-PollStep (x ∷ xs) [] h = absurd h
tally-PollStep (x ∷ xs) (y ∷ ys) (inl e, h) = rw e (omega (arith, tally-PollStep xs ys h))
tally-PollStep (x ∷ xs) (y ∷ ys) (inr (r, f, same), h) =
    rw (ended-not_running y f) (omega (arith, tally-PollStep xs ys h))

step_both : (s t u : RunShardStatus) → PollStep s t → StartStep t u → ShardStep s u
step_both s t u (inl e) (inl f) = inl (f ∙ e)
step_both s t u (inl e) (inr (p, r, same)) = inr (inr (rw e at p, r, rw e at same))
step_both s t u (inr (r, f, same)) (inl e) = inr (inl (r, rw (sym e) at f, rw (sym e) at same))
step_both s t u (inr (r, f, same)) (inr (p, r', same')) = let q = ended-not_pending t f in cc

pub Pointwise-both :
    (xs ys zs : List RunShardStatus)
    → Pointwise PollStep xs ys
    → Pointwise StartStep ys zs
    → Pointwise ShardStep xs zs
Pointwise-both [] [] [] h k = tt
Pointwise-both [] [] (z ∷ zs) h k = absurd k
Pointwise-both [] (y ∷ ys) zs h k = absurd h
Pointwise-both (x ∷ xs) [] zs h k = absurd h
Pointwise-both (x ∷ xs) (y ∷ ys) [] h k = absurd k
Pointwise-both (x ∷ xs) (y ∷ ys) (z ∷ zs) (h, hs) (k, ks) =
    (step_both x y z h k, Pointwise-both xs ys zs hs ks)
