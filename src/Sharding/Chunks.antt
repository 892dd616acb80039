-- ===== src/Sharding/Chunks.antt =====
-- The second loop of `shardHosts`, and the pieces that it cuts the hosts into.
use a5e.Base.{
  ℕ, zero, suc, ◌+◌, ◌≤◌, ◌<◌, ◌≡◌, refl, sym, ap, ◌∙◌, some, List, [], ◌∷◌, ◌++◌, arith, length,
  take, drop, take-append-drop, ltb, ltb→le, ltb→lt, Bool-cases, inl, inr, length-append,
  append-nil, append_assoc,
}
use a5e.Inventory.{ResolvedGroup}
use a5e.Sharding.{HostShard, ShardHost, slice, shard_of, shard_loop, collected_hosts, shard_hosts}

-- The shards, numbered from `i`, cut the hosts into consecutive non-empty pieces of at most
-- `amount`, with nothing left over.
abbrev pub Cut : ℕ → ℕ → List ShardHost → List HostShard → Type 0
Cut amount i hosts [] = hosts ≡ []
Cut amount i hosts (s ∷ shards) =
    (chunk : List ShardHost) × (rest : List ShardHost) × (hosts ≡ chunk ++ rest)
    × (0 < length chunk)
    × (length chunk ≤ amount)
    × (s ≡ shard_of i chunk)
    × Cut amount (suc i) rest shards

module _ {ℓ} {A : Type ℓ} where
  length-take-le : (n : ℕ) (xs : List A) → length (take n xs) ≤ n
  length-take-le zero xs = omega arith
  length-take-le (suc n) [] = omega arith
  length-take-le (suc n) (x ∷ xs) = omega (arith, length-take-le n xs)

  length-take-pos : (n : ℕ) (xs : List A) → 0 < n → 0 < length xs → 0 < length (take n xs)
  length-take-pos zero xs h k = absurd (omega arith)
  length-take-pos (suc n) [] h k = absurd (omega arith)
  length-take-pos (suc n) (x ∷ xs) h k = omega arith

  length-drop-pos : (n : ℕ) (xs : List A) → n < length xs → 0 < length (drop n xs)
  length-drop-pos zero xs h = omega arith
  length-drop-pos (suc n) [] h = absurd (omega arith)
  length-drop-pos (suc n) (x ∷ xs) h = length-drop-pos n xs (omega arith)

  drop-nil : (n : ℕ) → drop {A = A} n [] ≡ []
  drop-nil zero = refl
  drop-nil (suc n) = refl

  drop_past : (n : ℕ) (xs : List A) → length xs ≤ n → drop n xs ≡ []
  drop_past zero [] h = refl
  drop_past zero (x ∷ xs) h = absurd (omega arith)
  drop_past (suc n) [] h = refl
  drop_past (suc n) (x ∷ xs) h = drop_past n xs (omega arith)

  drop-drop : (m n : ℕ) (xs : List A) → drop n (drop m xs) ≡ drop (m + n) xs
  drop-drop zero n xs = let e : 0 + n ≡ n = omega arith in rw e refl
  drop-drop (suc m) n [] = drop-nil n ∙ sym (drop-nil (suc m + n))
  drop-drop (suc m) n (x ∷ xs) =
      let e : suc m + n ≡ suc (m + n) = omega arith in rw e (drop-drop m n xs)

shard_loop-Cut :
    (fuel : ℕ) (hosts : List ShardHost) (amount start : ℕ) (shards : List HostShard)
    → 0 < amount
    → 0 < fuel
    → length hosts < fuel + start
    → (out : List HostShard) × (shard_loop fuel hosts amount start shards ≡ some (shards ++ out))
      × Cut amount (length shards) (drop start hosts) out
unfolding shard_loop slice
shard_loop-Cut zero hosts amount start shards pos fuelled enough = absurd (omega arith)
shard_loop-Cut (suc fuel) hosts amount start shards pos fuelled enough =
    elim (Bool-cases (ltb start (length hosts))) [
      | inl more ↦
          let inside : start < length hosts = ltb→lt start (length hosts) more in
          let s = shard_of (length shards) (slice hosts start amount) in
          let (out, e, cut) =
            shard_loop-Cut fuel hosts amount (start + amount) (shards ++ (s ∷ [])) pos (omega arith)
              (omega arith) in
          let number : length (shards ++ (s ∷ [])) ≡ suc (length shards) =
            length-append shards (s ∷ []) ∙ omega arith in
          (
            s ∷ out,
            rw more (e ∙ ap some (append_assoc shards (s ∷ []) out)),
            (
              slice hosts start amount,
              drop amount (drop start hosts),
              sym (take-append-drop amount (drop start hosts)),
              length-take-pos amount (drop start hosts) pos (length-drop-pos start hosts inside),
              length-take-le amount (drop start hosts),
              refl,
              rw (drop-drop start amount hosts) (rw number at cut),
            ),
          )
      | inr done ↦ (
        [],
        rw done (ap some (sym (append-nil shards))),
        drop_past start hosts (ltb→le start (length hosts) done),
      )
    ]

-- With a positive bound `shardHosts` returns, and its shards cut the de-duplicated hosts, in their
-- order, into consecutive non-empty pieces of at most that many hosts, numbered from 0; each shard
-- lists its piece's names, and its limit joins the piece's inventory names.
pub shard_hosts-Cut :
    (groups : List ResolvedGroup) (max_amount_of_hosts : ℕ)
    → 0 < max_amount_of_hosts
    → (shards : List HostShard) × (shard_hosts groups max_amount_of_hosts ≡ some shards)
      × Cut max_amount_of_hosts 0 (collected_hosts groups) shards
unfolding shard_hosts slice
shard_hosts-Cut groups amount pos =
    let hosts = collected_hosts groups in
    shard_loop-Cut (suc (length hosts)) hosts amount 0 [] pos (omega arith) (omega arith)
