-- ===== src/Effects.antt =====
-- Programs that call the outside, for every component that does. A call has a reply or an error;
-- `perform` answers it and is a parameter, since the outside is not part of the program. A program
-- of calls is a function of a trace, the state of the outside with the calls made so far; an error
-- keeps the calls made before it.
pub mod Ensures
pub mod Emits
pub mod Cases
pub mod Makes
use a5e.Base.{String, List, [], ◌∷◌, ◌++◌}
use a5e.Base.Result.{Result, ok, err, Failure}

pub record Server (C : Type 0) (R : C → Type 0) (W : Type 0) : Type 0 where
  pub perform : (c : C) → W → Result (R c) × W
  -- `new Date().toISOString()`
  pub clock : W → String

pub record Trace (C W : Type 0) : Type 0 where
  pub world : W
  pub calls : List C

abbrev pub Act : Type 0 → Type 0 → Type 0 → Type 0
Act C W A = Trace C W → Result A × Trace C W

module _ {C W A : Type 0} where
  unfoldable pub pure : A → Act C W A
  pure a t = (ok a, t)

  unfoldable pub throw : Failure → Act C W A
  throw e t = (err e, t)

  -- `try { body } catch (e) { handler }`
  unfoldable pub try_catch : Act C W A → (Failure → Act C W A) → Act C W A
  try_catch body handler t =
      let (r, after) = body t in elim r [ ok a ↦ (ok a, after) | err e ↦ handler e after ]

  -- The result of an action that may throw, as a value.
  unfoldable pub attempt : Act C W A → Act C W (Result A)
  attempt body t = let (r, after) = body t in (ok r, after)

module _ {C W A B : Type 0} where
  abbrev pub continue : Result A → (A → Act C W B) → Act C W B
  continue (ok a) f t = f a t
  continue (err e) f t = (err e, t)

  infixl 5 ◌>>=◌ ◌>>◌
  unfoldable pub ◌>>=◌ : Act C W A → (A → Act C W B) → Act C W B
  ◌>>=◌ m f t = let (r, after) = m t in continue r f after

  abbrev pub ◌>>◌ : Act C W A → Act C W B → Act C W B
  m >> n = m >>= λ _. n

module _ {C W : Type 0} {R : C → Type 0} (srv : Server C R W) where
  -- `await` of one request.
  unfoldable pub call : (c : C) → Act C W (R c)
  call c t =
      let (r, world) = srv.perform c t.world in
      (r, record { world = world; calls = t.calls ++ (c ∷ []) })

  unfoldable pub now : Act C W String
  now t = (ok (srv.clock t.world), t)
