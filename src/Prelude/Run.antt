-- ===== src/Prelude/Run.antt =====
-- Commands of the models: a state, C++ exceptions, undefined behaviour and waiting.
use mathlib.Core.Bool.{Bool, true, false}

-- The classes of the exceptions that the sources throw.
pub data Exception : Type 0 where
  shared_memory_exception : Exception
  queue_exception : Exception
  runtime_error : Exception
  logic_error : Exception
  bad_alloc : Exception
  exporter_exception : Exception
  invalid_argument : Exception
  out_of_range : Exception
  plain_exception : Exception

-- How a call ends: it returns, it throws (both with the state that it leaves), it has undefined
-- behaviour, or it still waits when all that the other threads do has been done.
pub data Run (S A : Type 0) : Type 0 where
  ok : A → S → Run S A
  throw : Exception → S → Run S A
  undefined : Run S A
  blocked : Run S A

abbrev pub Cmd : Type 0 → Type 0 → Type 0
Cmd S A = S → Run S A

module _ {S : Type 0} where
  abbrev pub pure : {A : Type 0} → A → Cmd S A
  pure = ok

  abbrev pub and_then : {A B : Type 0} → Run S A → (A → Cmd S B) → Run S B
  and_then (ok a s) k = k a s
  and_then (throw e s) k = throw e s
  and_then undefined k = undefined
  and_then blocked k = blocked

  infixl 5 ◌>>=◌ ◌>>◌
  abbrev pub ◌>>=◌ : {A B : Type 0} → Cmd S A → (A → Cmd S B) → Cmd S B
  m >>= k = λ s. and_then (m s) k

  abbrev pub ◌>>◌ : {A B : Type 0} → Cmd S A → Cmd S B → Cmd S B
  m >> n = m >>= λ _. n

  abbrev pub raise : {A : Type 0} → Exception → Cmd S A
  raise e = throw e

  abbrev pub guard : Bool → Exception → Cmd S (Unit {0})
  guard true e = ok tt
  guard false e = throw e
