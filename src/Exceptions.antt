-- ===== src/Exceptions.antt =====
-- The exceptions of the program and the results of code that may raise.
use bluesky_trends.Prelude.{String, Bool, true, false}

-- The reasons for which `to_model` raises `ValueError`.
pub data Reason : Type 0 where
  not_a_commit no_commit_object unsupported_operation no_record_object unknown_collection : Reason

pub data Exception : Type 0 where
  value_error : Reason → Exception
  -- pydantic's `ValidationError`
  validation_error : Exception
  key_error : String → Exception
  type_error : Exception
  buffer_error : Exception
  -- what the driver of Postgres raises
  postgres_error : Exception

pub data Result {ℓ} (A : Type ℓ) : Type ℓ where
  ok : A → Result A
  raised : Exception → Result A

infixl 5 ◌>>=◌ ◌>>◌
abbrev pub ◌>>=◌ {ℓ κ} : {A : Type ℓ} {B : Type κ} → Result A → (A → Result B) → Result B
ok a >>= f = f a
raised e >>= f = raised e

abbrev pub ◌>>◌ {ℓ κ} : {A : Type ℓ} {B : Type κ} → Result A → Result B → Result B
m >> k = m >>= λ _. k

-- `if test: raise e`
abbrev pub raise_if : Bool → Exception → Result (Unit {0})
raise_if true e = raised e
raise_if false e = ok tt

-- What `except ValueError` catches: in pydantic 2 `ValidationError` is a subclass of `ValueError`.
abbrev pub is_value_error : Exception → Bool
is_value_error (value_error _) = true
is_value_error validation_error = true
is_value_error _ = false

-- What `except (ValidationError, KeyError, TypeError)` catches.
abbrev pub is_malformed_error : Exception → Bool
is_malformed_error validation_error = true
is_malformed_error (key_error _) = true
is_malformed_error type_error = true
is_malformed_error _ = false
