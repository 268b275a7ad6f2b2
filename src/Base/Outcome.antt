-- ===== src/Base/Outcome.antt =====
-- A Go result `(value, error)`. Of an error the model keeps what the driver tests: the gRPC status
-- code, the code of a cloud API error, and whether it is the file system's or the Kubernetes API's.
use Prim.Native.Nat.{ℕ}
use mathlib.Core.List.{List}
use mathlib.Core.Path.{◌≡◌, refl}

-- The codes of google.golang.org/grpc/codes that the driver returns.
pub data Code : Type 0 where
  invalid_argument not_found already_exists aborted internal unimplemented : Code

pub data Error : Type 0 where
  -- status.Error(code, message)
  status : Code → Error
  -- fmt.Errorf(message), its text as bytes where the driver reads it again
  plain : Error
  -- awserr.Error with its Code()
  cloud : List ℕ → Error
  -- os.IsNotExist(err)
  not_exist : Error
  -- errors.IsAlreadyExists(err) of the Kubernetes API
  object_exists : Error

pub data Outcome {ℓ} (A : Type ℓ) : Type ℓ where
  ok : A → Outcome A
  err : Error → Outcome A

infixl 5 ◌>>=◌ ◌>>◌
abbrev pub ◌>>=◌ {ℓ κ} : {A : Type ℓ} {B : Type κ} → Outcome A → (A → Outcome B) → Outcome B
ok a >>= f = f a
err e >>= f = err e

abbrev pub ◌>>◌ {ℓ κ} : {A : Type ℓ} {B : Type κ} → Outcome A → Outcome B → Outcome B
m >> k = m >>= λ _. k

-- A result that is an error or nothing.
abbrev pub Done : Type 0
Done = Unit {0}

-- What a bind that succeeds has gone through.
pub bind_ok {ℓ κ} :
    {A : Type ℓ} {B : Type κ} (m : Outcome A) (f : A → Outcome B) {b : B}
    → (m >>= f) ≡ ok b
    → (a : A) × (m ≡ ok a) × (f a ≡ ok b)
bind_ok (ok a) f h = (a, refl, h)
bind_ok (err e) f h = cc
