-- ===== src/Base/Results.antt =====
-- Results of calls that may fail, and the interface to an encoder such as encoding/json.
use mathlib.Core.Path.{◌≡◌, refl}
use mathlib.Core.Logic.{◌⊎◌, inl, inr}
use mathlib.Core.Option.{Option, some}

pub data Result (E A : Type 0) : Type 0 where
  ok : A → Result E A
  err : E → Result E A

pub Result-cases :
    {E A : Type 0} (r : Result E A) → ((e : E) × (r ≡ err e)) ⊎ ((a : A) × (r ≡ ok a))
Result-cases (ok a) = inr (a, refl)
Result-cases (err e) = inl (e, refl)

infixl 5 ◌>>=◌
abbrev pub ◌>>=◌ : {E A B : Type 0} → Result E A → (A → Result E B) → Result E B
ok a >>= f = f a
err e >>= f = err e

-- An encoder of values of `A` to contents of files.
pub record Codec (A B : Type 0) : Type 0 where
  pub encode : A → Option B
  pub decode : B → Option A

-- What is encoded is decoded to the value that it was.
abbrev pub IsFaithful : {A B : Type 0} → Codec A B → Type 0
IsFaithful {A} {B} c = (a : A) (b : B) → c.encode a ≡ some b → c.decode b ≡ some a
