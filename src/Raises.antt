-- ===== src/Raises.antt =====
-- Code that may raise: the result, or the name of the exception's class.
pub mod Ensures
use avvalo.Prelude.{String, Bool, true, false}

pub data Raises {ℓ} (A : Type ℓ) : Type ℓ where
  ok : A → Raises A
  raised : String → Raises A

infixl 5 ◌>>=◌ ◌>>◌
abbrev pub ◌>>=◌ {ℓ κ} : {A : Type ℓ} {B : Type κ} → Raises A → (A → Raises B) → Raises B
ok a >>= f = f a
raised e >>= f = raised e

abbrev pub ◌>>◌ {ℓ} : {B : Type ℓ} → Raises (Unit {0}) → Raises B → Raises B
m >> k = m >>= λ _. k

-- `if not test: raise error(…)`
abbrev pub require : Bool → String → Raises (Unit {0})
require true error = ok tt
require false error = raised error

abbrev pub raises {ℓ} : {A : Type ℓ} → Raises A → Bool
raises (ok a) = false
raises (raised e) = true
