-- ===== src/Raises/Ensures.antt =====
-- What holds of the result of code that may raise, with a rule for each step of a `do` block.
use avvalo.Prelude.{String, Bool, true, false, ◌≡◌, refl, subst}
use avvalo.Raises.{Raises, ok, raised, ◌>>=◌, ◌>>◌, require}

pub data Ensures {A : Type 0} (P : A → Type 0) : Raises A → Type 0 where
  returns : {a : A} → P a → Ensures P (ok a)
  fails : {error : String} → Ensures P (raised error)

-- The result of the first step is known by what it ensures.
pub Ensures-bind :
    {A B : Type 0} {P : A → Type 0} {Q : B → Type 0} {m : Raises A} {f : A → Raises B}
    → Ensures P m
    → ((a : A) → P a → Ensures Q (f a))
    → Ensures Q (m >>= f)
Ensures-bind (Ensures.returns h) k = k _ h
Ensures-bind Ensures.fails k = Ensures.fails

-- Nothing is needed of it.
pub Ensures-then :
    {A B : Type 0} {Q : B → Type 0} (m : Raises A) (f : A → Raises B)
    → ((a : A) → Ensures Q (f a))
    → Ensures Q (m >>= f)
Ensures-then (ok a) f k = k a
Ensures-then (raised error) f k = Ensures.fails

-- The result of the first step is what it is.
pub Ensures-step :
    {A B : Type 0} {Q : B → Type 0} (m : Raises A) (f : A → Raises B)
    → ((a : A) → m ≡ ok a → Ensures Q (f a))
    → Ensures Q (m >>= f)
Ensures-step (ok a) f k = k a refl
Ensures-step (raised error) f k = Ensures.fails

pub Ensures-require :
    {B : Type 0} {Q : B → Type 0} (test : Bool) (error : String) (m : Raises B)
    → (test ≡ true → Ensures Q m)
    → Ensures Q (require test error >> m)
Ensures-require true error m h = h refl
Ensures-require false error m h = Ensures.fails

Inverted : {A : Type 0} (P : A → Type 0) (m : Raises A) → Type 0
Inverted P (ok a) = P a
Inverted P (raised error) = Unit

inversion : {A : Type 0} {P : A → Type 0} {m : Raises A} → Ensures P m → Inverted P m
unfolding Inverted
inversion (Ensures.returns h) = h
inversion Ensures.fails = tt

pub Ensures-ok : {A : Type 0} {P : A → Type 0} (m : Raises A) (a : A) → Ensures P m → m ≡ ok a → P a
unfolding Inverted
Ensures-ok {A = A} {P = P} m a h e = subst (Inverted P) e (inversion h)

pub Ensures-map :
    {A : Type 0} {P Q : A → Type 0} {m : Raises A}
    → ((a : A) → P a → Q a)
    → Ensures P m
    → Ensures Q m
Ensures-map k (Ensures.returns h) = Ensures.returns (k _ h)
Ensures-map k Ensures.fails = Ensures.fails

-- A test at the end of a block
pub Ensures-last :
    {P : Unit {0} → Type 0} (test : Bool) (error : String)
    → (test ≡ true → P tt)
    → Ensures P (require test error)
Ensures-last true error h = Ensures.returns (h refl)
Ensures-last false error h = Ensures.fails
