-- ===== src/Base/Runs.antt =====
-- What C++ leaves undefined, as a value: a run that meets it is `fault`.
use mathlib.Core.Path.{◌≡◌, refl}
use mathlib.Core.Bool.{Bool, true, false}
use mathlib.Core.Option.{Option, none, some}
use spout_relay.Base.Tests.{is_some, if◌then◌else◌}

-- `null_*` is a call through an empty pointer. `thread_overwritten` is an assignment to a
-- `std::thread` that is still joinable, which ends in `std::terminate`. `thread_untold` is a `join` of
-- a thread that was not told to stop, which may never return. `unfinished` is a loop whose rounds ran
-- out before its test ended it. `uncaught_exception` is an exception that nothing catches.
pub data Fault : Type 0 where
  null_encoder null_rtsp_client null_frame_pump thread_overwritten thread_untold division_by_zero
        unfinished uncaught_exception :
      Fault

pub data Outcome {ℓ} (A : Type ℓ) : Type ℓ where
  done : A → Outcome A
  fault : Fault → Outcome A

infixl 5 ◌>>=◌
unfoldable pub ◌>>=◌ {ℓ κ} : {A : Type ℓ} {B : Type κ} → Outcome A → (A → Outcome B) → Outcome B
done a >>= f = f a
fault e >>= f = fault e

-- The pointee, or the fault of calling through the pointer.
unfoldable pub deref {ℓ} : {A : Type ℓ} → Fault → Option A → Outcome A
deref e none = fault e
deref e (some a) = done a

-- The run ends without a fault, and what it ends with has the property.
pub data Returns {ℓ} {A : Type ℓ} (P : A → Type 0) : Outcome A → Type ℓ where
  returns : {a : A} → P a → Returns P (done a)

pub bind {ℓ} :
    {A B : Type ℓ} {P : A → Type 0} {Q : B → Type 0} {m : Outcome A} {f : A → Outcome B}
    → Returns P m
    → ((a : A) → P a → Returns Q (f a))
    → Returns Q (m >>= f)
unfolding ◌>>=◌
bind (returns p) k = k _ p

pub branch {ℓ} :
    {A : Type ℓ} {P : A → Type 0} (b : Bool) {m n : Outcome A}
    → (b ≡ true → Returns P m)
    → (b ≡ false → Returns P n)
    → Returns P (if b then m else n)
unfolding if◌then◌else◌
branch true p q = p refl
branch false p q = q refl

-- The same for a test outside of a run.
pub choose {ℓ} :
    {A : Type ℓ} (P : A → Type 0) (b : Bool) {x y : A}
    → (b ≡ true → P x)
    → (b ≡ false → P y)
    → P (if b then x else y)
unfolding if◌then◌else◌
choose P true p q = p refl
choose P false p q = q refl

pub through {ℓ} :
    {A B : Type ℓ} {P : B → Type 0} (e : Fault) {o : Option A} {f : A → Outcome B}
    → is_some o ≡ true
    → ((a : A) → o ≡ some a → Returns P (f a))
    → Returns P (deref e o >>= f)
unfolding ◌>>=◌ deref
through e {o = none} h k = cc
through e {o = some a} h k = k a refl

pub weaken {ℓ} :
    {A : Type ℓ} {P Q : A → Type 0} {m : Outcome A}
    → Returns P m
    → ((a : A) → P a → Q a)
    → Returns Q m
weaken (returns p) k = returns (k _ p)

pub both {ℓ} :
    {A : Type ℓ} {P Q : A → Type 0} {m : Outcome A}
    → Returns P m
    → Returns Q m
    → Returns (λ a. P a × Q a) m
both (returns p) (returns q) = returns (p, q)
