-- ===== src/Prelude/Results.antt =====
-- What keeps a goroutine from going on, as values. A panic takes the process down, so there is no state
-- then. A goroutine that waits for good (`deadlock`) ends there alone: the process goes on with the
-- state that it had, less the mutex that is held.
use mathlib.Core.Path.{◌≡◌, refl, ap}
use mathlib.Core.Logic.{◌⊎◌, inl, inr}
use mathlib.Core.Option.{Option, none, some}

pub data Fault : Type 0 where
  -- a nil pointer is followed
  nil_dereference : Fault
  -- an index or a slice bound is out of range
  out_of_range : Fault
  -- an integer is divided by zero
  zero_division : Fault
  -- `zlog.Error` was called: it panics with its message
  logged_error : Fault
  -- the code calls `panic`
  raised : Fault
  -- the goroutine waits for a mutex that it holds itself, and so for good; the others go on
  deadlock : Fault
  -- the goroutine polls or waits for a channel: it takes the step in a later state
  blocked : Fault
  -- a loop of the model used up its fuel
  out_of_fuel : Fault

pub data Result {ℓ} (A : Type ℓ) : Type ℓ where
  -- the goroutine gets no further, for this reason
  panic : Fault → Result A
  -- the call has returned
  ok : A → Result A

infixl 5 ◌>>=◌
abbrev pub ◌>>=◌ {ℓ κ} : {A : Type ℓ} {B : Type κ} → Result A → (A → Result B) → Result B
panic fault >>= rest = panic fault
ok value >>= rest = rest value

-- Following a pointer, reading a map's entry, or parsing, where the code panics if there is none.
abbrev pub or_panic {ℓ} : {A : Type ℓ} → Option A → Fault → Result A
or_panic (some value) fault = ok value
or_panic none fault = panic fault

pub >>=-eq-ok {κ ℓ} :
    {A : Type κ} {B : Type ℓ} (r : Result A) (rest : A → Result B) {value : B}
    → (r >>= rest) ≡ ok value
    → (first : A) × (r ≡ ok first) × (rest first ≡ ok value)
>>=-eq-ok (panic fault) rest e = cc
>>=-eq-ok (ok first) rest e = (first, refl, e)

pub Result-cases {ℓ} :
    {A : Type ℓ} (r : Result A) → ((fault : Fault) × (r ≡ panic fault)) ⊎ ((a : A) × (r ≡ ok a))
Result-cases (panic fault) = inl (fault, refl)
Result-cases (ok a) = inr (a, refl)

pub ok-inj {ℓ} : {A : Type ℓ} {x y : A} → ok x ≡ ok y → x ≡ y
ok-inj e = cc

pub ok-not-panic {ℓ} : {A : Type ℓ} {value : A} {fault : Fault} → ok value ≡ panic fault → ⊥
ok-not-panic e = cc

pub or_panic-ok {ℓ} :
    {A : Type ℓ} (o : Option A) (fault : Fault) {value : A}
    → or_panic o fault ≡ ok value
    → o ≡ some value
or_panic-ok none fault h = cc
or_panic-ok (some v) fault h = ap some (ok-inj h)
