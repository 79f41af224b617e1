-- ===== src/Prelude/Results.antt =====
-- What a call can do: return, fail with an error value, or panic; `hang` is no outcome of the
-- program: the fuel of a loop of the model ran out.
use mathlib.Core.Path.{◌≡◌, refl}
use mathlib.Core.Bool.{Bool, true, false}
use mathlib.Core.Option.{Option, none, some}
use qedl_rs.Prelude.Tests.{if◌then◌else◌}

pub data Outcome {ℓ κ} (E : Type ℓ) (A : Type κ) : Type (ℓ ⊔ κ) where
  ok : A → Outcome E A
  err : E → Outcome E A
  panic : Outcome E A
  hang : Outcome E A

-- The call returns a value or an error: it neither panics nor runs out of fuel.
abbrev pub Settles {ℓ κ} : {E : Type ℓ} {A : Type κ} → Outcome E A → Type 0
Settles (ok a) = Unit {0}
Settles (err e) = Unit {0}
Settles panic = ⊥
Settles hang = ⊥

infixl 5 ◌>>=◌ ◌>>◌
-- A slice or index expression: it panics unless the test holds.
abbrev pub in_bounds {ℓ} : {E : Type ℓ} → Bool → Outcome E (Unit {0})
in_bounds true = ok tt
in_bounds false = panic

-- What comes next runs on a returned value only.
abbrev pub ◌>>=◌ {ℓ κ ι} :
    {E : Type ℓ} {A : Type κ} {B : Type ι} (call : Outcome E A) (next : A → Outcome E B)
    → Outcome E B
panic >>= next = panic
hang >>= next = hang
err problem >>= next = err problem
ok value >>= next = next value

-- An early return with an error, unless the test holds.
abbrev pub guard {ℓ} : {E : Type ℓ} → Bool → (problem : E) → Outcome E (Unit {0})
guard false problem = err problem
guard true problem = ok tt

abbrev pub ◌>>◌ {ℓ κ} :
    {E : Type ℓ} {B : Type κ} (call : Outcome E (Unit {0})) (next : Outcome E B) → Outcome E B
call >> next = call >>= (λ done. next)

-- A composition that returned a value: its first call did, and so did what followed.
pub >>=-eq-ok {ℓ κ ι} :
    {E : Type ℓ} {A : Type κ} {B : Type ι} (call : Outcome E A) (next : A → Outcome E B) {b : B}
    → (call >>= next) ≡ ok b
    → (value : A) × (call ≡ ok value) × (next value ≡ ok b)
>>=-eq-ok panic next returned = cc
>>=-eq-ok hang next returned = cc
>>=-eq-ok (err problem) next returned = cc
>>=-eq-ok (ok value) next returned = (value, refl, returned)

pub Settles-bind {ℓ κ ι} :
    {E : Type ℓ} {A : Type κ} {B : Type ι} (m : Outcome E A) (f : A → Outcome E B)
    → Settles m
    → ((a : A) → m ≡ ok a → Settles (f a))
    → Settles (m >>= f)
Settles-bind (ok a) f h k = k a refl
Settles-bind (err e) f h k = tt
Settles-bind panic f h k = h
Settles-bind hang f h k = h

pub Settles-if {ℓ κ} :
    {E : Type ℓ} {A : Type κ} (b : Bool) (m n : Outcome E A)
    → (b ≡ true → Settles m)
    → (b ≡ false → Settles n)
    → Settles (if b then m else n)
Settles-if true m n h k = h refl
Settles-if false m n h k = k refl

-- `match o { None => x, Some(a) => f(a) }`
abbrev pub match_option {ℓ κ} : {A : Type ℓ} {B : Type κ} → Option A → B → (A → B) → B
match_option none x f = x
match_option (some a) x f = f a

pub Settles-match_option {ℓ κ ι} :
    {E : Type ℓ} {A : Type κ} {B : Type ι} (o : Option B) (m : Outcome E A) (f : B → Outcome E A)
    → (o ≡ none → Settles m)
    → ((b : B) → o ≡ some b → Settles (f b))
    → Settles (match_option o m f)
Settles-match_option none m f h k = h refl
Settles-match_option (some b) m f h k = k b refl

-- What an `if` returns, once its test is known.
pub if-eq_of_true {ℓ} :
    {A : Type ℓ} (b : Bool) (x y : A) {z : A} → b ≡ true → (if b then x else y) ≡ z → x ≡ z
if-eq_of_true true x y h e = e
if-eq_of_true false x y h e = cc

pub if-eq_of_false {ℓ} :
    {A : Type ℓ} (b : Bool) (x y : A) {z : A} → b ≡ false → (if b then x else y) ≡ z → y ≡ z
if-eq_of_false true x y h e = cc
if-eq_of_false false x y h e = e

pub ok_inj {ℓ κ} :
    {E : Type ℓ} {A : Type κ} {a b : A} {x : Outcome E A} → x ≡ ok a → x ≡ ok b → a ≡ b
ok_inj h k = cc

-- What follows an index expression that did not panic.
pub in_bounds->>-eq-ok {ℓ κ} :
    {E : Type ℓ} {A : Type κ} (b : Bool) (m : Outcome E A) {a : A}
    → (in_bounds b >> m) ≡ ok a
    → (b ≡ true) × (m ≡ ok a)
in_bounds->>-eq-ok true m h = (refl, h)
in_bounds->>-eq-ok false m h = cc

pub guard->>-eq-ok {ℓ κ} :
    {E : Type ℓ} {A : Type κ} (b : Bool) (e : E) (m : Outcome E A) {a : A}
    → (guard b e >> m) ≡ ok a
    → (b ≡ true) × (m ≡ ok a)
guard->>-eq-ok true e m h = (refl, h)
guard->>-eq-ok false e m h = cc
