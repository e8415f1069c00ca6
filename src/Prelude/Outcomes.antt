-- ===== src/Prelude/Outcomes.antt =====
-- A call returns a value, returns an error, or panics (`expect`, a slice out of range).
use mathlib.Core.Path.{◌≡◌, refl}
use mathlib.Core.Logic.{◌≢◌}
use mathlib.Core.Bool.{Bool, true, false}
use mathlib.Core.Option.{Option, none, some}

pub data Outcome {ℓ κ} (E : Type ℓ) (A : Type κ) : Type (ℓ ⊔ κ) where
  ok : A → Outcome E A
  err : E → Outcome E A
  panic : Outcome E A

infixl 5 ◌>>=◌ ◌>>◌
abbrev pub ◌>>=◌ {ℓ κ μ} :
    {E : Type ℓ} {A : Type κ} {B : Type μ} → Outcome E A → (A → Outcome E B) → Outcome E B
ok a >>= f = f a
err e >>= f = err e
panic >>= f = panic

abbrev pub ◌>>◌ {ℓ κ μ} :
    {E : Type ℓ} {A : Type κ} {B : Type μ} → Outcome E A → Outcome E B → Outcome E B
m >> k = m >>= λ _. k

-- `Option::and_then`, and `?` on an `Option`
abbrev pub and_then {ℓ κ} : {A : Type ℓ} {B : Type κ} → Option A → (A → Option B) → Option B
and_then none f = none
and_then (some a) f = f a

-- `if test { return Err(e) }`
abbrev pub reject_if {ℓ} : {E : Type ℓ} → Bool → E → Outcome E (Unit {0})
reject_if true e = err e
reject_if false e = ok tt

-- `ok_or`
abbrev pub ok_or {ℓ κ} : {E : Type ℓ} {A : Type κ} → Option A → E → Outcome E A
ok_or none e = err e
ok_or (some a) e = ok a

-- `expect` on an `Option`
abbrev pub expect_some {ℓ κ} : {E : Type ℓ} {A : Type κ} → Option A → Outcome E A
expect_some none = panic
expect_some (some a) = ok a

-- `expect` on a `Result`
abbrev pub expect_ok {ℓ κ μ} : {E : Type ℓ} {F : Type κ} {A : Type μ} → Outcome F A → Outcome E A
expect_ok (ok a) = ok a
expect_ok (err e) = panic
expect_ok panic = panic

abbrev pub map_err {ℓ κ μ} :
    {E : Type ℓ} {F : Type κ} {A : Type μ} → (F → E) → Outcome F A → Outcome E A
map_err f (ok a) = ok a
map_err f (err e) = err (f e)
map_err f panic = panic

module _ {ℓ κ μ} {E : Type ℓ} {A : Type κ} {B : Type μ} where
  -- Inversion of a successful bind.
  pub >>=-eq-ok :
      (call : Outcome E A) (next : A → Outcome E B) {end : B}
      → (call >>= next) ≡ ok end
      → (mid : A) × (call ≡ ok mid) × (next mid ≡ ok end)
  >>=-eq-ok (err _) next returned = cc
  >>=-eq-ok panic next returned = cc
  >>=-eq-ok (ok mid) next returned = (mid, refl, returned)

pub reject_if-eq-ok {ℓ} :
    {E : Type ℓ} (b : Bool) (e : E) {u : Unit {0}} → reject_if b e ≡ ok u → b ≡ false
reject_if-eq-ok true e h = cc
reject_if-eq-ok false e h = refl

module _ {ℓ κ μ} {E : Type ℓ} {A : Type κ} {B : Type μ} where
  -- A bind panics only if one of its parts does.
  pub >>=-ne-panic :
      (m : Outcome E A) (f : A → Outcome E B)
      → m ≢ panic
      → ((a : A) → m ≡ ok a → f a ≢ panic)
      → (m >>= f) ≢ panic
  >>=-ne-panic (ok a) f hm hf = hf a refl
  >>=-ne-panic (err e) f hm hf = λ h. cc
  >>=-ne-panic panic f hm hf = λ h. hm refl

pub reject_if-ne-panic {ℓ} : {E : Type ℓ} (b : Bool) (e : E) → reject_if b e ≢ panic
reject_if-ne-panic true e = λ h. cc
reject_if-ne-panic false e = λ h. cc

pub ok_or-eq-ok {ℓ κ} :
    {E : Type ℓ} {A : Type κ} (o : Option A) (e : E) {a : A} → ok_or o e ≡ ok a → o ≡ some a
ok_or-eq-ok none e h = cc
ok_or-eq-ok (some a) e h = cc

module _ {ℓ κ} {A : Type ℓ} {B : Type κ} where
  pub and_then-eq-some :
      (o : Option A) (f : A → Option B) {b : B}
      → and_then o f ≡ some b
      → (a : A) × (o ≡ some a) × (f a ≡ some b)
  and_then-eq-some none f h = cc
  and_then-eq-some (some a) f h = (a, refl, h)

pub map_err-eq-ok {ℓ κ μ} :
    {E : Type ℓ} {F : Type κ} {A : Type μ} (f : F → E) (m : Outcome F A) {a : A}
    → map_err f m ≡ ok a
    → m ≡ ok a
map_err-eq-ok f (ok b) h = cc
map_err-eq-ok f (err e) h = cc
map_err-eq-ok f panic h = cc
