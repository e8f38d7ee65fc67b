-- ===== src/Common/Errors.antt =====
-- What a C++ function of the extension returns: a value, or the exception that it throws. The
-- exception's class is kept, its message is not.
-- `out_of_fuel` is no exception: it marks a loop of the model that was given too few rounds.
use mathlib.Core.Path.{◌≡◌, refl, subst}
use native.Mathlib.Omega.{arith}

pub data Error : Type 0 where
  invalid_input io_error not_implemented internal conversion binder runtime_error : Error
  out_of_fuel : Error

pub data Result {ℓ} (X : Type ℓ) : Type ℓ where
  ok : X → Result X
  err : Error → Result X

-- The rest of a function behind a call that may throw.
infixl 5 ◌>>=◌
abbrev pub ◌>>=◌ {ℓ κ} : {X : Type ℓ} {Y : Type κ} → Result X → (X → Result Y) → Result Y
err thrown >>= rest = err thrown
ok x >>= rest = rest x

pub >>=-assoc {ℓ κ λ'} :
    {A : Type ℓ} {B : Type κ} {C : Type λ'} (m : Result A) (f : A → Result B) (g : B → Result C)
    → ((m >>= f) >>= g) ≡ (m >>= λ a. f a >>= g)
>>=-assoc (ok a) f g = refl
>>=-assoc (err e) f g = refl

-- What holds of the value, if a value is returned.
abbrev pub Ok {ℓ κ} : {A : Type ℓ} → (A → Type κ) → Result A → Type κ
Ok P (ok a) = P a
Ok P (err e) = Unit

pub Ok-bind {ℓ κ λ' μ} :
    {A : Type ℓ} {B : Type κ} (Q : A → Type λ') (P : B → Type μ) (m : Result A) (f : A → Result B)
    → Ok Q m
    → ((a : A) → Q a → Ok P (f a))
    → Ok P (m >>= f)
Ok-bind Q P (ok a) f h k = k a h
Ok-bind Q P (err e) f h k = tt

pub Ok-elim {ℓ κ} : {A : Type ℓ} (P : A → Type κ) (m : Result A) {a : A} → Ok P m → m ≡ ok a → P a
Ok-elim P (ok b) h e = subst P (ground arith) h
Ok-elim P (err x) h e = cc

pub ok-injective {ℓ} : {A : Type ℓ} {a b : A} → ok a ≡ ok b → a ≡ b
ok-injective e = cc

-- A call that a function returns behind has returned.
pub bind-ok {ℓ κ} :
    {A : Type ℓ} {B : Type κ} (m : Result A) (f : A → Result B) (b : B)
    → (m >>= f) ≡ ok b
    → (a : A) × (m ≡ ok a) × (f a ≡ ok b)
bind-ok (ok a) f b h = (a, refl, h)
bind-ok (err e) f b h = absurd cc
