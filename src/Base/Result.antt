-- ===== src/Base/Result.antt =====
-- A call that may raise: the value returned, or the exception.
use mathlib.Core.Path.{◌≡◌, refl}
use mathlib.Core.Bool.{Bool, true, false}

pub data Result {ℓ κ} (E : Type ℓ) (A : Type κ) : Type (ℓ ⊔ κ) where
  ok : A → Result E A
  err : E → Result E A

infixl 5 ◌>>=◌ ◌>>◌
abbrev pub ◌>>=◌ {ℓ κ μ} :
    {E : Type ℓ} {A : Type κ} {B : Type μ} → Result E A → (A → Result E B) → Result E B
err raised >>= next = err raised
ok value >>= next = next value

abbrev pub ◌>>◌ {ℓ κ} : {E : Type ℓ} {B : Type κ} → Result E (Unit {0}) → Result E B → Result E B
call >> rest = call >>= λ _. rest

-- `if test: raise e`
abbrev pub raise_if {ℓ} : {E : Type ℓ} → Bool → E → Result E (Unit {0})
raise_if false e = ok tt
raise_if true e = err e

-- A test that raises was false where the call returned.
pub raise_if-eq-ok {ℓ κ} :
    {E : Type ℓ} {B : Type κ} (b : Bool) (e : E) (k : Result E B) {v : B}
    → (raise_if b e >> k) ≡ ok v
    → (b ≡ false) × (k ≡ ok v)
raise_if-eq-ok true e k h = cc
raise_if-eq-ok false e k h = (refl, h)

-- Where a chain returned, its first call has returned too.
pub >>=-eq-ok {ℓ κ μ} :
    {E : Type ℓ} {A : Type κ} {B : Type μ} (call : Result E A) (next : A → Result E B) {value : B}
    → (call >>= next) ≡ ok value
    → (first : A) × (call ≡ ok first) × (next first ≡ ok value)
>>=-eq-ok (err raised) next returned = cc
>>=-eq-ok (ok first) next returned = (first, refl, returned)
