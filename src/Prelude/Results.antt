-- ===== src/Prelude/Results.antt =====
-- Exceptions as values: the HTTP exceptions of the services, and a plain `Error`.
use mathlib.Core.Path.{◌≡◌, refl, ap}
use mathlib.Core.Logic.{◌⊎◌, inl, inr}
use mathlib.Core.Bool.{Bool, true, false}
use mathlib.Core.Option.{Option, none, some}

-- What is thrown, without its message.
pub data Exception : Type 0 where
  not_found bad_request conflict forbidden unauthorized error : Exception

-- What a call gives back, or what it threw.
pub data Result {u} (R : Type u) : Type u where
  ok : R → Result R
  err : Exception → Result R

infixl 5 ◌>>=◌
abbrev pub ◌>>=◌ {u v} : {R : Type u} {S : Type v} → Result R → (R → Result S) → Result S
err x >>= next = err x
ok r >>= next = next r

infixl 5 ◌>>◌
abbrev pub ◌>>◌ {v} : {S : Type v} → Result (Unit {0}) → Result S → Result S
call >> next = call >>= λ done. next

-- `if (c) throw e`.
abbrev pub throw_if : Bool → Exception → Result (Unit {0})
throw_if true e = err e
throw_if false e = ok tt

abbrev pub or_throw {ℓ} : {A : Type ℓ} → Option A → Exception → Result A
or_throw none e = err e
or_throw (some a) e = ok a

pub ok-injective {ℓ} : {A : Type ℓ} {a b : A} → ok a ≡ ok b → a ≡ b
ok-injective {a} h = ap (λ r. elim r [ ok c ↦ c | err e ↦ a ]) h

pub Result-cases {ℓ} :
    {A : Type ℓ} (r : Result A) → ((a : A) × (r ≡ ok a)) ⊎ ((e : Exception) × (r ≡ err e))
Result-cases (ok a) = inl (a, refl)
Result-cases (err e) = inr (e, refl)

-- A chain that returned: its first call returned, and so did the rest on what that gave.
pub >>=-eq-ok {u v} :
    {R : Type u} {S : Type v} (first : Result R) (rest : R → Result S) {s : S}
    → (first >>= rest) ≡ ok s
    → (r : R) × (first ≡ ok r) × (rest r ≡ ok s)
>>=-eq-ok (err x) rest returned = cc
>>=-eq-ok (ok r) rest returned = (r, refl, returned)

-- Inversion of two guards that were passed.
pub guards-ok {ℓ} :
    {A : Type ℓ} {a r : A} (c d : Bool) (e f : Exception)
    → (throw_if c e >> throw_if d f >> ok a) ≡ ok r
    → (c ≡ false) × ((d ≡ false) × (a ≡ r))
guards-ok true d e f h = cc
guards-ok false true e f h = cc
guards-ok false false e f h = (refl, (refl, ok-injective h))

pub guards3-ok {ℓ} :
    {A : Type ℓ} {a r : A} (b c d : Bool) (e f g : Exception)
    → (throw_if b e >> throw_if c f >> throw_if d g >> ok a) ≡ ok r
    → (c ≡ false) × (d ≡ false) × (a ≡ r)
guards3-ok true c d e f g h = cc
guards3-ok false true d e f g h = cc
guards3-ok false false true e f g h = cc
guards3-ok false false false e f g h = (refl, refl, ok-injective h)
