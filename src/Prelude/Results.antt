-- ===== src/Prelude/Results.antt =====
-- A Go call that returns `(A, error)`: a value, or the error that it returned in its place.
use mathlib.Core.Path.{◌≡◌, refl}
use mathlib.Core.Bool.{Bool, true, false}

pub data Result {ℓ κ} (E : Type κ) (A : Type ℓ) : Type (ℓ ⊔ κ) where
  ok : A → Result E A
  err : E → Result E A

-- `a, err := m; if err != nil { return err }; …`
abbrev pub ◌>>=◌ {u v w} :
    {Err : Type u} {Val : Type v} {Out : Type w}
    → Result Err Val
    → (Val → Result Err Out)
    → Result Err Out
◌>>=◌ (err failure) _ = err failure
◌>>=◌ (ok value) next = next value

-- `if err := m; err != nil { return err }; …`
abbrev pub ◌>>◌ {u w} :
    {Err : Type u} {Out : Type w} → Result Err (Unit {0}) → Result Err Out → Result Err Out
◌>>◌ (err failure) _ = err failure
◌>>◌ (ok _) rest = rest

infixl 5 ◌>>=◌ ◌>>◌
-- `if bad { return e }`
abbrev pub fail_if {κ} : {E : Type κ} → Bool → E → Result E (Unit {0})
fail_if true e = err e
fail_if false e = ok tt

-- `fmt.Errorf("…: %w", err)`
abbrev pub map_err {ℓ κ ι} :
    {D : Type κ} {E : Type ι} {A : Type ℓ} → (D → E) → Result D A → Result E A
map_err f (ok a) = ok a
map_err f (err e) = err (f e)

abbrev pub is_ok {ℓ κ} : {E : Type κ} {A : Type ℓ} → Result E A → Bool
is_ok (ok a) = true
is_ok (err e) = false

pub >>=-eq-ok {u v w} :
    {Err : Type u} {Val : Type v} {Out : Type w} (step : Result Err Val)
    (next : Val → Result Err Out) {out : Out}
    → (step >>= next) ≡ ok out
    → (value : Val) × (step ≡ ok value) × (next value ≡ ok out)
>>=-eq-ok (err failure) next h = cc
>>=-eq-ok (ok value) next h = (value, refl, h)

pub >>-eq-ok {ι κ} :
    {E : Type κ} {B : Type ι} (m : Result E (Unit {0})) (k : Result E B) {b : B}
    → (m >> k) ≡ ok b
    → (m ≡ ok tt) × (k ≡ ok b)
>>-eq-ok (ok tt) k h = (refl, h)
>>-eq-ok (err e) k h = cc

pub fail_if-eq-ok {κ ι} :
    {E : Type κ} {B : Type ι} (t : Bool) (e : E) (k : Result E B) {b : B}
    → (fail_if t e >> k) ≡ ok b
    → (t ≡ false) × (k ≡ ok b)
fail_if-eq-ok true e k h = cc
fail_if-eq-ok false e k h = (refl, h)

-- a Go function that returns only `error`
abbrev pub Check {κ} : Type κ → Type κ
Check E = Result E (Unit {0})

pub is_ok_unit {κ} : {E : Type κ} (r : Check E) → is_ok r ≡ true → r ≡ ok tt
is_ok_unit (ok tt) h = refl
is_ok_unit (err e) h = cc

pub ok-injective {ℓ κ} :
    {E : Type κ} {A : Type ℓ} {a b : A} → ◌≡◌ {A = Result E A} (ok a) (ok b) → a ≡ b
ok-injective h = cc
