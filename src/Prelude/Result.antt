-- ===== src/Prelude/Result.antt =====
-- What a Python call does: it returns, or it raises.
use mathlib.Core.Path.{◌≡◌, refl, ap}
use mathlib.Core.Logic.{◌⊎◌, inl, inr}
use mathlib.Core.List.{List, [], ◌∷◌}
use mathlib.Core.Option.{Option, none, some}

-- The classes of exceptions that the handlers tell apart. `other` is any class that no `except`
-- clause of the program names, such as RuntimeError and the errors of the RPC client.
pub data Exn : Type 0 where
  key_error value_error type_error index_error other : Exn

pub data Result {ℓ} (V : Type ℓ) : Type ℓ where
  ok : V → Result V
  raise : Exn → Result V

-- The statement after a call runs only where the call returned.
infixl 5 ◌>>=◌ ◌>>◌
abbrev pub ◌>>=◌ {ℓ μ} : {V : Type ℓ} {W : Type μ} → Result V → (V → Result W) → Result W
raise exn >>= next = raise exn
ok v >>= next = next v

abbrev pub ◌>>◌ {μ} : {W : Type μ} → Result (Unit {0}) → Result W → Result W
first >> next = first >>= λ done. next

abbrev pub or_raise {ℓ} : {A : Type ℓ} → Exn → Option A → Result A
or_raise e none = raise e
or_raise e (some a) = ok a

-- `[f(x) for x in l]`: the first exception ends it
abbrev pub traverse {ℓ κ} : {A : Type ℓ} {B : Type κ} → (A → Result B) → List A → Result (List B)
traverse f [] = ok []
traverse f (x ∷ xs) = do y ← f x; ys ← traverse f xs; ok (y ∷ ys)

-- A sequence that returned did so from its first call on.
pub >>=-eq-ok {ℓ μ} :
    {V : Type ℓ} {W : Type μ} (call : Result V) (next : V → Result W) {w : W}
    → (call >>= next) ≡ ok w
    → (v : V) × (call ≡ ok v) × (next v ≡ ok w)
>>=-eq-ok (raise exn) next h = cc
>>=-eq-ok (ok v) next h = (v, refl, h)

pub Result-cases {ℓ} :
    {A : Type ℓ} (r : Result A) → ((a : A) × (r ≡ ok a)) ⊎ ((e : Exn) × (r ≡ raise e))
Result-cases (ok a) = inl (a, refl)
Result-cases (raise e) = inr (e, refl)

abbrev value_of {ℓ} : {A : Type ℓ} → A → Result A → A
value_of d (ok a) = a
value_of d (raise e) = d

pub ok-injective {ℓ} : {A : Type ℓ} (a b : A) → ◌≡◌ {A = Result A} (ok a) (ok b) → a ≡ b
ok-injective a b h = ap (value_of a) h

pub raise≢ok {ℓ} : {A : Type ℓ} {e : Exn} {a : A} → ◌≡◌ {A = Result A} (raise e) (ok a) → ⊥
raise≢ok h = cc
