-- ===== src/Prelude/Early.antt =====
-- The control flow of a Python function with early returns: a stage goes on, returns early with a
-- reply, or raises.
use mathlib.Core.Path.{subst, ◌≡◌, refl, ap}
use mathlib.Core.Logic.{◌⊎◌, inl, inr}
use mathlib.Core.Bool.{Bool, true, false}
use mathlib.Core.Option.{Option, none, some}
use based_ai.Prelude.Result.{Exn, Result, ok, raise}

pub data Early {ℓ} (R : Type 0) (A : Type ℓ) : Type ℓ where
  go : A → Early R A
  stop : R → Early R A
  fail : Exn → Early R A

infixl 5 ◌>>=◌ ◌>>◌
abbrev pub ◌>>=◌ {ℓ κ} :
    {R : Type 0} {A : Type ℓ} {B : Type κ} → Early R A → (A → Early R B) → Early R B
go a >>= f = f a
stop reply >>= f = stop reply
fail e >>= f = fail e

abbrev pub ◌>>◌ {ℓ} : {R : Type 0} {B : Type ℓ} → Early R (Unit {0}) → Early R B → Early R B
m >> k = m >>= λ _. k

abbrev pub lift {ℓ} : {R : Type 0} {A : Type ℓ} → Result A → Early R A
lift (ok a) = go a
lift (raise e) = fail e

-- `if failed: return reply`
abbrev pub refuse_if : {R : Type 0} → Bool → R → Early R (Unit {0})
refuse_if true reply = stop reply
refuse_if false reply = go tt

-- `if error: return error`
abbrev pub stop_if : {R : Type 0} → Option R → Early R (Unit {0})
stop_if none = go tt
stop_if (some reply) = stop reply

-- A stage that went on did so through its first part.
pub >>=-eq-go {ℓ μ} :
    {R : Type 0} {V : Type ℓ} {W : Type μ} (stage : Early R V) (next : V → Early R W) {w : W}
    → (stage >>= next) ≡ go w
    → (v : V) × (stage ≡ go v) × (next v ≡ go w)
>>=-eq-go (stop reply) next h = cc
>>=-eq-go (fail exn) next h = cc
>>=-eq-go (go v) next h = (v, refl, h)

pub lift-eq-go {ℓ} :
    {R : Type 0} {A : Type ℓ} (r : Result A) {a : A} → lift {R = R} r ≡ go a → r ≡ ok a
lift-eq-go (ok a) h = cc
lift-eq-go (raise e) h = cc

pub refuse_if-eq-go :
    {R : Type 0} (b : Bool) (reply : R) {u : Unit {0}} → refuse_if b reply ≡ go u → b ≡ false
refuse_if-eq-go true reply h = cc
refuse_if-eq-go false reply h = refl

pub stop_if-eq-go : {R : Type 0} (o : Option R) {u : Unit {0}} → stop_if o ≡ go u → o ≡ none
stop_if-eq-go none h = refl
stop_if-eq-go (some reply) h = cc

abbrev value_of {ℓ} : {R : Type 0} {A : Type ℓ} → A → Early R A → A
value_of d (go a) = a
value_of d _ = d

pub go-injective {ℓ} :
    {R : Type 0} {A : Type ℓ} (a b : A) → ◌≡◌ {A = Early R A} (go a) (go b) → a ≡ b
go-injective a b h = ap (value_of a) h

-- Whatever the stage goes on with has the property.
pub record Ensures {ℓ} {R : Type 0} {A : Type ℓ} (P : A → Type 0) (m : Early R A) : Type ℓ where
  pub at : (a : A) → m ≡ go a → P a

pub Ensures-go {ℓ} :
    {R : Type 0} {A : Type ℓ} {P : A → Type 0} (a : A) → P a → Ensures {R = R} P (go a)
Ensures-go {P = P} a p = record { at = λ b h. subst P (go-injective a b h) p }

pub Ensures-bind {ℓ κ} :
    {R : Type 0} {A : Type ℓ} {B : Type κ} {P : B → Type 0} (m : Early R A) {f : A → Early R B}
    → ((a : A) → m ≡ go a → Ensures P (f a))
    → Ensures P (m >>= f)
Ensures-bind m each = record {
  at = λ b h. let (a, first, rest) = >>=-eq-go m _ h in (each a first).at b rest;
}

pub Early-cases {ℓ} :
    {R : Type 0} {A : Type ℓ} (m : Early R A)
    → ((a : A) × (m ≡ go a)) ⊎ (((reply : R) × (m ≡ stop reply)) ⊎ ((e : Exn) × (m ≡ fail e)))
Early-cases (go a) = inl (a, refl)
Early-cases (stop reply) = inr (inl (reply, refl))
Early-cases (fail e) = inr (inr (e, refl))
