-- ===== src/Config/Env.antt =====
-- `_expand_env` of the configurations: which values it expands, and what it leaves.
use mathlib.Core.Path.{subst}
use based_ai.Prelude.{
  ◌≡◌, refl, Bool, true, false, not, ◌&&◌, ◌||◌, Option, none, some, arith, Bool-cases,
  Option-cases, inl, inr,
}
use based_ai.Prelude.Result.{Result, ok, raise, key_error, ◌>>=◌, >>=-eq-ok, ok-injective, raise≢ok}
use based_ai.Prelude.Text.{Str}
use based_ai.Prelude.Json.{Json, Items, Fields, str, arr, obj, nil, cons, end, field}
use based_ai.Config.{is_reference, name_of, expand_text, expand_env, expand_items, expand_fields}

and-true : {p q : Bool} → (p && q) ≡ true → (p ≡ true) × (q ≡ true)
and-true h = ground arith

and-intro : {p q : Bool} → p ≡ true → q ≡ true → (p && q) ≡ true
and-intro h g = ground arith

abbrev is_some : {A : Type 0} → Option A → Bool
is_some none = false
is_some (some a) = true

-- A test of all texts in a value.
module _ (test : Str → Bool) where
  abbrev mutual
    pub every_text : Json → Bool
    every_text (str s) = test s
    every_text (arr vs) = every_item vs
    every_text (obj fs) = every_field fs
    every_text _ = true

    pub every_item : Items → Bool
    every_item nil = true
    every_item (cons v vs) = every_text v && every_item vs

    pub every_field : Fields → Bool
    every_field end = true
    every_field (field k v fs) = every_text v && every_field fs

abbrev pub is_plain : Str → Bool
is_plain s = not (is_reference s)

module _ (environ : Str → Option Str) where
  -- The text names no variable, or one that is set.
  abbrev pub is_set : Str → Bool
  is_set s = not (is_reference s) || is_some (environ (name_of s))

  -- A value is returned where the flag is up, and KeyError raised where it is not.
  abbrev pub Returns : {A : Type 0} → Bool → Result A → Type 0
  Returns {A} true r = (a : A) × (r ≡ ok a)
  Returns false r = r ≡ raise key_error

  Returns-and :
      {A B : Type 0} (p q : Bool) (r : Result A) (t : Result B) {C : Type 0} (join : A → B → C)
      → Returns p r
      → Returns q t
      → Returns (p && q) (do a ← r; b ← t; ok (join a b))
  Returns-and true true r t join (a, first) (b, second) = (join a b, rw (first, second) refl)
  Returns-and true false r t join (a, first) second = rw (first, second) refl
  Returns-and false q r t join first second = rw first refl

  Returns-map :
      {A C : Type 0} (p : Bool) (r : Result A) (wrap : A → C)
      → Returns p r
      → Returns p (do a ← r; ok (wrap a))
  Returns-map true r wrap (a, first) = (wrap a, rw first refl)
  Returns-map false r wrap first = rw first refl

  expand_text-Returns : (s : Str) → Returns (is_set s) (expand_text environ s)
  expand_text-Returns s = elim (Bool-cases (is_reference s)) [
    | inr plain ↦ rw plain (s, refl)
    | inl named ↦ elim (Option-cases (environ (name_of s))) [
      | inl unset ↦ rw (named, unset) refl
      | inr (v, set) ↦ rw (named, set) (v, refl)
    ]
  ]

  mutual
    unfolding expand_env

    value-Returns : (v : Json) → Returns (every_text is_set v) (expand_env environ v)
    value-Returns (str s) =
        Returns-map (is_set s) (expand_text environ s) str (expand_text-Returns s)
    value-Returns (arr vs) =
        Returns-map (every_item is_set vs) (expand_items environ vs) arr (items-Returns vs)
    value-Returns (obj fs) =
        Returns-map (every_field is_set fs) (expand_fields environ fs) obj (fields-Returns fs)
    value-Returns Json.null = (Json.null, refl)
    value-Returns (Json.bool b) = (Json.bool b, refl)
    value-Returns (Json.int n) = (Json.int n, refl)
    value-Returns (Json.real n text) = (Json.real n text, refl)

    items-Returns : (vs : Items) → Returns (every_item is_set vs) (expand_items environ vs)
    items-Returns nil = (nil, refl)
    items-Returns (cons v vs) =
        Returns-and (every_text is_set v) (every_item is_set vs) (expand_env environ v)
          (expand_items environ vs) cons (value-Returns v) (items-Returns vs)

    fields-Returns : (fs : Fields) → Returns (every_field is_set fs) (expand_fields environ fs)
    fields-Returns end = (end, refl)
    fields-Returns (field k v fs) =
        Returns-and (every_text is_set v) (every_field is_set fs) (expand_env environ v)
          (expand_fields environ fs) (field k) (value-Returns v) (fields-Returns fs)

  -- A configuration is expanded where every variable that its texts name is set; where one is not,
  -- KeyError is raised.
  pub expand_env-Returns : (v : Json) → Returns (every_text is_set v) (expand_env environ v)
  expand_env-Returns = value-Returns

-- Nothing changes where no text is a reference.
module _ (environ : Str → Option Str) where
  expand_text-plain : (s : Str) → is_plain s ≡ true → expand_text environ s ≡ ok s
  expand_text-plain s h = ground arith

  mutual
    unfolding expand_env

    value-plain : (v : Json) → every_text is_plain v ≡ true → expand_env environ v ≡ ok v
    value-plain (str s) h = rw (expand_text-plain s h) refl
    value-plain (arr vs) h = rw (items-plain vs h) refl
    value-plain (obj fs) h = rw (fields-plain fs h) refl
    value-plain Json.null h = refl
    value-plain (Json.bool b) h = refl
    value-plain (Json.int n) h = refl
    value-plain (Json.real n text) h = refl

    items-plain : (vs : Items) → every_item is_plain vs ≡ true → expand_items environ vs ≡ ok vs
    items-plain nil h = refl
    items-plain (cons v vs) h =
        let (first, rest) = and-true h in rw (value-plain v first) (rw (items-plain vs rest) refl)

    fields-plain : (fs : Fields) → every_field is_plain fs ≡ true → expand_fields environ fs ≡ ok fs
    fields-plain end h = refl
    fields-plain (field k v fs) h =
        let (first, rest) = and-true h in rw (value-plain v first) (rw (fields-plain fs rest) refl)

-- The values of the variables are no references.
module _ (environ : Str → Option Str)
    (closed : (name v : Str) → environ name ≡ some v → is_plain v ≡ true) where
  expand_text-closed : (s t : Str) → expand_text environ s ≡ ok t → is_plain t ≡ true
  expand_text-closed s t h = elim (Bool-cases (is_reference s)) [
    | inr plain ↦ subst (λ x. is_plain x ≡ true) (ok-injective s t (rw plain at h)) (rw plain refl)
    | inl named ↦ elim (Option-cases (environ (name_of s))) [
      | inl unset ↦ absurd (raise≢ok (rw (named, unset) at h))
      | inr (v, set) ↦
          subst (λ x. is_plain x ≡ true) (ok-injective v t (rw (named, set) at h))
            (closed (name_of s) v set)
    ]
  ]

  mutual
    unfolding expand_env

    value-closed : (v u : Json) → expand_env environ v ≡ ok u → every_text is_plain u ≡ true
    value-closed (str s) u h =
        let (t, first, same) = >>=-eq-ok (expand_text environ s) _ h in
        subst (λ j. every_text is_plain j ≡ true) (ok-injective (str t) u same)
          (expand_text-closed s t first)
    value-closed (arr vs) u h =
        let (t, first, same) = >>=-eq-ok (expand_items environ vs) _ h in
        subst (λ j. every_text is_plain j ≡ true) (ok-injective (arr t) u same)
          (items-closed vs t first)
    value-closed (obj fs) u h =
        let (t, first, same) = >>=-eq-ok (expand_fields environ fs) _ h in
        subst (λ j. every_text is_plain j ≡ true) (ok-injective (obj t) u same)
          (fields-closed fs t first)
    value-closed Json.null u h =
        subst (λ j. every_text is_plain j ≡ true) (ok-injective Json.null u h) refl
    value-closed (Json.bool b) u h =
        subst (λ j. every_text is_plain j ≡ true) (ok-injective (Json.bool b) u h) refl
    value-closed (Json.int n) u h =
        subst (λ j. every_text is_plain j ≡ true) (ok-injective (Json.int n) u h) refl
    value-closed (Json.real n text) u h =
        subst (λ j. every_text is_plain j ≡ true) (ok-injective (Json.real n text) u h) refl

    items-closed : (vs us : Items) → expand_items environ vs ≡ ok us → every_item is_plain us ≡ true
    items-closed nil us h = subst (λ j. every_item is_plain j ≡ true) (ok-injective nil us h) refl
    items-closed (cons v vs) us h =
        let (t, first, next) = >>=-eq-ok (expand_env environ v) _ h in
        let (ts, rest, same) = >>=-eq-ok (expand_items environ vs) _ next in
        subst (λ j. every_item is_plain j ≡ true) (ok-injective (cons t ts) us same)
          (and-intro (value-closed v t first) (items-closed vs ts rest))

    fields-closed :
        (fs us : Fields) → expand_fields environ fs ≡ ok us → every_field is_plain us ≡ true
    fields-closed end us h = subst (λ j. every_field is_plain j ≡ true) (ok-injective end us h) refl
    fields-closed (field k v fs) us h =
        let (t, first, next) = >>=-eq-ok (expand_env environ v) _ h in
        let (ts, rest, same) = >>=-eq-ok (expand_fields environ fs) _ next in
        subst (λ j. every_field is_plain j ≡ true) (ok-injective (field k t ts) us same)
          (and-intro (value-closed v t first) (fields-closed fs ts rest))

  -- Where no variable has a reference as its value, what was expanded has none left: to expand it
  -- again, in whatever environment, gives it back.
  pub expand_env-again :
      (later : Str → Option Str) (v u : Json)
      → expand_env environ v ≡ ok u
      → expand_env later u ≡ ok u
  expand_env-again later v u h = value-plain later u (value-closed v u h)
