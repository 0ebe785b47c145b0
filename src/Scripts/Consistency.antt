-- ===== src/Scripts/Consistency.antt =====
-- When `main` of scripts/check_overrides.py reports no error.
use based_ai.Prelude.{
  ◌≡◌, ◌↔◌, refl, sym, ap, ◌∙◌, Bool, true, false, not, ◌&&◌, ◌||◌, List, [], ◌∷◌, ◌++◌, select,
  contains, inl, inr, Bool-cases, arith,
}
use based_ai.Prelude.Eq.{◌==◌, nat_eq, list_eq, list_beq_iff}
use based_ai.Prelude.Text.{Str, codes}
use based_ai.Prelude.Dict.{Dict}
use based_ai.Scripts.Overrides.{
  Function, Contract, Complaint, function_names, name_set, missing_names, is_interface,
  report_missing, for_all, check_implementation, check_interface, is_known, check_parent,
  check_overrides, find_errors,
}

abbrev pub every : {A : Type 0} → (A → Bool) → List A → Bool
every p [] = true
every p (x ∷ xs) = p x && every p xs

-- The contract has a function of each name that the interface declares, if it names the interface as
-- a parent.
abbrev pub implements : Str × Contract → Str × Contract → Bool
implements (name, interface) (cname, c) =
    is_interface c
    || not (contains name c.parents)
    || every (λ n. contains n (function_names c)) (function_names interface)

abbrev pub is_implemented : Dict Str Contract → Str × Contract → Bool
is_implemented contracts entry = not (is_interface entry.1) || every (implements entry) contracts

-- Each name in the `override` lists of the contract is known.
abbrev pub overrides_known : Dict Str Contract → Str × Contract → Bool
overrides_known contracts entry =
    is_interface entry.1
    || entry.1.kind == codes "library"
    || every (λ f. every (is_known contracts entry) f.override_parents) entry.1.functions

abbrev pub consistent : Dict Str Contract → Bool
consistent contracts =
    every (is_implemented contracts) contracts && every (overrides_known contracts) contracts

abbrev is_nil : {A : Type 0} → List A → Bool
is_nil [] = true
is_nil (x ∷ xs) = false

is_nil-append : {A : Type 0} (xs ys : List A) → is_nil (xs ++ ys) ≡ (is_nil xs && is_nil ys)
is_nil-append [] ys = refl
is_nil-append (x ∷ xs) ys = refl

is_nil-for_all :
    {A : Type 0} (f : A → List Complaint) (p : A → Bool) (xs : List A)
    → ((x : A) → is_nil (f x) ≡ p x)
    → is_nil (for_all f xs) ≡ every p xs
is_nil-for_all f p [] same = refl
is_nil-for_all f p (x ∷ xs) same =
    rw (is_nil-append (f x) (for_all f xs), same x, is_nil-for_all f p xs same) refl

is_nil-select :
    (p : Str → Bool) (names : List Str) → is_nil (select (λ n. not (p n)) names) ≡ every p names
is_nil-select p [] = refl
is_nil-select p (n ∷ names) = ground (arith, is_nil-select p names)

every-select :
    (p : Str → Bool) (n : Str) (names : List Str)
    → p n ≡ true
    → every p (select (λ m. not (m == n)) names) ≡ every p names
every-select p n [] h = refl
every-select p n (m ∷ names) h = elim (Bool-cases (m == n)) [
  | inl same ↦ rw (same, (list_beq_iff m n).0 same, h) (every-select p n names h)
  | inr other ↦ rw other (ap (λ b. p m && b) (every-select p n names h))
]

every-name_set : (p : Str → Bool) (names : List Str) → every p (name_set names) ≡ every p names
every-name_set p [] = refl
every-name_set p (n ∷ names) = elim (Bool-cases (p n)) [
  | inr bad ↦ rw bad refl
  | inl good ↦ rw good (every-select p n (name_set names) good ∙ every-name_set p names)
]

is_nil-report :
    (name cname : Str) (c : Contract) (missing : List Str)
    → is_nil (report_missing name cname c missing) ≡ is_nil missing
is_nil-report name cname c [] = refl
is_nil-report name cname c (m ∷ missing) = refl

is_nil-missing :
    (interface c : Contract)
    → is_nil (missing_names interface c)
      ≡ every (λ n. contains n (function_names c)) (function_names interface)
is_nil-missing interface c =
    is_nil-select (λ n. contains n (function_names c)) (name_set (function_names interface))
    ∙ every-name_set (λ n. contains n (function_names c)) (function_names interface)

is_nil-check_implementation :
    (entry other : Str × Contract)
    → is_nil (check_implementation entry other) ≡ implements entry other
unfolding check_implementation
is_nil-check_implementation (name, interface) (cname, c) = elim (Bool-cases (is_interface c)) [
  | inl skip ↦ rw skip refl
  | inr goes ↦ elim (Bool-cases (contains name c.parents)) [
    | inr stranger ↦ rw (goes, stranger) refl
    | inl heir ↦
        rw (goes, heir)
          (is_nil-report name cname c (missing_names interface c) ∙ is_nil-missing interface c)
  ]
]

is_nil-check_interface :
    (contracts : Dict Str Contract) (entry : Str × Contract)
    → is_nil (check_interface contracts entry) ≡ is_implemented contracts entry
unfolding check_interface
is_nil-check_interface contracts entry = elim (Bool-cases (is_interface entry.1)) [
  | inr other ↦ rw other refl
  | inl interface ↦ rw interface (
      is_nil-for_all (check_implementation entry) (implements entry) contracts
        (is_nil-check_implementation entry))
]

is_nil-check_parent :
    (contracts : Dict Str Contract) (entry : Str × Contract) (f : Function) (parent : Str)
    → is_nil (check_parent contracts entry f parent) ≡ is_known contracts entry parent
is_nil-check_parent contracts entry f parent = elim (Bool-cases (is_known contracts entry parent)) [
  | inl known ↦ rw known refl
  | inr unknown ↦ rw unknown refl
]

is_nil-check_overrides :
    (contracts : Dict Str Contract) (entry : Str × Contract)
    → is_nil (check_overrides contracts entry) ≡ overrides_known contracts entry
unfolding check_overrides
is_nil-check_overrides contracts entry =
    elim (Bool-cases (is_interface entry.1 || entry.1.kind == codes "library")) [
      | inl skip ↦ rw skip refl
      | inr goes ↦ rw goes (
          is_nil-for_all _ (λ f. every (is_known contracts entry) f.override_parents)
            entry.1.functions
            (λ f.
              is_nil-for_all (check_parent contracts entry f) (is_known contracts entry)
                f.override_parents (is_nil-check_parent contracts entry f)))
    ]

is_nil-find_errors :
    (contracts : Dict Str Contract) → is_nil (find_errors contracts) ≡ consistent contracts
unfolding find_errors
is_nil-find_errors contracts =
    is_nil-append (for_all (check_interface contracts) contracts)
      (for_all (check_overrides contracts) contracts)
    ∙ (rw
        (
          is_nil-for_all (check_interface contracts) (is_implemented contracts) contracts
              (is_nil-check_interface contracts),
          is_nil-for_all (check_overrides contracts) (overrides_known contracts) contracts
              (is_nil-check_overrides contracts),
        )
        refl)

is_nil_iff : {A : Type 0} (xs : List A) → (xs ≡ []) ↔ (is_nil xs ≡ true)
is_nil_iff [] = (λ h. refl, λ h. refl)
is_nil_iff (x ∷ xs) = (λ h. cc, λ h. cc)

-- No error is reported exactly where each contract that is no interface has a function of every name
-- that an interface among its parents declares, and each name in the `override` lists of what is
-- neither an interface nor a library is a parent, the contract itself, a contract of the files, or one
-- of the common parents.
pub find_errors_iff :
    (contracts : Dict Str Contract) → (find_errors contracts ≡ []) ↔ (consistent contracts ≡ true)
find_errors_iff contracts =
    let (to, from) = is_nil_iff (find_errors contracts) in
    let same = is_nil-find_errors contracts in (λ h. sym same ∙ to h, λ h. from (same ∙ h))
