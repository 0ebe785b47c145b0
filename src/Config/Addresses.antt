-- ===== src/Config/Addresses.antt =====
-- Which addresses and which chain the configurations accept.
use mathlib.Core.Bool.{false≢true}
use based_ai.Prelude.{
  ℕ, zero, suc, ◌≡◌, ◌≢◌, ◌↔◌, ◌⊎◌, inl, inr, refl, sym, ap, ◌∙◌, Bool, true, ◌&&◌, [], ◌∷◌, ◌++◌,
  All, length, arith, nat_beq_iff, Bool-cases,
}
use based_ai.Prelude.Eq.{◌==◌, nat_eq, list_eq, list_beq_iff}
use based_ai.Prelude.Result.{ok, raise≢ok}
use based_ai.Prelude.Text.{Str, lower}
use based_ai.Config.{is_hex, hex_run, addr_match, zero_addr, valid_addr}

and-true : {p q : Bool} → (p && q) ≡ true → (p ≡ true) × (q ≡ true)
and-true h = ground arith

-- What may follow the digits.
abbrev pub IsEnd : Str → Type 0
IsEnd rest = (rest ≡ []) ⊎ (rest ≡ b'\n' ∷ [])

-- Digits, as many as that, and what may follow them.
pub record IsRun (n : ℕ) (s : Str) : Type 0 where
  pub digits : Str
  pub rest : Str
  pub split : s ≡ digits ++ rest
  pub hex : All (λ c. is_hex c ≡ true) digits
  pub count : length digits ≡ n
  pub ending : IsEnd rest

hex_run-IsRun : (n : ℕ) (s : Str) → hex_run n s ≡ true → IsRun n s
unfolding hex_run
hex_run-IsRun zero [] h = record {
  digits = [];
  rest = [];
  split = refl;
  hex = tt;
  count = refl;
  ending = inl refl;
}
hex_run-IsRun zero (c ∷ []) h = record {
  digits = [];
  rest = c ∷ [];
  split = refl;
  hex = tt;
  count = refl;
  ending = inr (ap (λ d. d ∷ []) ((nat_beq_iff c b'\n').0 h));
}
hex_run-IsRun zero (c ∷ d ∷ s) h = cc
hex_run-IsRun (suc n) [] h = cc
hex_run-IsRun (suc n) (c ∷ s) h =
    let (head, tail) = and-true h in
    let r = hex_run-IsRun n s tail in
    record {
      digits = c ∷ r.digits;
      rest = r.rest;
      split = ap (◌∷◌ c) r.split;
      hex = (head, r.hex);
      count = omega (arith, r.count);
      ending = r.ending;
    }

hex_run-digits :
    (n : ℕ) (digits rest : Str)
    → All (λ c. is_hex c ≡ true) digits
    → length digits ≡ n
    → IsEnd rest
    → hex_run n (digits ++ rest) ≡ true
unfolding hex_run
hex_run-digits zero [] rest hex count (inl done) = rw done refl
hex_run-digits zero [] rest hex count (inr newline) = rw newline refl
hex_run-digits zero (c ∷ digits) rest hex count e = absurd (omega (arith, count))
hex_run-digits (suc n) [] rest hex count e = absurd (omega (arith, count))
hex_run-digits (suc n) (c ∷ digits) rest (p, hex) count e =
    rw p (hex_run-digits n digits rest hex (omega (arith, count)) e)

-- An address as the pattern has it: 40 digits after the prefix, and at most a line break after them.
pub record IsAddress (v : Str) : Type 0 where
  pub body : Str
  pub prefixed : v ≡ b'0' ∷ b'x' ∷ body
  pub run : IsRun 40 body

addr_match-IsAddress : (v : Str) → addr_match v ≡ true → IsAddress v
unfolding addr_match
addr_match-IsAddress [] h = cc
addr_match-IsAddress (a ∷ []) h = cc
addr_match-IsAddress (a ∷ b ∷ s) h =
    let (prefix, digits) = and-true h in
    let (zero_first, x_next) = and-true prefix in
    record {
      body = s;
      prefixed = cc ((nat_beq_iff a b'0').0 zero_first, (nat_beq_iff b b'x').0 x_next);
      run = hex_run-IsRun 40 s digits;
    }

IsAddress-addr_match : (v : Str) → IsAddress v → addr_match v ≡ true
unfolding addr_match
IsAddress-addr_match v a =
    rw a.prefixed (
      rw a.run.split (hex_run-digits 40 a.run.digits a.run.rest a.run.hex a.run.count a.run.ending))

pub addr_match_iff : (v : Str) → (addr_match v ≡ true) ↔ IsAddress v
addr_match_iff v = (addr_match-IsAddress v, IsAddress-addr_match v)

-- An address is accepted exactly where it has the form of the pattern, and is not the zero address:
-- as the pattern is matched, one line break may follow the digits.
pub valid_addr_iff : (v : Str) → (valid_addr v ≡ ok v) ↔ (IsAddress v × (lower v ≢ zero_addr))
unfolding valid_addr
valid_addr_iff v = (sound, complete)
  where
    sound : valid_addr v ≡ ok v → IsAddress v × (lower v ≢ zero_addr)
    sound h = elim (Bool-cases (addr_match v)) [
      | inr other ↦ absurd (raise≢ok (rw other at h))
      | inl matched ↦ elim (Bool-cases (lower v == zero_addr)) [
        | inl zeroed ↦ absurd (raise≢ok (rw (matched, zeroed) at h))
        | inr nonzero ↦ (
          addr_match-IsAddress v matched,
          λ same. false≢true (sym nonzero ∙ (list_beq_iff (lower v) zero_addr).1 same),
        )
      ]
    ]

    complete : IsAddress v × (lower v ≢ zero_addr) → valid_addr v ≡ ok v
    complete (a, nonzero) = elim (Bool-cases (lower v == zero_addr)) [
      | inl zeroed ↦ absurd (nonzero ((list_beq_iff (lower v) zero_addr).0 zeroed))
      | inr other ↦ rw (IsAddress-addr_match v a, other) refl
    ]
