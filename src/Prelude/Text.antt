-- ===== src/Prelude/Text.antt =====
-- Python's `str` and `bytes`, as lists of code points and of bytes: `lower`, `hex`, `fromhex`,
-- the prefix test and the length in UTF-8.
use Prim.Native.Nat.{ℕ, ◌+◌, ◌-◌, ◌*◌, ◌/◌, ◌%◌, ◌<◌}
use Prim.Native.Char.{code}
use Prim.Native.String.{String}
use mathlib.Core.Path.{◌≡◌, refl}
use mathlib.Core.Bool.{Bool, false, ◌&&◌, ◌||◌}
use mathlib.Core.List.{List, [], ◌∷◌, map}
use mathlib.Core.Option.{Option, none, some}
use native.Mathlib.Omega.{arith}
use mathlib.Core.Logic.{inl, inr}
use based_ai.Prelude.Tests.{ltb, leb, nat_beq, if◌then◌else◌, Bool-cases}
use based_ai.Prelude.Lists.{All, drop}

abbrev pub Str : Type 0
Str = List ℕ

abbrev pub Bytes : Type 0
Bytes = List ℕ

-- A literal of the source.
abbrev pub codes : String → Str
codes String.[] = []
codes (String.◌∷◌ c s) = code c ∷ codes s

-- `str.lower`, on ASCII: addresses, hashes and roots are hexadecimal.
unfoldable pub lower_code : ℕ → ℕ
lower_code c = if leb 65 c && leb c 90 then c + 32 else c

pub lower_code_idem : (c : ℕ) → lower_code (lower_code c) ≡ lower_code c
unfolding lower_code
lower_code_idem c = ground arith

unfoldable pub lower : Str → Str
unfolding lower_code
lower = map lower_code

pub lower-lower : (s : Str) → lower (lower s) ≡ lower s
unfolding lower
lower-lower [] = refl
lower-lower (c ∷ s) = cc (lower_code_idem c, lower-lower s)

-- `s.startswith("0x")`
abbrev pub has_0x : Str → Bool
has_0x (a ∷ b ∷ s) = nat_beq a 48 && nat_beq b 120
has_0x _ = false

-- `s if s.startswith("0x") else "0x" + s`
abbrev pub with_0x : Str → Str
with_0x s = if has_0x s then s else 48 ∷ 120 ∷ s

pub with_0x-with_0x : (s : Str) → with_0x (with_0x s) ≡ with_0x s
with_0x-with_0x s = elim (Bool-cases (has_0x s)) [
  | inl has ↦ rw (has, has) refl
  | inr lacks ↦ rw lacks refl
]

unfoldable pub hex_digit : ℕ → ℕ
hex_digit n = if ltb n 10 then n + 48 else n + 87

-- `b.hex()`
unfoldable pub to_hex : Bytes → Str
unfolding hex_digit
to_hex [] = []
to_hex (b ∷ bs) = hex_digit (b / 16) ∷ hex_digit (b % 16) ∷ to_hex bs

unfoldable pub hex_value : ℕ → Option ℕ
hex_value c =
    if leb 48 c && leb c 57
    then some (c - 48)
    else if leb 97 c && leb c 102
    then some (c - 87)
    else if leb 65 c && leb c 70
    then some (c - 55)
    else none

abbrev pub is_space : ℕ → Bool
is_space c = leb 9 c && leb c 13 || nat_beq c 32

-- What `str.split()` splits at: the blanks of Unicode too.
abbrev pub is_blank : ℕ → Bool
is_blank c =
    is_space c
    || leb 28 c && leb c 31
    || nat_beq c 133
    || nat_beq c 160
    || nat_beq c 5760
    || leb 8192 c && leb c 8202
    || nat_beq c 8232
    || nat_beq c 8233
    || nat_beq c 8239
    || nat_beq c 8287
    || nat_beq c 12288

abbrev cons_byte : Option ℕ → Option ℕ → Option Bytes → Option Bytes
cons_byte (some h) (some l) (some bs) = some ((h * 16 + l) ∷ bs)
cons_byte _ _ _ = none

-- `bytes.fromhex(s)`: two digits for each byte, ASCII spaces between bytes skipped; `none` is the
-- ValueError.
unfoldable pub from_hex : Str → Option Bytes
unfolding hex_value
from_hex [] = some []
from_hex (c ∷ []) = if is_space c then some [] else none
from_hex (c ∷ d ∷ s) =
    let skipped = from_hex (d ∷ s) in
    let taken = from_hex s in
    if is_space c then skipped else cons_byte (hex_value c) (hex_value d) taken

abbrev pub IsByte : ℕ → Type 0
IsByte b = b < 256

hex_value-hex_digit : (n : ℕ) → n < 16 → hex_value (hex_digit n) ≡ some n
unfolding hex_value hex_digit
hex_value-hex_digit n h = ground arith

is_space-hex_digit : (n : ℕ) → is_space (hex_digit n) ≡ false
unfolding hex_digit
is_space-hex_digit n = ground arith

pub from_hex-to_hex : (bs : Bytes) → All IsByte bs → from_hex (to_hex bs) ≡ some bs
unfolding to_hex from_hex
from_hex-to_hex [] h = refl
from_hex-to_hex (b ∷ bs) (p, h) =
    rw
      (
        is_space-hex_digit (b / 16),
        hex_value-hex_digit (b / 16) (omega arith),
        hex_value-hex_digit (b % 16) (omega arith),
        from_hex-to_hex bs h,
      )
      (ground arith)

-- `hex` writes small letters only.
lower_code-hex_digit : (n : ℕ) → n < 16 → lower_code (hex_digit n) ≡ hex_digit n
unfolding lower_code hex_digit
lower_code-hex_digit n h = ground arith

pub lower-to_hex : (bs : Bytes) → All IsByte bs → lower (to_hex bs) ≡ to_hex bs
unfolding lower to_hex
lower-to_hex [] h = refl
lower-to_hex (b ∷ bs) (p, h) = rw (
  lower_code-hex_digit (b / 16) (omega arith),
  lower_code-hex_digit (b % 16) (omega arith),
  lower-to_hex bs h,
)

-- `len(s.encode("utf-8"))`, of a text with no lone surrogates
unfoldable pub utf8_length : Str → ℕ
utf8_length [] = 0
utf8_length (c ∷ s) =
    (if ltb c 128 then 1 else if ltb c 2048 then 2 else if ltb c 65536 then 3 else 4)
    + utf8_length s

-- `int(a, 16)` of an address, as an order key: the digits' values after the prefix.
abbrev value_or_zero : Option ℕ → ℕ
value_or_zero none = 0
value_or_zero (some n) = n

pub digits_value : ℕ → Str → ℕ
unfolding hex_value
digits_value acc [] = acc
digits_value acc (c ∷ s) = digits_value (acc * 16 + value_or_zero (hex_value c)) s

unfoldable pub address_value : Str → ℕ
unfolding digits_value
address_value a = digits_value 0 (if has_0x a then drop 2 a else a)
