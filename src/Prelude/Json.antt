-- ===== src/Prelude/Json.antt =====
-- A parsed JSON value, and the Python operations that the handlers make on one.
use Prim.Native.Nat.{ℕ, zero, suc, ◌+◌, ◌-◌, ◌*◌}
use Prim.Native.String.{String}
use mathlib.Core.Bool.{Bool, true, false, ◌&&◌}
use mathlib.Core.List.{List, [], ◌∷◌}
use mathlib.Core.Option.{Option, none, some}
use text.Mathlib.Text.{◌==◌ as str_eq}
use based_ai.Prelude.Tests.{leb, nat_beq, if◌then◌else◌}
use based_ai.Prelude.Int.{ℤ, pos, negsuc}
use based_ai.Prelude.Result.{Result, ok, raise, key_error, value_error, type_error, other, or_raise}
use based_ai.Prelude.Text.{Str, is_space, codes}

mutual
  -- A float is given by the integer that `int()` cuts it to and by its text; infinities are left out.
  pub data Json : Type 0 where
    null : Json
    bool : Bool → Json
    int : ℤ → Json
    real : ℤ → Str → Json
    str : Str → Json
    arr : Items → Json
    obj : Fields → Json

  pub data Items : Type 0 where
    nil : Items
    cons : Json → Items → Items

  pub data Fields : Type 0 where
    end : Fields
    field : String → Json → Fields → Fields

abbrev pub lookup : String → Fields → Option Json
lookup k end = none
lookup k (field j v fs) = if str_eq j k then some v else lookup k fs

-- `body[k]`
unfoldable pub get_item : Json → String → Result Json
get_item (obj fs) k = or_raise key_error (lookup k fs)
get_item _ k = raise type_error

-- `body.get(k)`; AttributeError on what is no dict
unfoldable pub get : Json → String → Result (Option Json)
get (obj fs) k = ok (lookup k fs)
get _ k = raise other

abbrev signed : Bool → ℕ → ℤ
signed true zero = pos 0
signed true (suc n) = negsuc n
signed false n = pos n

abbrev only_spaces : Str → Bool
only_spaces [] = true
only_spaces (c ∷ s) = is_space c && only_spaces s

-- The digits of `int(text)`: `after` says that the last character was a digit.
int_digits : Bool → ℕ → Bool → Str → Option ℤ
int_digits neg acc after [] = if after then some (signed neg acc) else none
int_digits neg acc after (c ∷ s) =
    let digit = int_digits neg (acc * 10 + (c - 48)) true s in
    let underscore = int_digits neg acc false s in
    if leb 48 c && leb c 57
    then digit
    else if nat_beq c 95 && after
    then underscore
    else if after && is_space c && only_spaces s
    then some (signed neg acc)
    else none

int_signed : Str → Option ℤ
int_signed [] = none
int_signed (c ∷ s) =
    if nat_beq c 45
    then int_digits true 0 false s
    else if nat_beq c 43
    then int_digits false 0 false s
    else int_digits false 0 false (c ∷ s)

int_text : Str → Option ℤ
int_text [] = none
int_text (c ∷ s) = let rest = int_text s in if is_space c then rest else int_signed (c ∷ s)

-- `int(value)`
unfoldable pub to_int : Json → Result ℤ
unfolding int_digits int_signed int_text
to_int (bool b) = ok (if b then pos 1 else pos 0)
to_int (int n) = ok n
to_int (real n text) = ok n
to_int (str s) = or_raise value_error (int_text s)
to_int _ = raise type_error

-- `str(value)`: a text is itself; `repr` stands for the text of a dict or a list, which no
-- property depends on.
unfoldable pub to_str : (Json → Str) → Json → Str
to_str repr (str s) = s
to_str repr v = repr v

abbrev keys_of : Fields → List Json
keys_of end = []
keys_of (field k v fs) = str (codes k) ∷ keys_of fs

abbrev pub items_of : Items → List Json
items_of nil = []
items_of (cons v vs) = v ∷ items_of vs

abbrev chars_of : Str → List Json
chars_of [] = []
chars_of (c ∷ s) = str (c ∷ []) ∷ chars_of s

-- `list(value)`, and the `for` over a parsed value: the items of a list, the keys of a dict, the
-- characters of a text
unfoldable pub to_list : Json → Result (List Json)
to_list (arr vs) = ok (items_of vs)
to_list (obj fs) = ok (keys_of fs)
to_list (str s) = ok (chars_of s)
to_list _ = raise type_error

-- `isinstance(value, str)`
abbrev pub is_str : Json → Bool
is_str (str s) = true
is_str _ = false
