-- ===== src/Json/Convert.antt =====
-- What Python's `str`, `int` and `float` make of a value, and `strip` and `lower` of a text.
-- Texts are read as ASCII: other characters are no digits, no spaces and have no lower case.
use Prim.Native.Char.{Char, code}
use Prim.Native.String
use gitvibe_dev.Prelude.{
  ℕ, zero, suc, ◌+◌, ◌-◌, ◌*◌, ◌/◌, Bool, true, false, ◌&&◌, ◌||◌, Option, none, some, List, [],
  ◌∷◌, leb, nat_eq, if◌then◌else◌, String, ◌==◌,
}
use gitvibe_dev.Prelude.Int.{ℤ, pos, negsuc}
use gitvibe_dev.Json
use gitvibe_dev.Json.{Value, null, bool, int, float, str, arr, obj}
use gitvibe_dev.Exc.{Result, ok, raised, type_error, value_error}

abbrev is_space : Char → Bool
is_space c =
    nat_eq (code c) 32
    || (leb 9 (code c) && leb (code c) 13)
    || (leb 28 (code c) && leb (code c) 31)

abbrev lstrip : String → String
lstrip String.[] = ""
lstrip (String.◌∷◌ c s) = let rest = lstrip s in if is_space c then rest else String.◌∷◌ c s

abbrev rstrip : String → String
rstrip String.[] = ""
rstrip (String.◌∷◌ c s) = elim (rstrip s) [
  | String.[] ↦ if is_space c then "" else String.◌∷◌ c ""
  | String.◌∷◌ d r ↦ String.◌∷◌ c (String.◌∷◌ d r)
]

unfoldable pub strip : String → String
strip s = rstrip (lstrip s)

abbrev pub nth_char : Char → ℕ → String → Char
nth_char c n String.[] = c
nth_char c zero (String.◌∷◌ d s) = d
nth_char c (suc n) (String.◌∷◌ d s) = nth_char c n s

abbrev lower_char : Char → Char
lower_char c =
    if leb 65 (code c) && leb (code c) 90
    then nth_char c (code c - 65) "abcdefghijklmnopqrstuvwxyz"
    else c

unfoldable pub lower : String → String
lower String.[] = ""
lower (String.◌∷◌ c s) = String.◌∷◌ (lower_char c) (lower s)

abbrev upper_char : Char → Char
upper_char c =
    if leb 97 (code c) && leb (code c) 122
    then nth_char c (code c - 97) "ABCDEFGHIJKLMNOPQRSTUVWXYZ"
    else c

unfoldable pub upper : String → String
upper String.[] = ""
upper (String.◌∷◌ c s) = String.◌∷◌ (upper_char c) (upper s)

-- The digits of `int(s)`: `after` says that a digit stands before, as an underscore needs.
abbrev digits : Bool → ℕ → String → Option ℕ
digits after n String.[] = if after then some n else none
digits after n (String.◌∷◌ c s) =
    let d = code c in
    let more = digits true (n * 10 + (d - 48)) s in
    let skip = digits false n s in
    if leb 48 d && leb d 57 then more else if after && nat_eq d 95 then skip else none

abbrev negate : ℕ → ℤ
negate zero = pos 0
negate (suc n) = negsuc n

abbrev signed : String → Option ℤ
signed String.[] = none
signed (String.◌∷◌ c s) =
    if nat_eq (code c) 45
    then (elim (digits false 0 s) [ none ↦ none | some n ↦ some (negate n) ])
    else (elim (digits false 0 (if nat_eq (code c) 43 then s else String.◌∷◌ c s)) [
      | none ↦ none
      | some n ↦ some (pos n)
    ])

-- `int(s)` of a text
unfoldable pub parse_int : String → Option ℤ
unfolding strip
parse_int s = signed (strip s)

-- `int(f)` of a float cuts its fraction off.
abbrev pub truncate : ℤ → ℤ
truncate (pos t) = pos (t / 1_000_000)
truncate (negsuc t) = negate (suc t / 1_000_000)

unfoldable pub int_of : Value → Result ℤ
unfolding parse_int
int_of (bool b) = ok (if b then pos 1 else pos 0)
int_of (int n) = ok n
int_of (float t) = ok (truncate t)
int_of (str s) = elim (parse_int s) [ none ↦ raised value_error | some n ↦ ok n ]
int_of _ = raised type_error

-- What the language does that is left open: `str` of a value that is no text, and `float` of a text.
pub record Builtins : Type 0 where
  pub repr : Value → String
  pub parse_float : String → Option ℤ

abbrev pub str_of : Builtins → Value → String
str_of py (str s) = s
str_of py v = py.repr v

abbrev scale : ℤ → ℤ
scale (pos n) = pos (n * 1_000_000)
scale (negsuc n) = negate (suc n * 1_000_000)

unfoldable pub float_of : Builtins → Value → Result ℤ
float_of py (bool b) = ok (if b then pos 1_000_000 else pos 0)
float_of py (int n) = ok (scale n)
float_of py (float t) = ok t
float_of py (str s) = elim (py.parse_float s) [ none ↦ raised value_error | some t ↦ ok t ]
float_of py _ = raised type_error

-- `bool(v)`, as `if v` and `v or w` test it
abbrev pub truthy : Value → Bool
truthy null = false
truthy (bool b) = b
truthy (int (pos zero)) = false
truthy (float (pos zero)) = false
truthy (str String.[]) = false
truthy (arr Json.nil) = false
truthy (obj Json.end) = false
truthy _ = true

abbrev pub is_empty : String → Bool
is_empty String.[] = true
is_empty (String.◌∷◌ c s) = false

-- `value == "text"` for a value that may be missing
abbrev pub is_text : String → Option Value → Bool
is_text t (some (str s)) = s == t
is_text t _ = false

-- An f-string: its parts one after the other
abbrev pub concat : List String → String
concat [] = ""
concat (s ∷ ss) = String.◌++◌ s (concat ss)

-- The code of the first character, 0 for the empty text
unfoldable pub first_code : String → ℕ
first_code String.[] = 0
first_code (String.◌∷◌ c s) = code c
