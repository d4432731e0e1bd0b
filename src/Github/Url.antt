-- ===== src/Github/Url.antt =====
-- Texts in requests: `urlencode`, `rstrip("/")` and `split(",")`.
use Prim.Native.Char.{Char, code}
use gitvibe_dev.Prelude.{
  ℕ, ◌+◌, ◌/◌, ◌%◌, Bool, ◌&&◌, ◌||◌, String, List, [], ◌∷◌, leb, ltb, nat_eq, if◌then◌else◌,
  select, not, map,
}
use gitvibe_dev.Json.{Value, Fields, end, field}
use gitvibe_dev.Json.Convert.{Builtins, str_of, strip, is_empty, concat, nth_char}

-- The bytes of a character in UTF-8
unfoldable pub utf8 : ℕ → List ℕ
utf8 c =
    if ltb c 128
    then c ∷ []
    else if ltb c 2_048
    then (192 + c / 64) ∷ (128 + c % 64) ∷ []
    else if ltb c 65_536
    then (224 + c / 4_096) ∷ (128 + c / 64 % 64) ∷ (128 + c % 64) ∷ []
    else (240 + c / 262_144) ∷ (128 + c / 4_096 % 64) ∷ (128 + c / 64 % 64) ∷ (128 + c % 64) ∷ []

abbrev hex_digit : ℕ → String → String
hex_digit n rest = String.◌∷◌ (nth_char "0" n "0123456789ABCDEF") rest

abbrev percent : List ℕ → String → String
percent [] rest = rest
percent (b ∷ bs) rest =
    concat ("%" ∷ hex_digit (b / 16) (hex_digit (b % 16) "") ∷ percent bs rest ∷ [])

-- Letters, digits and `_.-~` stand for themselves.
abbrev is_unreserved : ℕ → Bool
is_unreserved c =
    (leb 97 c && leb c 122)
    || (leb 65 c && leb c 90)
    || (leb 48 c && leb c 57)
    || nat_eq c 95
    || nat_eq c 46
    || nat_eq c 45
    || nat_eq c 126

-- `quote_plus`
unfoldable pub quote_plus : String → String
unfolding utf8
quote_plus String.[] = ""
quote_plus (String.◌∷◌ c s) =
    let rest = quote_plus s in
    if is_unreserved (code c)
    then String.◌∷◌ c rest
    else if nat_eq (code c) 32
    then concat ("+" ∷ rest ∷ [])
    else percent (utf8 (code c)) rest

abbrev pair : Builtins → String → Value → String
unfolding quote_plus
pair py key value = concat (quote_plus key ∷ "=" ∷ quote_plus (str_of py value) ∷ [])

-- `urlencode`
unfoldable pub urlencode : Builtins → Fields → String
unfolding pair
urlencode py end = ""
urlencode py (field key value end) = pair py key value
urlencode py (field key value d) = concat (pair py key value ∷ "&" ∷ urlencode py d ∷ [])

-- `rstrip("/")`
unfoldable pub rstrip_slash : String → String
rstrip_slash String.[] = ""
rstrip_slash (String.◌∷◌ c s) =
    let rest = rstrip_slash s in
    if nat_eq (code c) 47 && is_empty rest then "" else String.◌∷◌ c rest

abbrev onto_first : Char → List String → List String
onto_first c [] = String.◌∷◌ c "" ∷ []
onto_first c (part ∷ parts) = String.◌∷◌ c part ∷ parts

-- `split(",")`
unfoldable pub split_commas : String → List String
split_commas String.[] = "" ∷ []
split_commas (String.◌∷◌ c s) =
    let parts = split_commas s in if nat_eq (code c) 44 then "" ∷ parts else onto_first c parts

-- The scopes of a text: the parts between commas, stripped, less the empty ones
unfoldable pub parse_scope_text : String → List String
unfolding strip split_commas
parse_scope_text raw_scopes =
    map strip (select (λ scope. not (is_empty (strip scope))) (split_commas raw_scopes))
