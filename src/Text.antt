-- ===== src/Text.antt =====
-- Text as the program reads it: the functions of Go's strings package that the source calls.
use Prim.Native.Char.{code}
use multi_tenant_authorizati.Base.{
  ℕ, String, Bool, true, false, ◌&&◌, ◌||◌, Option, none, some, List, [], ◌∷◌, ◌==◌, leb, str_eq,
  if◌then◌else◌,
}

-- `strings.Contains(s, "@")`
unfoldable pub contains_at : String → Bool
contains_at String.[] = false
contains_at (String.◌∷◌ c s) = code c == b'@' || contains_at s

-- `unicode.IsSpace`
unfoldable pub is_space : ℕ → Bool
is_space c =
    leb 9 c && leb c 13
    || c == 32
    || c == 0x85
    || c == 0xa0
    || c == 0x1680
    || leb 0x2000 c && leb c 0x200a
    || c == 0x2028
    || c == 0x2029
    || c == 0x202f
    || c == 0x205f
    || c == 0x3000

unfoldable pub trim_left : String → String
unfolding is_space
trim_left String.[] = String.[]
trim_left (String.◌∷◌ c s) = if is_space (code c) then trim_left s else String.◌∷◌ c s

unfoldable pub is_empty : String → Bool
is_empty String.[] = true
is_empty (String.◌∷◌ c s) = false

unfoldable pub trim_right : String → String
unfolding is_space is_empty
trim_right String.[] = String.[]
trim_right (String.◌∷◌ c s) =
    let rest = trim_right s in
    if is_empty rest && is_space (code c) then String.[] else String.◌∷◌ c rest

-- `strings.TrimSpace`
unfoldable pub trim_space : String → String
unfolding trim_left trim_right
trim_space s = trim_right (trim_left s)

-- `strings.HasPrefix` and `strings.TrimPrefix` in one: the rest behind the prefix, if it is there.
unfoldable pub strip_prefix : String → String → Option String
strip_prefix String.[] s = some s
strip_prefix (String.◌∷◌ c p) String.[] = none
strip_prefix (String.◌∷◌ c p) (String.◌∷◌ d s) = if code c == code d then strip_prefix p s else none

-- `strings.Split(s, ",")`: the first part, and the others.
unfoldable pub split_comma : String → String × List String
split_comma String.[] = (String.[], [])
split_comma (String.◌∷◌ c s) =
    let (part, rest) = split_comma s in
    if code c == b',' then (String.[], part ∷ rest) else (String.◌∷◌ c part, rest)

-- A map from texts; an absent key reads as "".
unfoldable pub get_or_empty : String → List (String × String) → String
get_or_empty key [] = ""
get_or_empty key ((k, v) ∷ rest) = if str_eq k key then v else get_or_empty key rest
