-- ===== src/Scan.antt =====
-- strings.Split, and the verbs of fmt.Sprintf and fmt.Sscanf that internal/auth/password.go uses.
-- A text is the list of its runes.
pub mod RoundTrip
use Prim.Native.Char.{code}
use Prim.Native.Nat.{◌/◌, ◌%◌, ◌^◌}
use multi_tenant_authorizati.Base.{
  String, ℕ, zero, suc, ◌+◌, ◌-◌, ◌*◌, Bool, true, false, ◌&&◌, ◌||◌, Option, none, some, List, [],
  ◌∷◌, ◌==◌, ltb, leb, if◌then◌else◌,
}
use multi_tenant_authorizati.Text.{is_space}

abbrev pub Runes : Type 0
Runes = List ℕ

abbrev pub runes : String → Runes
runes String.[] = []
runes (String.◌∷◌ c s) = code c ∷ runes s

abbrev pub length : Runes → ℕ
length [] = 0
length (c ∷ s) = suc (length s)

abbrev pub same : Runes → Runes → Bool
same [] [] = true
same (a ∷ s) (b ∷ t) = a == b && same s t
same _ _ = false

-- `strings.Split` at one rune: the first part, and the others.
unfoldable pub split : ℕ → Runes → Runes × List Runes
split sep [] = ([], [])
split sep (c ∷ s) =
    let (part, rest) = split sep s in if c == sep then ([], part ∷ rest) else (c ∷ part, rest)

abbrev pub is_digit : ℕ → Bool
is_digit c = leb b'0' c && leb c b'9'

-- `%d` of Sprintf, the last digit first; `fuel` is one less than the number of digits.
unfoldable pub digits : ℕ → ℕ → Runes → Runes
digits zero n out = (b'0' + n % 10) ∷ out
digits (suc fuel) n out =
    let rest = digits fuel (n / 10) ((b'0' + n % 10) ∷ out) in
    if ltb n 10 then (b'0' + n) ∷ out else rest

-- Twenty digits hold every 64-bit number.
unfoldable pub decimal : ℕ → Runes → Runes
decimal n out = digits 19 n out

infixl 5 ◌>>=◌
abbrev pub ◌>>=◌ : {A B : Type 0} → Option A → (A → Option B) → Option B
none >>= f = none
some a >>= f = f a

-- Sscanf does not pass over a newline.
unfoldable pub skip_space : Runes → Option Runes
skip_space [] = some []
skip_space (c ∷ s) =
    let rest = skip_space s in if c == 10 then none else if is_space c then rest else some (c ∷ s)

-- A rune of the format that is not a verb has to be there.
unfoldable pub literal : Runes → Runes → Option Runes
literal [] s = some s
literal (k ∷ ks) [] = none
literal (k ∷ ks) (c ∷ s) = if c == k then literal ks s else none

unfoldable pub scan_digits : ℕ → Runes → ℕ × Runes
scan_digits n [] = (n, [])
scan_digits n (c ∷ s) =
    let rest = scan_digits (n * 10 + (c - b'0')) s in if is_digit c then rest else (n, c ∷ s)

unfoldable pub starts_with_digit : Runes → Bool
starts_with_digit [] = false
starts_with_digit (c ∷ s) = is_digit c

unfoldable pub scan_number : Runes → Option (ℕ × Runes)
scan_number s = if starts_with_digit s then some (scan_digits 0 s) else none

-- The value has to fit the variable.
abbrev pub up_to : ℕ → ℕ × Runes → Option (ℕ × Runes)
up_to max (n, s) = if leb n max then some (n, s) else none

-- `%d` of Sscanf for an unsigned variable.
unfoldable pub scan_uint : ℕ → Runes → Option (ℕ × Runes)
scan_uint max s = do t ← skip_space s; r ← scan_number t; up_to max r

abbrev magnitude : Runes → Option (ℕ × Runes)
magnitude (c ∷ s) =
    if c == b'-'
    then (scan_number s >>= up_to (2 ^ 63))
    else (if c == b'+'
        then scan_number s >>= up_to (2 ^ 63 - 1)
        else scan_number (c ∷ s) >>= up_to (2 ^ 63 - 1))
magnitude [] = none

-- `%d` of Sscanf for an int: the magnitude.
unfoldable pub scan_int : Runes → Option (ℕ × Runes)
scan_int s = do magnitude (← skip_space s)
