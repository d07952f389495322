-- ===== src/Base64.antt =====
-- encoding/base64.RawStdEncoding of Go's standard library, as internal/auth/password.go uses it. A
-- text or a byte slice is the list of its bytes.
pub mod RoundTrip
use Prim.Native.Nat.{◌/◌, ◌%◌}
use multi_tenant_authorizati.Base.{
  ℕ, ◌+◌, ◌-◌, ◌*◌, ◌<◌, ◌≡◌, refl, Bool, true, false, ◌&&◌, ◌||◌, Option, none, some, List, [],
  ◌∷◌, ◌==◌, ltb, leb, arith, if◌then◌else◌,
}
use multi_tenant_authorizati.Db.Rows.{All}

abbrev pub Bytes : Type 0
Bytes = List ℕ

abbrev pub IsByte : ℕ → Type 0
IsByte b = b < 256

-- The alphabet: A to Z, a to z, 0 to 9, + and /.
unfoldable pub letter : ℕ → ℕ
letter n =
    if ltb n 26
    then n + b'A'
    else if ltb n 52
    then n - 26 + b'a'
    else if ltb n 62
    then n - 52 + b'0'
    else if n == 62
    then b'+'
    else b'/'

unfoldable pub sextet : ℕ → Option ℕ
sextet c =
    if leb b'A' c && leb c b'Z'
    then some (c - b'A')
    else if leb b'a' c && leb c b'z'
    then some (c - b'a' + 26)
    else if leb b'0' c && leb c b'9'
    then some (c - b'0' + 52)
    else if c == b'+'
    then some 62
    else if c == b'/'
    then some 63
    else none

-- Three bytes are four letters; one byte is two letters at the end, two bytes are three.
unfoldable pub encode : Bytes → Bytes
encode [] = []
encode (a ∷ []) = letter (a / 4) ∷ letter (a % 4 * 16) ∷ []
encode (a ∷ b ∷ []) = letter (a / 4) ∷ letter (a % 4 * 16 + b / 16) ∷ letter (b % 16 * 4) ∷ []
encode (a ∷ b ∷ c ∷ rest) =
    letter (a / 4)
    ∷ letter (a % 4 * 16 + b / 16)
    ∷ letter (b % 16 * 4 + c / 64)
    ∷ letter (c % 64)
    ∷ encode rest

-- A carriage return or a newline in the input is passed over.
unfoldable pub without_newlines : Bytes → Bytes
without_newlines [] = []
without_newlines (c ∷ s) =
    let rest = without_newlines s in if c == 10 || c == 13 then rest else c ∷ rest

abbrev pub cons_some : Option ℕ → Option Bytes → Option Bytes
cons_some (some n) (some ns) = some (n ∷ ns)
cons_some _ _ = none

unfoldable pub sextets : Bytes → Option Bytes
sextets [] = some []
sextets (c ∷ s) = cons_some (sextet c) (sextets s)

abbrev pub prepend : Bytes → Option Bytes → Option Bytes
prepend (a ∷ b ∷ c ∷ []) (some bs) = some (a ∷ b ∷ c ∷ bs)
prepend _ _ = none

-- Not strict: the bits that are left over at the end are not looked at.
unfoldable pub pack : Bytes → Option Bytes
pack [] = some []
pack (x ∷ []) = none
pack (x ∷ y ∷ []) = some ((x * 4 + y / 16) ∷ [])
pack (x ∷ y ∷ z ∷ []) = some ((x * 4 + y / 16) ∷ (y % 16 * 16 + z / 4) ∷ [])
pack (x ∷ y ∷ z ∷ t ∷ rest) =
    prepend ((x * 4 + y / 16) ∷ (y % 16 * 16 + z / 4) ∷ (z % 4 * 64 + t) ∷ []) (pack rest)

abbrev pub packed : Option Bytes → Option Bytes
packed none = none
packed (some ns) = pack ns

-- `DecodeString`; none is its error.
unfoldable pub decode : Bytes → Option Bytes
decode s = packed (sextets (without_newlines s))

pub sextet-letter : (n : ℕ) → n < 64 → sextet (letter n) ≡ some n
unfolding sextet letter
sextet-letter n h = ground arith

-- No letter is a newline or a '$'.
pub letter-plain :
    (n : ℕ) → n < 64 → ((letter n == 10 || letter n == 13) ≡ false) × ((letter n == b'$') ≡ false)
unfolding letter
letter-plain n h = ground arith
