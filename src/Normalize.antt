-- ===== src/Normalize.antt =====
-- internal/normalize: emails, phone numbers and login identifiers before they are compared.
use Prim.Native.Char.{code}
use multi_tenant_authorizati.Base.{ℕ, String, Option, none, some, ◌==◌, if◌then◌else◌}
use Prim.Native.String.{◌++◌ as append}
use multi_tenant_authorizati.Text.{contains_at, trim_space, strip_prefix}

-- `strings.ReplaceAll(s, c, "")`
unfoldable pub remove_char : ℕ → String → String
remove_char k String.[] = String.[]
remove_char k (String.◌∷◌ c s) =
    if code c == k then remove_char k s else String.◌∷◌ c (remove_char k s)

-- `TrimSpace` and both `ReplaceAll`
unfoldable pub cleaned : String → String
unfolding remove_char
cleaned s = remove_char b'-' (remove_char b' ' (trim_space s))

abbrev with_plus : String → Option String → String
with_plus s none = s
with_plus s (some _) = append "+" s

abbrev international : String → Option String → String
international s (some rest) = append "+234" rest
international s none = with_plus s (strip_prefix "234" s)

-- The cases of NigerianPhone, in their order.
unfoldable pub nigerian_phone : String → String
unfolding cleaned
nigerian_phone s = international (cleaned s) (strip_prefix "0" (cleaned s))

-- What the package takes from elsewhere: strings.ToLower, and Parse and Format to E.164 of
-- github.com/nyaruka/phonenumbers for a number and a default region.
pub record Phonebook : Type 0 where
  pub to_lower : String → String
  pub to_e164 : String → String → Option String

module _ (lib : Phonebook) where
  unfoldable pub email : String → String
  email s = lib.to_lower (trim_space s)

  unfoldable pub phone : String → String → Option String
  unfolding cleaned
  phone s region = lib.to_e164 (cleaned s) region

  -- A number that does not parse is left to the validator.
  abbrev or_as_is : String → Option String → String
  or_as_is s none = s
  or_as_is s (some n) = n

  unfoldable pub identifier : String → String → String
  unfolding email phone
  identifier s region =
      if contains_at (trim_space s)
      then email (trim_space s)
      else or_as_is (trim_space s) (phone (trim_space s) region)
