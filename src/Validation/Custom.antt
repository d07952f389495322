-- ===== src/Validation/Custom.antt =====
-- internal/validation/extended.go: the validators for phone numbers and login identifiers.
use multi_tenant_authorizati.Base.{ℕ, String, Bool, true, ◌||◌, ◌&&◌, ◌==◌, leb, if◌then◌else◌}
use multi_tenant_authorizati.Text.{trim_space}
use multi_tenant_authorizati.Scan.{runes, is_digit}
use multi_tenant_authorizati.Validation.Regex.{Regex, empty, class, seq, star, plus, times, matches}

-- One rune.
abbrev pub char : ℕ → Regex
char k = class (λ c. c == k)

abbrev pub is_letter : ℕ → Bool
is_letter c = leb b'a' c && leb c b'z'

-- `[7-9]`
abbrev pub is_mobile : ℕ → Bool
is_mobile c = leb b'7' c && leb c b'9'

-- `[a-z0-9.\-]`
abbrev pub is_domain : ℕ → Bool
is_domain c = is_letter c || is_digit c || c == b'.' || c == b'-'

-- `[a-z0-9._%+\-]`
abbrev pub is_local : ℕ → Bool
is_local c = is_domain c || c == b'_' || c == b'%' || c == b'+'

-- `^\+234[7-9]\d{9}$`
unfoldable pub ng_phone_regex : Regex
ng_phone_regex = seq (char b'+') (
    seq (char b'2')
      (seq (char b'3') (seq (char b'4') (seq (class is_mobile) (times 9 (class is_digit) empty)))))

-- `^[a-z0-9._%+\-]+@[a-z0-9.\-]+\.[a-z]{2,}$`
unfoldable pub email_regex : Regex
email_regex = seq (plus (class is_local)) (
    seq (char b'@') (
      seq (plus (class is_domain))
        (seq (char b'.') (seq (class is_letter) (seq (class is_letter) (star (class is_letter)))))))

unfoldable pub validate_ng_phone : String → Bool
unfolding ng_phone_regex
validate_ng_phone s = matches ng_phone_regex (runes s)

abbrev pub is_email : String → Bool
is_email s = matches email_regex (runes s)

unfoldable pub validate_ng_identifier : String → Bool
unfolding ng_phone_regex email_regex
validate_ng_identifier s =
    if is_email (trim_space s) then true else matches ng_phone_regex (runes (trim_space s))

-- `parses` stands for Parse of github.com/nyaruka/phonenumbers, without a default region.
module _ (parses : String → Bool) where
  unfoldable validate_phone : String → Bool
  validate_phone s = parses s

  unfoldable validate_identifier : String → Bool
  unfolding email_regex
  validate_identifier s = if is_email (trim_space s) then true else parses (trim_space s)
