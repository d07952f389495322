-- ===== src/Validation/Identifiers.antt =====
-- What the tag ngidentifier accepts, which no request type of the program carries.
use multi_tenant_authorizati.Base.{
  ◌≡◌, refl, ◌∙◌, ◌⊎◌, inl, inr, String, Bool, true, false, [], ◌∷◌, ◌++◌, ◌==◌, arith, Bool-cases,
}
use multi_tenant_authorizati.Db.Rows.{All, exists_row}
use multi_tenant_authorizati.Text.{contains_at, trim_space}
use multi_tenant_authorizati.Scan.{Runes, runes, is_digit}
use multi_tenant_authorizati.Validation.Regex.{class, plus, matches, matches-seq}
use multi_tenant_authorizati.Validation.Custom.{
  is_local, is_email, email_regex, validate_ng_identifier,
}
use multi_tenant_authorizati.Validation.Phones.{IsNgPhone, char-matches, IsNgPhone-sound}

abbrev has_at : Runes → Bool
has_at = exists_row (λ c. c == b'@')

contains_at-has_at : (s : String) → contains_at s ≡ has_at (runes s)
unfolding contains_at
contains_at-has_at String.[] = refl
contains_at-has_at (String.◌∷◌ c s) = ground (arith, contains_at-has_at s)

has_at-behind : (u t : Runes) → has_at (u ++ b'@' ∷ t) ≡ true
has_at-behind [] t = refl
has_at-behind (c ∷ u) t = ground (arith, has_at-behind u t)

email-has_at : (s : Runes) → matches email_regex s ≡ true → has_at s ≡ true
unfolding email_regex
email-has_at s h =
    let (u, v, cut, before, rest) = matches-seq (plus (class is_local)) _ s h in
    let (t, at, _) = char-matches b'@' _ v rest in rw (cut, at) (has_at-behind u t)

digits-no_at : (ds : Runes) → All (λ d. is_digit d ≡ true) ds → has_at ds ≡ false
digits-no_at [] h = refl
digits-no_at (d ∷ ds) (h, hs) = ground (arith, digits-no_at ds hs)

ng_phone-no_at : (s : Runes) → IsNgPhone s → has_at s ≡ false
ng_phone-no_at s (c, ds, cut, mobile, len, all) =
    let rest = digits-no_at ds all in rw (cut) (ground arith)

-- It is an email, which has an '@', or a Nigerian mobile number, which has none.
validate_ng_identifier_kinds :
    (s : String)
    → validate_ng_identifier s ≡ true
    → ((is_email (trim_space s) ≡ true) × (contains_at (trim_space s) ≡ true))
      ⊎ (IsNgPhone (runes (trim_space s)) × (contains_at (trim_space s) ≡ false))
unfolding validate_ng_identifier
validate_ng_identifier_kinds s h = elim (Bool-cases (is_email (trim_space s))) [
  | inl email ↦
      inl (email, contains_at-has_at (trim_space s) ∙ email-has_at (runes (trim_space s)) email)
  | inr other ↦
      let phone = IsNgPhone-sound (runes (trim_space s)) (ground arith) in
      inr (phone, contains_at-has_at (trim_space s) ∙ ng_phone-no_at (runes (trim_space s)) phone)
]
