-- ===== src/Validation/Phones.antt =====
-- What the validators accept, and that a local number normalizes to an accepted one.
use multi_tenant_authorizati.Base.{
  ℕ, suc, zero, ◌≡◌, refl, ◌∙◌, ap, sym, ◌↔◌, String, Bool, true, [], ◌∷◌, ◌==◌, arith, subst,
}
use multi_tenant_authorizati.Db.Rows.{All}
use multi_tenant_authorizati.Scan.{Runes, runes, is_digit, length}
use multi_tenant_authorizati.Validation.Regex.{
  Regex, empty, class, seq, times, matches, accepts_empty, derive, matches-class, matches-never,
}
use multi_tenant_authorizati.Validation.Custom.{char, is_mobile, ng_phone_regex, validate_ng_phone}

class-matches :
    (p : ℕ → Bool) (b : Regex) (s : Runes)
    → matches (seq (class p) b) s ≡ true
    → (c : ℕ) × (t : Runes) × (s ≡ c ∷ t) × (p c ≡ true) × (matches b t ≡ true)
unfolding matches accepts_empty
class-matches p b [] h = absurd (ground arith)
class-matches p b (c ∷ s) h =
    let both = sym (matches-class p b c s) ∙ h in (c, s, refl, ground arith, ground arith)

matches-times_sound :
    (n : ℕ) (p : ℕ → Bool) (s : Runes)
    → matches (times n (class p) empty) s ≡ true
    → (length s ≡ n) × All (λ c. p c ≡ true) s
unfolding times matches derive accepts_empty
matches-times_sound zero p [] h = (refl, tt)
matches-times_sound zero p (c ∷ s) h = let no = matches-never s in absurd (ground arith)
matches-times_sound (suc n) p s h =
    let (c, t, cut, hit, rest) = class-matches p (times n (class p) empty) s h in
    let (len, all) = matches-times_sound n p t rest in
    subst (λ x. (length x ≡ suc n) × All (λ c. p c ≡ true) x) (sym cut) (ap suc len, (hit, all))

matches-times_complete :
    (n : ℕ) (p : ℕ → Bool) (s : Runes)
    → length s ≡ n
    → All (λ c. p c ≡ true) s
    → matches (times n (class p) empty) s ≡ true
unfolding times matches accepts_empty
matches-times_complete zero p [] e h = refl
matches-times_complete zero p (c ∷ s) e h = absurd (omega arith)
matches-times_complete (suc n) p [] e h = absurd (omega arith)
matches-times_complete (suc n) p (c ∷ s) e (hit, h) =
    rw (matches-class p (times n (class p) empty) c s, hit)
      (matches-times_complete n p s (omega arith) h)

-- A Nigerian mobile number in E.164: +234, a digit from 7 to 9, and nine digits.
abbrev pub IsNgPhone : Runes → Type 0
IsNgPhone s =
    (c : ℕ) × (ds : Runes) × (s ≡ b'+' ∷ b'2' ∷ b'3' ∷ b'4' ∷ c ∷ ds)
    × (is_mobile c ≡ true)
    × (length ds ≡ 9)
    × All (λ d. is_digit d ≡ true) ds

pub char-matches :
    (k : ℕ) (b : Regex) (s : Runes)
    → matches (seq (char k) b) s ≡ true
    → (t : Runes) × (s ≡ k ∷ t) × (matches b t ≡ true)
char-matches k b s h =
    let (c, t, cut, same, rest) = class-matches (λ c. c == k) b s h in (t, ground arith, rest)

pub IsNgPhone-sound : (s : Runes) → matches ng_phone_regex s ≡ true → IsNgPhone s
unfolding ng_phone_regex
IsNgPhone-sound s h =
    let (t₁, cut₁, h₁) = char-matches b'+' _ s h in
    let (t₂, cut₂, h₂) = char-matches b'2' _ t₁ h₁ in
    let (t₃, cut₃, h₃) = char-matches b'3' _ t₂ h₂ in
    let (t₄, cut₄, h₄) = char-matches b'4' _ t₃ h₃ in
    let (c, ds, cut₅, mobile, h₅) = class-matches is_mobile _ t₄ h₄ in
    let (len, all) = matches-times_sound 9 is_digit ds h₅ in (c, ds, ground arith, mobile, len, all)

ng_phone_complete : (s : Runes) → IsNgPhone s → matches ng_phone_regex s ≡ true
unfolding ng_phone_regex
ng_phone_complete s (c, ds, cut, mobile, len, all) =
    rw
      (
        cut,
        matches-class (λ c. c == b'+') _ b'+' _,
        matches-class (λ c. c == b'2') _ b'2' _,
        matches-class (λ c. c == b'3') _ b'3' _,
        matches-class (λ c. c == b'4') _ b'4' _,
        matches-class is_mobile _ c ds,
        mobile,
      )
      (matches-times_complete 9 is_digit ds len all)

-- The validator accepts exactly the Nigerian mobile numbers in E.164.
pub validate_ng_phone_iff : (s : String) → (validate_ng_phone s ≡ true) ↔ IsNgPhone (runes s)
unfolding validate_ng_phone
validate_ng_phone_iff s = (IsNgPhone-sound (runes s), ng_phone_complete (runes s))
