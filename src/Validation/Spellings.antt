-- ===== src/Validation/Spellings.antt =====
-- NigerianPhone and the validator fit: the usual spellings of a mobile number all become the one
-- that is accepted.
use Prim.Native.Char.{code}
use Prim.Native.String.{◌++◌ as append}
use Prim.Native.String.append
use multi_tenant_authorizati.Base.{
  ℕ, ◌≡◌, refl, ap, ◌⊎◌, inl, inr, String, true, false, none, some, ◌∷◌, ◌++◌, ◌==◌, arith, Bool,
  not, ◌||◌, [], sym, subst, Bool-cases,
}
use multi_tenant_authorizati.Db.Rows.{All, select}
use multi_tenant_authorizati.Text.{
  strip_prefix, trim_space, trim_left, trim_right, is_space, is_empty,
}
use multi_tenant_authorizati.Scan.{Runes, runes, is_digit, length}
use multi_tenant_authorizati.Normalize.{remove_char, cleaned, nigerian_phone}
use multi_tenant_authorizati.Validation.Custom.{is_mobile, validate_ng_phone}
use multi_tenant_authorizati.Validation.Phones.{validate_ng_phone_iff}

-- The nine digits and the one before them, behind one of the three beginnings that people write.
abbrev pub IsSpelling : Runes → ℕ → Runes → Type 0
IsSpelling s c ds =
    ((s ≡ b'0' ∷ c ∷ ds)
      ⊎ (s ≡ b'2' ∷ b'3' ∷ b'4' ∷ c ∷ ds)
      ⊎ (s ≡ b'+' ∷ b'2' ∷ b'3' ∷ b'4' ∷ c ∷ ds))

runes-append : (s t : String) → runes (append s t) ≡ runes s ++ runes t
runes-append String.[] t = ap runes (append.nil t)
runes-append (String.◌∷◌ c s) t = rw (append.cons c s t) (ap (λ r. code c ∷ r) (runes-append s t))

local_runes :
    (s : String) (t : Runes)
    → runes s ≡ b'0' ∷ t
    → (rest : String) × (strip_prefix "0" s ≡ some rest) × (runes rest ≡ t)
unfolding strip_prefix
local_runes String.[] t h = absurd (ground arith)
local_runes (String.◌∷◌ c s) t h = (s, ground arith, ground arith)

not_local :
    (s : String) (k : ℕ) (t : Runes)
    → runes s ≡ k ∷ t
    → (k == b'0') ≡ false
    → strip_prefix "0" s ≡ none
unfolding strip_prefix
not_local String.[] k t h n = refl
not_local (String.◌∷◌ c s) k t h n = ground arith

foreign_runes :
    (s : String) (t : Runes)
    → runes s ≡ b'2' ∷ b'3' ∷ b'4' ∷ t
    → (rest : String) × (strip_prefix "234" s ≡ some rest)
unfolding strip_prefix
foreign_runes String.[] t h = absurd (ground arith)
foreign_runes (String.◌∷◌ a String.[]) t h = absurd (ground arith)
foreign_runes (String.◌∷◌ a (String.◌∷◌ b String.[])) t h = absurd (ground arith)
foreign_runes (String.◌∷◌ a (String.◌∷◌ b (String.◌∷◌ c s))) t h = (s, ground arith)

not_foreign :
    (s : String) (k : ℕ) (t : Runes)
    → runes s ≡ k ∷ t
    → (k == b'2') ≡ false
    → strip_prefix "234" s ≡ none
unfolding strip_prefix
not_foreign String.[] k t h n = refl
not_foreign (String.◌∷◌ c s) k t h n = ground arith

-- The three spellings become the same text.
nigerian_phone-runes :
    (s : String) (c : ℕ) (ds : Runes)
    → IsSpelling (runes (cleaned s)) c ds
    → runes (nigerian_phone s) ≡ b'+' ∷ b'2' ∷ b'3' ∷ b'4' ∷ c ∷ ds
unfolding nigerian_phone
nigerian_phone-runes s c ds (inl h) =
    let (rest, found, tail) = local_runes (cleaned s) (c ∷ ds) h in
    rw (found, runes-append "+234" rest, tail) refl
nigerian_phone-runes s c ds (inr (inl h)) =
    let (rest, found) = foreign_runes (cleaned s) (c ∷ ds) h in
    rw
      (
        not_local (cleaned s) b'2' (b'3' ∷ b'4' ∷ c ∷ ds) h refl,
        found,
        runes-append "+" (cleaned s),
        h,
      )
      refl
nigerian_phone-runes s c ds (inr (inr h)) =
    rw
      (
        not_local (cleaned s) b'+' (b'2' ∷ b'3' ∷ b'4' ∷ c ∷ ds) h refl,
        not_foreign (cleaned s) b'+' (b'2' ∷ b'3' ∷ b'4' ∷ c ∷ ds) h refl,
        h,
      )
      refl

-- What is left of a text without its spaces and dashes.
abbrev is_kept : ℕ → Bool
is_kept c = not (c == b' ' || c == b'-')

abbrev pub without_separators : Runes → Runes
without_separators = select is_kept

remove_char-select :
    (k : ℕ) (s : String) → runes (remove_char k s) ≡ select (λ c. not (c == k)) (runes s)
unfolding remove_char
remove_char-select k String.[] = refl
remove_char-select k (String.◌∷◌ c s) = ground (arith, remove_char-select k s)

select_twice :
    (s : Runes)
    → select (λ c. not (c == b'-')) (select (λ c. not (c == b' ')) s) ≡ without_separators s
select_twice [] = refl
select_twice (c ∷ s) = ground (arith, select_twice s)

-- No white space is left.
abbrev NoSpace : Runes → Type 0
NoSpace s = All (λ c. is_space c ≡ false) (without_separators s)

trim_left_separators :
    (s : String)
    → NoSpace (runes s)
    → without_separators (runes (trim_left s)) ≡ without_separators (runes s)
unfolding trim_left
trim_left_separators String.[] h = refl
trim_left_separators (String.◌∷◌ c s) h = elim (Bool-cases (is_kept (code c))) [
  | inl kept ↦ ground (arith, trim_left_separators s)
  | inr skipped ↦ ground (arith, trim_left_separators s)
]

empty_runes : (s : String) → is_empty s ≡ true → runes s ≡ []
unfolding is_empty
empty_runes String.[] h = refl
empty_runes (String.◌∷◌ c s) h = absurd (cc)

trim_right_separators :
    (s : String)
    → NoSpace (runes s)
    → without_separators (runes (trim_right s)) ≡ without_separators (runes s)
unfolding trim_right
trim_right_separators String.[] h = refl
trim_right_separators (String.◌∷◌ c s) h = elim (Bool-cases (is_kept (code c))) [
  | inl kept ↦ ground (arith, trim_right_separators s)
  | inr skipped ↦ ground (arith, trim_right_separators s, empty_runes (trim_right s))
]

cleaned-without_separators :
    (s : String) → NoSpace (runes s) → runes (cleaned s) ≡ without_separators (runes s)
unfolding cleaned trim_space
cleaned-without_separators s h =
    let left = trim_left_separators s h in
    let right =
      trim_right_separators (trim_left s) (subst (All (λ c. is_space c ≡ false)) (sym left) h) in
    rw
      (
        remove_char-select b'-' (remove_char b' ' (trim_right (trim_left s))),
        remove_char-select b' ' (trim_right (trim_left s)),
        select_twice (runes (trim_right (trim_left s))),
        right,
        left,
      )
      refl

digits-not_space : (ds : Runes) → All (λ d. is_digit d ≡ true) ds → All (λ d. is_space d ≡ false) ds
unfolding is_space
digits-not_space [] h = tt
digits-not_space (d ∷ ds) (h, hs) = (ground arith, digits-not_space ds hs)

mobile_not_space : (c : ℕ) → is_mobile c ≡ true → is_space c ≡ false
unfolding is_space
mobile_not_space c h = ground arith

IsSpelling-not_space :
    (s : Runes) (c : ℕ) (ds : Runes)
    → IsSpelling s c ds
    → is_mobile c ≡ true
    → All (λ d. is_digit d ≡ true) ds
    → All (λ d. is_space d ≡ false) s
unfolding is_space
IsSpelling-not_space s c ds spelt mobile all =
    let tail : All (λ d. is_space d ≡ false) (c ∷ ds) =
      (mobile_not_space c mobile, digits-not_space ds all) in
    elim spelt [
      | inl h ↦ subst (All (λ d. is_space d ≡ false)) (sym h) (refl, tail)
      | inr (inl h) ↦ subst (All (λ d. is_space d ≡ false)) (sym h) (refl, (refl, (refl, tail)))
      | inr (inr h) ↦
          subst (All (λ d. is_space d ≡ false)) (sym h) (refl, (refl, (refl, (refl, tail))))
    ]

-- A text which, without its spaces and dashes, is a mobile number with a leading 0, with 234 or
-- with +234, becomes the E.164 form of the number, and the validator accepts that.
pub nigerian_phone-IsNgPhone :
    (s : String) (c : ℕ) (ds : Runes)
    → IsSpelling (without_separators (runes s)) c ds
    → is_mobile c ≡ true
    → length ds ≡ 9
    → All (λ d. is_digit d ≡ true) ds
    → (runes (nigerian_phone s) ≡ b'+' ∷ b'2' ∷ b'3' ∷ b'4' ∷ c ∷ ds)
      × (validate_ng_phone (nigerian_phone s) ≡ true)
nigerian_phone-IsNgPhone s c ds spelt mobile len all =
    let clean =
      cleaned-without_separators s
        (IsSpelling-not_space (without_separators (runes s)) c ds spelt mobile all) in
    let same = nigerian_phone-runes s c ds (subst (λ r. IsSpelling r c ds) (sym clean) spelt) in
    (same, (validate_ng_phone_iff (nigerian_phone s)).1 (c, ds, same, mobile, len, all))
