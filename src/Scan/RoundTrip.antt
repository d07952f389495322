-- ===== src/Scan/RoundTrip.antt =====
-- Sscanf reads back what Sprintf prints, and Split undoes a join.
use Prim.Native.Nat.{◌/◌, ◌%◌, ◌^◌}
use multi_tenant_authorizati.Base.{
  ℕ, zero, suc, ◌+◌, ◌*◌, ◌<◌, ◌≤◌, ◌≡◌, refl, ◌∙◌, true, false, some, [], ◌∷◌, ◌++◌, ◌==◌, ltb,
  arith, Bool-cases, inl, inr,
}
use multi_tenant_authorizati.Db.Rows.{All}
use multi_tenant_authorizati.Text.{is_space}
use multi_tenant_authorizati.Scan.{
  Runes, split, is_digit, digits, decimal, skip_space, scan_digits, starts_with_digit, scan_number,
  scan_uint,
}

abbrev pub Without : ℕ → Runes → Type 0
Without sep = All (λ c. (c == sep) ≡ false)

pub split-append :
    (sep : ℕ) (p s : Runes)
    → Without sep p
    → split sep (p ++ sep ∷ s) ≡ (p, (split sep s).0 ∷ (split sep s).1)
unfolding split
split-append sep [] s _ = ground arith
split-append sep (c ∷ p) s (h, hs) = rw (split-append sep p s hs, h) refl

pub split_last : (sep : ℕ) (p : Runes) → Without sep p → split sep p ≡ (p, [])
unfolding split
split_last sep [] _ = refl
split_last sep (c ∷ p) (h, hs) = rw (split_last sep p hs, h) refl

power : ℕ → ℕ
power zero = 1
power (suc k) = 10 * power k

scan_digits_step :
    (n : ℕ) (out : Runes) → scan_digits (n / 10) ((b'0' + n % 10) ∷ out) ≡ scan_digits n out
unfolding scan_digits
scan_digits_step n out = ground arith

scan_digits_first :
    (n : ℕ) (out : Runes) → n < 10 → scan_digits 0 ((b'0' + n) ∷ out) ≡ scan_digits n out
unfolding scan_digits
scan_digits_first n out h = ground arith

-- Reading the digits of a number gives the number.
scan_digits-digits :
    (fuel n : ℕ) (out : Runes)
    → n < power (suc fuel)
    → scan_digits 0 (digits fuel n out) ≡ scan_digits n out
unfolding digits power
scan_digits-digits zero n out h = ground (arith, scan_digits_first n out (omega arith))
scan_digits-digits (suc fuel) n out h = elim (Bool-cases (ltb n 10)) [
  | inl small ↦ rw (small) (scan_digits_first n out (ground arith))
  | inr large ↦ rw (large) (
      scan_digits-digits fuel (n / 10) ((b'0' + n % 10) ∷ out) (omega arith)
      ∙ scan_digits_step n out)
]

starts_with_digit-digits :
    (fuel n : ℕ) (out : Runes) → n < power (suc fuel) → starts_with_digit (digits fuel n out) ≡ true
unfolding digits starts_with_digit power
starts_with_digit-digits zero n out h = ground arith
starts_with_digit-digits (suc fuel) n out h = elim (Bool-cases (ltb n 10)) [
  | inl small ↦ rw (small) (ground arith)
  | inr large ↦
      rw (large) (starts_with_digit-digits fuel (n / 10) ((b'0' + n % 10) ∷ out) (omega arith))
]

scan_digits_stop : (n : ℕ) (s : Runes) → starts_with_digit s ≡ false → scan_digits n s ≡ (n, s)
unfolding scan_digits starts_with_digit
scan_digits_stop n [] _ = refl
scan_digits_stop n (c ∷ s) h = rw (h) refl

skip_space_digit : (s : Runes) → starts_with_digit s ≡ true → skip_space s ≡ some s
unfolding skip_space starts_with_digit is_space
skip_space_digit [] h = ground arith
skip_space_digit (c ∷ s) h = ground arith

-- What Sprintf prints for an unsigned number, Sscanf reads back, with the text behind it.
pub scan_uint-decimal :
    (max n : ℕ) (s : Runes)
    → n ≤ max
    → max < 2 ^ 64
    → starts_with_digit s ≡ false
    → scan_uint max (decimal n s) ≡ some (n, s)
unfolding scan_uint decimal scan_number power
scan_uint-decimal max n s h bound stop =
    rw
      (
        skip_space_digit _ (starts_with_digit-digits 19 n s (omega arith)),
        starts_with_digit-digits 19 n s (omega arith),
        scan_digits-digits 19 n s (omega arith),
        scan_digits_stop n s stop,
      )
      (ground arith)

pub digits-Without :
    (sep fuel n : ℕ) (out : Runes)
    → is_digit sep ≡ false
    → Without sep out
    → Without sep (digits fuel n out)
unfolding digits
digits-Without sep zero n out no_digit h = (ground arith, h)
digits-Without sep (suc fuel) n out no_digit h = elim (Bool-cases (ltb n 10)) [
  | inl small ↦ rw (small) (ground arith, h)
  | inr large ↦ rw (large) (digits-Without sep fuel (n / 10) _ no_digit (ground arith, h))
]
