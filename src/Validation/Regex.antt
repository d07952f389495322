-- ===== src/Validation/Regex.antt =====
-- Regular expressions of Go's regexp package, as far as internal/validation/extended.go uses them:
-- anchored at both ends, on the runes of a text.
use multi_tenant_authorizati.Base.{
  ℕ, zero, suc, ◌≡◌, refl, ◌∙◌, ap, inl, inr, Bool, true, false, ◌&&◌, ◌||◌, [], ◌∷◌, ◌++◌, arith,
  if◌then◌else◌, Bool-cases, sym,
}
use multi_tenant_authorizati.Scan.{Runes}

pub data Regex : Type 0 where
  never empty : Regex
  class : (ℕ → Bool) → Regex
  seq alt : Regex → Regex → Regex
  star : Regex → Regex

-- `r+`
abbrev pub plus : Regex → Regex
plus r = seq r (star r)

-- `r{n}` in front of `k`
unfoldable pub times : ℕ → Regex → Regex → Regex
times zero r k = k
times (suc n) r k = seq r (times n r k)

unfoldable pub accepts_empty : Regex → Bool
accepts_empty never = false
accepts_empty empty = true
accepts_empty (class p) = false
accepts_empty (seq a b) = accepts_empty a && accepts_empty b
accepts_empty (alt a b) = accepts_empty a || accepts_empty b
accepts_empty (star a) = true

-- What is left to match behind the rune `c`.
unfoldable pub derive : ℕ → Regex → Regex
unfolding accepts_empty
derive c never = never
derive c empty = never
derive c (class p) = if p c then empty else never
derive c (seq a b) =
    let db = derive c b in alt (seq (derive c a) b) (if accepts_empty a then db else never)
derive c (alt a b) = alt (derive c a) (derive c b)
derive c (star a) = seq (derive c a) (star a)

-- `MatchString` between `^` and `$`.
unfoldable pub matches : Regex → Runes → Bool
unfolding derive
matches r [] = accepts_empty r
matches r (c ∷ s) = matches (derive c r) s

pub matches-never : (s : Runes) → matches never s ≡ false
unfolding matches derive accepts_empty
matches-never [] = refl
matches-never (c ∷ s) = matches-never s

matches-alt : (a b : Regex) (s : Runes) → matches (alt a b) s ≡ (matches a s || matches b s)
unfolding matches derive accepts_empty
matches-alt a b [] = refl
matches-alt a b (c ∷ s) = matches-alt (derive c a) (derive c b) s

matches-seq_never : (b : Regex) (s : Runes) → matches (seq never b) s ≡ false
unfolding matches derive accepts_empty
matches-seq_never b [] = refl
matches-seq_never b (c ∷ s) =
    rw (matches-alt (seq never b) never s, matches-seq_never b s, matches-never s) refl

matches-seq_empty : (b : Regex) (s : Runes) → matches (seq empty b) s ≡ matches b s
unfolding matches derive accepts_empty
matches-seq_empty b [] = refl
matches-seq_empty b (c ∷ s) =
    rw (matches-alt (seq never b) (derive c b) s, matches-seq_never b s) refl

-- A class takes one rune.
pub matches-class :
    (p : ℕ → Bool) (b : Regex) (c : ℕ) (s : Runes)
    → matches (seq (class p) b) (c ∷ s) ≡ (p c && matches b s)
unfolding matches derive accepts_empty
matches-class p b c s = elim (Bool-cases (p c)) [
  | inl hit ↦
      rw (hit, matches-alt (seq empty b) never s, matches-seq_empty b s, matches-never s)
        (or_false _)
  | inr miss ↦
      rw (miss, matches-alt (seq never b) never s, matches-seq_never b s, matches-never s) refl
]
  where
    or_false : (x : Bool) → (x || false) ≡ x
    or_false true = refl
    or_false false = refl

-- A text that a sequence matches is cut where its first part ends.
pub matches-seq :
    (a b : Regex) (s : Runes)
    → matches (seq a b) s ≡ true
    → (u : Runes) × (v : Runes) × (s ≡ u ++ v) × (matches a u ≡ true) × (matches b v ≡ true)
unfolding matches derive accepts_empty
matches-seq a b [] h = ([], [], refl, ground arith, ground arith)
matches-seq a b (c ∷ s) h = elim (Bool-cases (matches (seq (derive c a) b) s)) [
  | inl early ↦
      let (u, v, cut, first, rest) = matches-seq (derive c a) b s early in
      (c ∷ u, v, ap (λ t. c ∷ t) cut, first, rest)
  | inr late ↦
      let split =
        sym (matches-alt (seq (derive c a) b) (if accepts_empty a then derive c b else never) s)
        ∙ h in
      elim (Bool-cases (accepts_empty a)) [
        | inl empty_first ↦ ([], c ∷ s, refl, empty_first, ground arith)
        | inr nonempty ↦ let none_left = matches-never s in absurd (ground arith)
      ]
]
