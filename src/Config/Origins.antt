-- ===== src/Config/Origins.antt =====
-- The list of CORS origins in the configuration.
use multi_tenant_authorizati.Base.{
  ◌≡◌, refl, inl, inr, false, ◌&&◌, String, List, [], ◌∷◌, str_eq, Bool-cases,
}
use Prim.Native.Char.{code}
use multi_tenant_authorizati.Db.Rows.{All}
use multi_tenant_authorizati.Text.{
  is_space, is_empty, trim_left, trim_right, trim_space, split_comma,
}
use multi_tenant_authorizati.Config.{trim_parts, split_list}

abbrev StartsText : String → Type 0
StartsText String.[] = Unit
StartsText (String.◌∷◌ c s) = is_space (code c) ≡ false

trim_left-StartsText : (s : String) → StartsText (trim_left s)
unfolding trim_left
trim_left-StartsText String.[] = tt
trim_left-StartsText (String.◌∷◌ c s) = elim (Bool-cases (is_space (code c))) [
  | inl space ↦ rw (space) (trim_left-StartsText s)
  | inr text ↦ rw (text) text
]

trim_right-StartsText : (s : String) → StartsText s → StartsText (trim_right s)
unfolding trim_right
trim_right-StartsText String.[] h = tt
trim_right-StartsText (String.◌∷◌ c s) h =
    elim (Bool-cases (is_empty (trim_right s) && is_space (code c))) [
      | inl dropped ↦ rw (dropped) tt
      | inr kept ↦ rw (kept) h
    ]

trim_left_id : (s : String) → StartsText s → trim_left s ≡ s
unfolding trim_left
trim_left_id String.[] h = refl
trim_left_id (String.◌∷◌ c s) h = rw (h) refl

trim_right_id : (s : String) → trim_right (trim_right s) ≡ trim_right s
unfolding trim_right
trim_right_id String.[] = refl
trim_right_id (String.◌∷◌ c s) = elim (Bool-cases (is_empty (trim_right s) && is_space (code c))) [
  | inl dropped ↦ rw (dropped) refl
  | inr kept ↦ rw (kept, trim_right_id s, kept) refl
]

-- Trimming twice is trimming once.
trim_space_id : (s : String) → trim_space (trim_space s) ≡ trim_space s
unfolding trim_space
trim_space_id s =
    rw (trim_left_id _ (trim_right-StartsText _ (trim_left-StartsText s)))
      (trim_right_id (trim_left s))

-- An origin is some text, without white space around it.
abbrev pub IsOrigin : String → Type 0
IsOrigin o = (str_eq o "" ≡ false) × (trim_space o ≡ o)

trim_parts-IsOrigin : (parts : List String) → All IsOrigin (trim_parts parts)
unfolding trim_parts
trim_parts-IsOrigin [] = tt
trim_parts-IsOrigin (part ∷ parts) = elim (Bool-cases (str_eq (trim_space part) "")) [
  | inl blank ↦ rw (blank) (trim_parts-IsOrigin parts)
  | inr text ↦ rw (text) ((text, trim_space_id part), trim_parts-IsOrigin parts)
]

pub split_list-IsOrigin : (raw : String) → All IsOrigin (split_list raw)
unfolding split_list
split_list-IsOrigin raw = trim_parts-IsOrigin ((split_comma raw).0 ∷ (split_comma raw).1)
