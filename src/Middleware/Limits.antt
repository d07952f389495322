-- ===== src/Middleware/Limits.antt =====
-- The table of rate limiters: the keys do not share a bucket, and only idle entries are evicted.
use multi_tenant_authorizati.Base.{
  ◌≤◌, ◌-◌, ◌≡◌, refl, sym, subst, inl, inr, false, String, Option, some, [], ◌∷◌, arith, str_eq,
  eq_iff, Bool-cases, if◌then◌else◌,
}
use multi_tenant_authorizati.Db.Schema.{Time}
use multi_tenant_authorizati.Middleware.RateLimit.{
  Bucket, Visitor, Visitors, find_visitor, set_visitor, seen, admit, cleanup, idle_limit,
}

module _ (bucket : Bucket) where
  -- The entries of other keys stay.
  set-other :
      (key other : String) (v : Visitor bucket) (vs : Visitors bucket)
      → str_eq key other ≡ false
      → find_visitor bucket other (set_visitor bucket key v vs) ≡ find_visitor bucket other vs
  unfolding find_visitor set_visitor
  set-other key other v [] h = ground arith
  set-other key other v ((k, u) ∷ rest) h = elim (Bool-cases (str_eq k key)) [
    | inl same ↦ ground (arith, subst (λ x. str_eq x other ≡ false) (sym ((eq_iff k key).0 same)) h)
    | inr differs ↦ ground (arith, set-other key other v rest h)
  ]

  set-same :
      (key : String) (v : Visitor bucket) (vs : Visitors bucket)
      → find_visitor bucket key (set_visitor bucket key v vs) ≡ some v
  unfolding find_visitor set_visitor
  set-same key v [] = ground (arith, (eq_iff key key).1 refl)
  set-same key v ((k, u) ∷ rest) = elim (Bool-cases (str_eq k key)) [
    | inl same ↦ ground (arith, (eq_iff key key).1 refl)
    | inr differs ↦ ground (arith, set-same key v rest)
  ]

  -- The entry that a request leaves for its own key.
  abbrev spent : Time → Option (Visitor bucket) → Visitor bucket
  spent t o = record { limiter = (bucket.allow t (seen bucket t o).limiter).1; last_seen = t }

  -- A request takes a token from the bucket of its own key, a new one if the key has none, and
  -- touches no other bucket.
  admit-find :
      (key other : String) (t : Time) (vs : Visitors bucket)
      → find_visitor bucket other (admit bucket key t vs).1 ≡ (
          if str_eq key other
          then some (spent t (find_visitor bucket key vs))
          else find_visitor bucket other vs)
  unfolding admit
  admit-find key other t vs = elim (Bool-cases (str_eq key other)) [
    | inl same ↦ rw same (
        subst
          (λ x.
            find_visitor bucket x (admit bucket key t vs).1
            ≡ some (spent t (find_visitor bucket key vs)))
          ((eq_iff key other).0 same) (set-same key (spent t (find_visitor bucket key vs)) vs))
    | inr differs ↦
        rw differs (set-other key other (spent t (find_visitor bucket key vs)) vs differs)
  ]

  -- A round of the cleanup keeps every entry that was used in the last three minutes.
  cleanup-recent :
      (key : String) (v : Visitor bucket) (t : Time) (vs : Visitors bucket)
      → find_visitor bucket key vs ≡ some v
      → t - v.last_seen ≤ idle_limit
      → find_visitor bucket key (cleanup bucket t vs) ≡ some v
  unfolding find_visitor cleanup
  cleanup-recent key v t [] found recent = cc
  cleanup-recent key v t ((k, u) ∷ rest) found recent = elim (Bool-cases (str_eq k key)) [
    | inl same ↦ ground arith
    | inr differs ↦ ground (arith, cleanup-recent key v t rest)
  ]
