-- ===== src/Config/Loads.antt =====
-- Which environments Load accepts, and what it makes of them, read off the variables one by one.
use multi_tenant_authorizati.Base.{
  ◌≡◌, ◌↔◌, ◌⊎◌, inl, inr, refl, sym, suc, ◌<◌, true, false, Option, none, some, String, str_eq,
  arith, Bool-cases, Option-cases, subst, zero, Bool, not, List, [], ◌∷◌, map, eq_iff, ◌∙◌,
}
use multi_tenant_authorizati.Db.Rows.{All, select}
use multi_tenant_authorizati.Text.{trim_space, split_comma}
use multi_tenant_authorizati.Db.Schema.{Time}
use multi_tenant_authorizati.Utils.{ℤ, pos, negsuc}
use multi_tenant_authorizati.Config.{
  Config, valid, validate, lacks_parts, get_env, duration_env, config_of, load, positive,
  Checked-cases, unless_invalid, split_list, trim_parts,
}
use multi_tenant_authorizati.Config.Origins.{IsOrigin, split_list-IsOrigin}

-- The conditions of a usable configuration, as the package documents them.
abbrev pub Usable : Config → Type 0
Usable c =
    (str_eq c.app_name "" ≡ false)
    × (str_eq c.app_port "" ≡ false)
    × ((str_eq c.app_env "production" ≡ true) ⊎ (str_eq c.app_env "development" ≡ true))
    × (str_eq c.db_url "" ≡ false)
    × (lacks_parts c.cors_allowed_origins ≡ false)

validate_sound : (c : Config) → validate c ≡ none → Usable c
unfolding validate
validate_sound c h = elim (Bool-cases (str_eq c.app_env "production")) [
  | inl production ↦ (ground arith, ground arith, inl production, ground arith, ground arith)
  | inr other ↦ (ground arith, ground arith, inr (ground arith), ground arith, ground arith)
]

validate_complete : (c : Config) → Usable c → validate c ≡ none
unfolding validate
validate_complete c h = ground arith

-- The texts of a list that are not empty.
abbrev is_text : String → Bool
is_text s = not (str_eq s "")

-- The origins that a variable lists: its parts between commas, without the white space around them,
-- and without the parts that are then empty.
abbrev pub origins_in : String → List String
origins_in raw = select is_text (map trim_space ((split_comma raw).0 ∷ (split_comma raw).1))

trim_parts-select : (parts : List String) → trim_parts parts ≡ select is_text (map trim_space parts)
unfolding trim_parts
trim_parts-select [] = refl
trim_parts-select (part ∷ parts) = elim (Bool-cases (str_eq (trim_space part) "")) [
  | inl blank ↦ rw (blank, trim_parts-select parts) refl
  | inr text ↦ rw (text, trim_parts-select parts) refl
]

split_list-origins : (raw : String) → split_list raw ≡ origins_in raw
unfolding split_list
split_list-origins raw = trim_parts-select ((split_comma raw).0 ∷ (split_comma raw).1)

module _ (getenv : String → String) (parse_duration : String → Option ℤ) where
  -- What a lifetime is read from: the variable, or the fallback where it is not set.
  abbrev pub IsRead : String → String → String → Type 0
  IsRead key fallback raw =
      ((str_eq (getenv key) "" ≡ true) × (raw ≡ fallback))
      ⊎ ((str_eq (getenv key) "" ≡ false) × (raw ≡ getenv key))

  -- It is a duration that is positive.
  abbrev pub IsTtl : String → String → Time → Type 0
  IsTtl key fallback t =
      (raw : String) × IsRead key fallback raw × (parse_duration raw ≡ some (pos t)) × (0 < t)

  get_env-IsRead :
      (key fallback : String) → IsRead key fallback (get_env getenv parse_duration key fallback)
  unfolding get_env
  get_env-IsRead key fallback = elim (Bool-cases (str_eq (getenv key) "")) [
    | inl unset ↦ rw unset (inl (refl, refl))
    | inr set ↦ rw set (inr (refl, refl))
  ]

  IsRead-get_env :
      (key fallback raw : String)
      → IsRead key fallback raw
      → raw ≡ get_env getenv parse_duration key fallback
  unfolding get_env
  IsRead-get_env key fallback raw (inl (unset, same)) = rw unset same
  IsRead-get_env key fallback raw (inr (set, same)) = rw set same

  -- Without a fallback it is the variable as it stands.
  get_env_plain : (key : String) → get_env getenv parse_duration key "" ≡ getenv key
  unfolding get_env
  get_env_plain key = elim (Bool-cases (str_eq (getenv key) "")) [
    | inl unset ↦ rw unset (sym ((eq_iff (getenv key) "").0 unset))
    | inr set ↦ rw set refl
  ]

  duration_env-IsTtl :
      (key fallback : String) (t : Time)
      → (duration_env getenv parse_duration key fallback ≡ valid t) ↔ IsTtl key fallback t
  unfolding duration_env
  duration_env-IsTtl key fallback t =
      let raw = get_env getenv parse_duration key fallback in
      (
        λ h.
            let ttl = (positive-iff (parse_duration raw)).0 h in
            (raw, get_env-IsRead key fallback, ttl.0, ttl.1),
        λ (r, set, parses, above). (positive-iff (parse_duration raw)).1 (
            subst (λ x. (parse_duration x ≡ some (pos t)) × (0 < t))
              (IsRead-get_env key fallback r set) (parses, above)),
      )
    where
      positive-iff :
          (o : Option ℤ)
          → (positive getenv parse_duration key (get_env getenv parse_duration key fallback) o
              ≡ valid t)
            ↔ ((o ≡ some (pos t)) × (0 < t))
      positive-iff none = (λ h. ground arith, λ h. ground arith)
      positive-iff (some (pos zero)) = (λ h. ground arith, λ h. ground arith)
      positive-iff (some (pos (suc n))) = (λ h. ground arith, λ h. ground arith)
      positive-iff (some (negsuc n)) = (λ h. ground arith, λ h. ground arith)

  -- The configuration that the variables spell.
  abbrev pub Spelt : Config → Type 0
  Spelt c =
      (c.app_name ≡ getenv "APP_NAME")
      × (c.app_port ≡ getenv "APP_PORT")
      × (c.app_env ≡ getenv "APP_ENV")
      × (c.db_url ≡ getenv "DATABASE_URL")
      × IsTtl "ACCESS_TOKEN_TTL" "15m" c.access_token_ttl
      × IsTtl "REFRESH_TOKEN_TTL" "720h" c.refresh_token_ttl
      × (c.cors_allowed_origins ≡ origins_in (getenv "CORS_ALLOWED_ORIGINS"))

  -- `config_of` in terms of the variables.
  spelt : Time → Time → Config
  spelt a r = record {
    app_name = getenv "APP_NAME";
    app_port = getenv "APP_PORT";
    app_env = getenv "APP_ENV";
    db_url = getenv "DATABASE_URL";
    access_token_ttl = a;
    refresh_token_ttl = r;
    cors_allowed_origins = origins_in (getenv "CORS_ALLOWED_ORIGINS");
  }

  config_of-spelt : (a r : Time) → config_of getenv parse_duration a r ≡ spelt a r
  unfolding spelt
  config_of-spelt a r =
      rw
        (
          get_env_plain "APP_NAME",
          get_env_plain "APP_PORT",
          get_env_plain "APP_ENV",
          get_env_plain "DATABASE_URL",
          get_env_plain "CORS_ALLOWED_ORIGINS",
          split_list-origins (getenv "CORS_ALLOWED_ORIGINS"),
        )
        refl

  unless_invalid_sound :
      (b c : Config)
      → unless_invalid getenv parse_duration b (validate b) ≡ valid c
      → (c ≡ b) × Usable b
  unless_invalid_sound b c h = elim (Option-cases (validate b)) [
    | inl fine ↦ (ground arith, validate_sound b fine)
    | inr (x, bad) ↦ absurd (ground arith)
  ]

  load_sound : (c : Config) → load getenv parse_duration ≡ valid c → Spelt c × Usable c
  unfolding load spelt
  load_sound c h =
      elim (Checked-cases (duration_env getenv parse_duration "ACCESS_TOKEN_TTL" "15m")) [
        | inr (x, bad) ↦ absurd (ground arith)
        | inl (a, access) ↦
            elim (Checked-cases (duration_env getenv parse_duration "REFRESH_TOKEN_TTL" "720h")) [
              | inr (x, bad) ↦ absurd (ground arith)
              | inl (r, refresh) ↦
                  let (same, usable) =
                    unless_invalid_sound (config_of getenv parse_duration a r) c (ground arith) in
                  subst (λ (x : Config). Spelt x × Usable x) (sym (config_of-spelt a r) ∙ sym same)
                    (
                      (
                        refl,
                        refl,
                        refl,
                        refl,
                        (duration_env-IsTtl _ _ a).0 access,
                        (duration_env-IsTtl _ _ r).0 refresh,
                        refl,
                      ),
                      subst Usable (config_of-spelt a r) usable,
                    )
            ]
      ]

  spelt_same : (c : Config) → Spelt c → c ≡ spelt c.access_token_ttl c.refresh_token_ttl
  unfolding spelt
  spelt_same c (name, port, env, url, _, _, origins) = λ i. record {
    app_name = name i;
    app_port = port i;
    app_env = env i;
    db_url = url i;
    access_token_ttl = c.access_token_ttl;
    refresh_token_ttl = c.refresh_token_ttl;
    cors_allowed_origins = origins i;
  }

  -- A configuration is loaded exactly if its texts are those of APP_NAME, APP_PORT, APP_ENV and
  -- DATABASE_URL, its lifetimes are the positive durations in ACCESS_TOKEN_TTL and
  -- REFRESH_TOKEN_TTL, or 15m and 720h where these are not set, its origins are the parts of
  -- CORS_ALLOWED_ORIGINS that are not blank, trimmed and in their order, no text is empty, the
  -- environment is production or development, and there is an origin.
  pub load_iff : (c : Config) → (load getenv parse_duration ≡ valid c) ↔ (Spelt c × Usable c)
  unfolding load
  load_iff c = (
    load_sound c,
    λ (s, usable).
        let same = spelt_same c s ∙ sym (config_of-spelt c.access_token_ttl c.refresh_token_ttl) in
        rw
          (
            (duration_env-IsTtl "ACCESS_TOKEN_TTL" "15m" c.access_token_ttl).1 s.4,
            (duration_env-IsTtl "REFRESH_TOKEN_TTL" "720h" c.refresh_token_ttl).1 s.5,
          )
          (subst (λ b. unless_invalid getenv parse_duration b (validate b) ≡ valid c) same
            (rw (validate_complete c usable) refl)),
  )

  -- Every origin of a configuration that is loaded is some text without white space around it, and
  -- there is at least one.
  load-IsOrigin :
      (c : Config)
      → load getenv parse_duration ≡ valid c
      → All IsOrigin c.cors_allowed_origins × (lacks_parts c.cors_allowed_origins ≡ false)
  load-IsOrigin c h =
      let (s, usable) = load_sound c h in
      (
        subst (λ os. All IsOrigin os) (split_list-origins (getenv "CORS_ALLOWED_ORIGINS") ∙ sym s.6)
            (split_list-IsOrigin (getenv "CORS_ALLOWED_ORIGINS")),
        ground arith,
      )
