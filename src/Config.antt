-- ===== src/Config.antt =====
-- internal/config/config.go: the configuration that the process starts with, or why it does not.
pub mod Origins
pub mod Loads
use multi_tenant_authorizati.Base.{
  ◌+◌, suc, zero, ℕ, String, Bool, ◌&&◌, not, Option, none, some, List, [], ◌∷◌, str_eq,
  if◌then◌else◌, true, false, ◌⊎◌, inl, inr, refl, ◌≡◌,
}
use multi_tenant_authorizati.Text.{trim_space, split_comma}
use multi_tenant_authorizati.Db.Schema.{Time}
use multi_tenant_authorizati.Utils.{ℤ, pos, negsuc}

-- What Load refuses; the text of each message begins with the variable.
pub data ConfigError : Type 0 where
  -- the variable, and what it holds
  not_a_duration : String → String → ConfigError
  not_positive is_required : String → ConfigError
  unknown_app_env : String → ConfigError

pub data Checked (A : Type 0) : Type 0 where
  valid : A → Checked A
  invalid : ConfigError → Checked A

infixl 5 ◌>>=◌
abbrev pub ◌>>=◌ : {A B : Type 0} → Checked A → (A → Checked B) → Checked B
valid a >>= f = f a
invalid x >>= f = invalid x

pub Checked-cases :
    {A : Type 0} (c : Checked A) → ((a : A) × (c ≡ valid a)) ⊎ ((x : ConfigError) × (c ≡ invalid x))
Checked-cases (valid a) = inl (a, refl)
Checked-cases (invalid x) = inr (x, refl)

pub record Config : Type 0 where
  pub app_name : String
  pub app_port : String
  pub app_env : String
  pub db_url : String
  pub access_token_ttl : Time
  pub refresh_token_ttl : Time
  pub cors_allowed_origins : List String

abbrev pub lacks_parts : List String → Bool
lacks_parts [] = true
lacks_parts (_ ∷ _) = false

-- The cases of `validate`, in their order; none is nil.
unfoldable pub validate : Config → Option ConfigError
validate c =
    if str_eq c.app_name ""
    then some (is_required "APP_NAME")
    else (if str_eq c.app_port ""
        then some (is_required "APP_PORT")
        else (if not (str_eq c.app_env "production") && not (str_eq c.app_env "development")
            then some (unknown_app_env c.app_env)
            else (if str_eq c.db_url ""
                then some (is_required "DATABASE_URL")
                else (if lacks_parts c.cors_allowed_origins
                    then some (is_required "CORS_ALLOWED_ORIGINS")
                    else none))))

abbrev keep_text : String → List String → List String
keep_text part rest = if str_eq part "" then rest else part ∷ rest

unfoldable pub trim_parts : List String → List String
trim_parts [] = []
trim_parts (part ∷ parts) = keep_text (trim_space part) (trim_parts parts)

unfoldable pub split_list : String → List String
unfolding trim_parts
split_list raw = trim_parts ((split_comma raw).0 ∷ (split_comma raw).1)

-- `getenv` is the environment as os.Getenv reads it after godotenv.Load: "" where a variable is not
-- set. `parse_duration` stands for time.ParseDuration: nanoseconds; none is its error.
module _ (getenv : String → String) (parse_duration : String → Option ℤ) where
  unfoldable pub get_env : String → String → String
  get_env key fallback = if str_eq (getenv key) "" then fallback else getenv key

  abbrev pub positive : String → String → Option ℤ → Checked Time
  positive key raw none = invalid (not_a_duration key raw)
  positive key raw (some (pos (suc n))) = valid (suc n)
  positive key raw (some _) = invalid (not_positive key)

  unfoldable pub duration_env : String → String → Checked Time
  unfolding get_env
  duration_env key fallback =
      positive key (get_env key fallback) (parse_duration (get_env key fallback))

  abbrev pub unless_invalid : Config → Option ConfigError → Checked Config
  unless_invalid c none = valid c
  unless_invalid c (some x) = invalid x

  abbrev pub config_of : Time → Time → Config
  config_of access refresh = record {
    app_name = get_env "APP_NAME" "";
    app_port = get_env "APP_PORT" "";
    app_env = get_env "APP_ENV" "";
    db_url = get_env "DATABASE_URL" "";
    access_token_ttl = access;
    refresh_token_ttl = refresh;
    cors_allowed_origins = split_list (get_env "CORS_ALLOWED_ORIGINS" "");
  }

  unfoldable pub load : Checked Config
  unfolding duration_env validate
  load = do
    access ← duration_env "ACCESS_TOKEN_TTL" "15m"
    refresh ← duration_env "REFRESH_TOKEN_TTL" "720h"
    unless_invalid (config_of access refresh) (validate (config_of access refresh))
