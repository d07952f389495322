-- ===== src/Middleware/RateLimit.antt =====
-- internal/middleware/ratelimit.go: one token bucket for each key, evicted when idle.
use multi_tenant_authorizati.Base.{
  ◌-◌, ◌*◌, String, Bool, Option, none, some, List, [], ◌∷◌, str_eq, ltb, if◌then◌else◌,
}
use multi_tenant_authorizati.Db.Rows.{delete_rows}
use multi_tenant_authorizati.Db.Schema.{Time}

-- golang.org/x/time/rate: a new bucket, and Allow at a time, which says yes or no and takes a
-- token.
pub record Bucket : Type 1 where
  pub Limiter : Type 0
  pub new_limiter : Limiter
  pub allow : Time → Limiter → Bool × Limiter

-- Three minutes, in nanoseconds.
abbrev pub idle_limit : Time
idle_limit = 3 * 60_000_000_000

module _ (bucket : Bucket) where
  pub record Visitor : Type 0 where
    pub limiter : bucket.Limiter
    pub last_seen : Time

  -- The map `visitors`, under the mutex.
  abbrev pub Visitors : Type 0
  Visitors = List (String × Visitor)

  unfoldable pub find_visitor : String → Visitors → Option Visitor
  find_visitor key [] = none
  find_visitor key ((k, v) ∷ rest) = if str_eq k key then some v else find_visitor key rest

  unfoldable pub set_visitor : String → Visitor → Visitors → Visitors
  set_visitor key v [] = (key, v) ∷ []
  set_visitor key v ((k, u) ∷ rest) =
      if str_eq k key then (key, v) ∷ rest else (k, u) ∷ set_visitor key v rest

  abbrev pub seen : Time → Option Visitor → Visitor
  seen t none = record { limiter = bucket.new_limiter; last_seen = t }
  seen t (some v) = record v { last_seen = t }

  -- The entry is made or its time renewed; the limiter in the map is the one that is returned.
  unfoldable get_limiter : String → Time → Visitors → bucket.Limiter × Visitors
  unfolding find_visitor set_visitor
  get_limiter key t vs =
      let v : Visitor = seen t (find_visitor key vs) in (v.limiter, set_visitor key v vs)

  -- One request: `limiter.Allow()` on the entry of its key.
  unfoldable pub admit : String → Time → Visitors → Bool × Visitors
  unfolding find_visitor set_visitor
  admit key t vs =
      let v : Visitor = seen t (find_visitor key vs) in
      let (yes_or_no, l) = bucket.allow t v.limiter in
      (yes_or_no, set_visitor key (record { limiter = l; last_seen = t }) vs)

  -- `time.Since(v.lastSeen) > 3*time.Minute`
  abbrev is_idle : Time → String × Visitor → Bool
  is_idle t e = ltb idle_limit (t - e.1.last_seen)

  -- One round of cleanupLoop.
  unfoldable pub cleanup : Time → Visitors → Visitors
  cleanup t = delete_rows (is_idle t)
