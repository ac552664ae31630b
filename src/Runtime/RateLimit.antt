-- ===== src/Runtime/RateLimit.antt =====
-- runtime/ratelimit.go: the token bucket per client and the lockout per username.
-- Times are nanoseconds that do not run backwards. A bucket's float64 tokens are exact here: they are
-- counted in the 60 * 10 ^ 9-th part of a token, so that a nanosecond refills `rate` parts, the budget of a minute.
pub mod Rate
pub mod Lock
mod Tests
use fct.Base.{
  ℕ, zero, suc, ◌+◌, ◌-◌, ◌*◌, ◌/◌, ◌%◌, String, Bool, true, false, not, ◌&&◌, ◌||◌, Option, none,
  some, List, [], ◌∷◌, ◌==◌, nat_eq, string_eq, if◌then◌else◌, leb, ltb, Map, lookup, insert,
  remove, length, min, max,
}
use fct.Base.Text.{Text, trim, cut_at}

abbrev pub scale : ℕ
scale = 60000000000

abbrev pub second : ℕ
second = 1000000000

pub record Bucket : Type 0 where
  pub tokens : ℕ
  pub last : ℕ

pub record Limiter : Type 0 where
  pub buckets : Map String Bucket
  pub rate : ℕ
  pub burst : ℕ
  pub per_minute : ℕ

abbrev pub default_rate : ℕ
default_rate = 600

unfoldable pub rate_burst : ℕ → ℕ
rate_burst per_minute = if ltb 0 (per_minute / 4) then per_minute / 4 else 1

unfoldable pub new_rate_limiter : ℕ → Limiter
new_rate_limiter n =
    let per_minute = if n == 0 then default_rate else n in
    record { buckets = []; rate = per_minute; burst = per_minute; per_minute = per_minute }

-- Only the burst and the budget that is reported change: the rate of a budget of 0 is the default's.
unfoldable pub new_class_limiter : ℕ → Limiter
unfolding new_rate_limiter rate_burst
new_class_limiter n = record (new_rate_limiter n) { per_minute = n; burst = rate_burst n }

-- One request on a bucket: the refill, capped, and a token if there is one.
unfoldable pub refilled : ℕ → ℕ → ℕ → Bucket → ℕ
refilled burst rate now b =
    let tokens = b.tokens + (now - b.last) * rate in
    if ltb (burst * scale) tokens then burst * scale else tokens

unfoldable pub meter : ℕ → ℕ → ℕ → Bucket → Bucket × Bool
unfolding refilled
meter burst rate now b =
    let tokens = refilled burst rate now b in
    if ltb tokens scale
    then (record { tokens = tokens; last = now }, false)
    else (record { tokens = tokens - scale; last = now }, true)

abbrev bucket_of : ℕ → ℕ → Option Bucket → Bucket
bucket_of burst now none = record { tokens = burst * scale; last = now }
bucket_of burst now (some b) = b

-- A table that has grown beyond 100000 buckets is forgotten when a new client comes.
abbrev kept_buckets : Option Bucket → Map String Bucket → Map String Bucket
kept_buckets none m = if ltb 100000 (length m) then [] else m
kept_buckets (some b) m = m

unfoldable pub allow : ℕ → String → Limiter → Limiter × Bool
unfolding meter
allow now key l =
    let found = lookup key l.buckets in
    let met = meter l.burst l.rate now (bucket_of l.burst now found) in
    (record l { buckets = insert key met.0 (kept_buckets found l.buckets) }, met.1)

pub record Decision : Type 0 where
  pub allowed : Bool
  pub limit : ℕ
  pub remaining : ℕ
  pub reset : ℕ
  pub retry_after : ℕ

abbrev tokens_of : ℕ → Option Bucket → ℕ
tokens_of burst none = burst * scale
tokens_of burst (some b) = b.tokens

-- The seconds until one token, rounded up, 1 at least: `wait` in parts of a second.
abbrev round_up : ℕ → ℕ → ℕ
round_up n d = if ltb (n / d * d) n then suc (n / d) else n / d

unfoldable pub retry_after : ℕ → ℕ → ℕ
retry_after tokens rate = max 1 (round_up (scale - tokens) (rate * second))

unfoldable pub take : ℕ → String → Limiter → Limiter × Decision
unfolding allow retry_after
take now key l =
    let met = allow now key l in
    let tokens = tokens_of l.burst (lookup key met.0.buckets) in
    (
      met.0,
      record {
        allowed = met.1;
        limit = l.per_minute;
        remaining = tokens / scale;
        reset = (now + (l.burst * scale - tokens) / l.rate) / second;
        retry_after = if met.1 then 0 else retry_after tokens l.rate;
      },
    )

pub record FailRecord : Type 0 where
  pub count : ℕ
  pub first : ℕ
  pub until : Option ℕ

pub record Lockout : Type 0 where
  pub fails : Map String FailRecord
  pub max : ℕ
  pub window : ℕ
  pub cool : ℕ

unfoldable pub new_lockout : Lockout
new_lockout = record { fails = []; max = 5; window = 900 * second; cool = 900 * second }

abbrev pub is_locked : ℕ → Option FailRecord → Bool
is_locked now none = false
is_locked now (some r) = elim r.until [ none ↦ false | some t ↦ ltb now t ]

unfoldable pub locked : ℕ → String → Lockout → Bool
locked now key l = is_locked now (lookup key l.fails)

abbrev pub fresh_fail : ℕ → FailRecord
fresh_fail now = record { count = 0; first = now; until = none }

abbrev pub current : ℕ → ℕ → Option FailRecord → FailRecord
current window now none = fresh_fail now
current window now (some r) = if ltb window (now - r.first) then fresh_fail now else r

abbrev pub counted : Lockout → ℕ → FailRecord → FailRecord
counted l now r = record r {
  count = suc r.count;
  until = if leb l.max (suc r.count) then some (now + l.cool) else r.until;
}

unfoldable pub fail : ℕ → String → Lockout → Lockout
fail now key l = record l {
  fails = insert key (counted l now (current l.window now (lookup key l.fails))) l.fails;
}

unfoldable pub reset_fails : String → Lockout → Lockout
reset_fails key l = record l { fails = remove key l.fails }

-- trimSpaceASCII, and the client's address behind a proxy: the first hop.
unfoldable pub trim_space_ascii : Text → Text
trim_space_ascii s = trim (λ c. c == b' ' || c == 9) s

unfoldable pub forwarded_ip : Text → Text
unfolding trim_space_ascii
forwarded_ip xff = trim_space_ascii (cut_at (λ c. c == b',') xff)
