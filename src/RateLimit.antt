-- ===== src/RateLimit.antt =====
-- backend/app/core/rate_limit.py: a counter for each bucket and client in Redis, within a fixed
-- window. Redis is an argument: what the limiter asks of it is an interface with its documented laws.
pub mod Window
pub mod Lockout
use cyberlab_kali.Base.{
  ℕ, suc, ◌≤◌, ◌≡◌, ◌==◌, ltb, if◌then◌else◌, Bool, true, false, Option, none, some, List, [], ◌∷◌,
  ◌++◌, Text, codes, text_eq, Result, ok, err,
}
use cyberlab_kali.Tools.Schema.{ℤ, pos, negsuc}

-- The commands, where `none` and `false` are a `RedisError`; the command may have taken effect all the
-- same, since the answer is what a timeout loses. `count` and `has_expiry` are what the server holds
-- under a key, and `lapse` is the passing of time, in which keys with an expiry may vanish.
pub record Redis (S : Type 0) : Type 0 where
  pub incr : Text → S → Option ℕ × S
  pub expire : Text → ℕ → S → Bool × S
  pub ttl : Text → S → Option ℤ
  pub lapse : S → S
  pub count : Text → S → ℕ
  pub has_expiry : Text → S → Bool
  pub incr_answer :
      (key : Text)
      → (s : S) → (n : ℕ) → (incr key s).0 ≡ some n
      → (n ≡ suc (count key s)) × (count key (incr key s).1 ≡ n)
  pub incr_up : (key : Text) → (s : S) → count key s ≤ count key (incr key s).1
  pub incr_other :
      (key asked : Text)
      → (s : S) → text_eq key asked ≡ false
      → count asked (incr key s).1 ≡ count asked s
  pub incr_expiry :
      (key asked : Text) → (s : S) → has_expiry asked (incr key s).1 ≡ has_expiry asked s
  pub expire_count :
      (key asked : Text)
      → (t : ℕ) → (s : S) → 1 ≤ t
      → count asked (expire key t s).1 ≡ count asked s
  pub expire_other :
      (key asked : Text)
      → (t : ℕ) → (s : S) → text_eq key asked ≡ false
      → has_expiry asked (expire key t s).1 ≡ has_expiry asked s
  pub lapse_kept :
      (asked : Text)
      → (s : S) → has_expiry asked s ≡ false
      → (count asked (lapse s) ≡ count asked s) × (has_expiry asked (lapse s) ≡ false)

pub record Settings : Type 0 where
  pub enabled : Bool
  pub max_requests : ℕ
  pub window : ℕ

-- The limiter is switched on, with a window of at least a second: EXPIRE with 0 deletes the key.
pub record IsOn (settings : Settings) : Type 0 where
  pub enabled : settings.enabled ≡ true
  pub lasts : 1 ≤ settings.window

pub data LimitError : Type 0 where
  unavailable : LimitError
  over_limit : (retry_after : ℕ) → LimitError

-- A request to a limited route: its bucket, and the host of the client where it is known.
pub record Request : Type 0 where
  pub bucket : Text
  pub client : Option Text

unfoldable pub client_ip : Option Text → Text
client_ip none = codes "unknown"
client_ip (some host) = host

unfoldable pub key_of : Request → Text
unfolding client_ip
key_of request =
    codes "cyberlab:ratelimit"
    ++ (codes ":" ++ (request.bucket ++ (codes ":" ++ client_ip request.client)))

-- `retry_after if retry_after and retry_after > 0 else window`
unfoldable pub retry_of : ℕ → ℤ → ℕ
retry_of window (pos n) = if n == 0 then window else n
retry_of window (negsuc n) = window

module _ {S : Type 0} (redis : Redis S) (settings : Settings) where
  -- What follows `incr` and, on a first hit, `expire`.
  unfoldable pub judged : (key : Text) → (current : ℕ) → S → Result LimitError (Unit {0}) × S
  unfolding retry_of
  judged key current s =
      if ltb settings.max_requests current
      then (elim (redis.ttl key s) [
        | none ↦ (err unavailable, s)
        | some t ↦ (err (over_limit (retry_of settings.window t)), s)
      ])
      else (ok tt, s)

  unfoldable pub first_hit : (key : Text) → Bool × S → Result LimitError (Unit {0}) × S
  unfolding judged
  first_hit key (false, s) = (err unavailable, s)
  first_hit key (true, s) = judged key 1 s

  unfoldable pub counted : (key : Text) → Option ℕ × S → Result LimitError (Unit {0}) × S
  unfolding first_hit
  counted key (none, s) = (err unavailable, s)
  counted key (some current, s) =
      if current == 1
      then first_hit key (redis.expire key settings.window s)
      else judged key current s

  -- The dependency that `rate_limit` returns.
  unfoldable pub rate_limit : Request → S → Result LimitError (Unit {0}) × S
  unfolding counted
  rate_limit request s =
      if settings.enabled
      then counted (key_of request) (redis.incr (key_of request) s)
      else (ok tt, s)
