-- ===== src/Middleware/RateLimit.antt =====
-- drs-verify/pkg/middleware/ratelimit.go. The token bucket of golang.org/x/time/rate, the LRU cache
-- and two calls of net are parameters.
use drs.Prelude.{ℕ, Bool, true, false, ◌||◌, [], Option, none, some, if◌then◌else◌, last_of}
use drs.Prelude.Lru.{Lru}
use drs.Prelude.Text.{Text, codes, ◌==◌, is_empty, split}
use drs.Prelude.Trim.{trim_space}

-- What the limiter reads of a request: X-Forwarded-For is empty where it is not set.
pub record Incoming : Type 0 where
  pub path : Text
  pub forwarded_for : Text
  pub remote_addr : Text

-- net.ParseIP, whether it gives an address, and the host that net.SplitHostPort finds
pub record Net : Type 0 where
  pub is_ip : Text → Bool
  pub split_host_port : Text → Option Text

-- A bucket: Allow takes a token at a time, or refuses. `fresh` is the limiter of a new address.
pub record Bucket (B : Type 0) : Type 0 where
  pub allow : ℕ → B → Bool × B
  pub fresh : B

pub record Limits (B S : Type 0) : Type 0 where
  pub global : B
  pub per_ip : S

pub data Outcome : Type 0 where
  passed too_many_requests : Outcome

-- parts[len(parts)-1], trimmed
unfoldable pub rightmost : Text → Text
rightmost forwarded = trim_space (last_of [] (split b',' forwarded))

abbrev pub host_or_address : Option Text → Text → Text
host_or_address none address = address
host_or_address (some host) address = host

abbrev pub remote_ip : Net → Incoming → Text
remote_ip net r = host_or_address (net.split_host_port r.remote_addr) r.remote_addr

-- clientIP
unfoldable pub client_ip : Net → Bool → Incoming → Text
client_ip net false r = remote_ip net r
client_ip net true r =
    if is_empty r.forwarded_for
    then remote_ip net r
    else if net.is_ip (rightmost r.forwarded_for)
    then rightmost r.forwarded_for
    else remote_ip net r

unfoldable pub is_exempt : Text → Bool
is_exempt path = path == codes "/healthz" || path == codes "/readyz"

module _ {B S : Type 0} (bucket : Bucket B) (buckets : Lru B S) where
  abbrev pub bucket_or_fresh : Text → Option B × S → B × S
  bucket_or_fresh ip (some b, s) = (b, s)
  bucket_or_fresh ip (none, s) = (bucket.fresh, buckets.add ip bucket.fresh s)

  -- getOrCreateIPLimiter
  unfoldable pub get_or_create : Text → S → B × S
  get_or_create ip s = bucket_or_fresh ip (buckets.get ip s)

  abbrev pub after_global : Bool × B → S → Outcome × Limits B S
  after_global (true, g) s = (passed, record { global = g; per_ip = s })
  after_global (false, g) s = (too_many_requests, record { global = g; per_ip = s })

  -- The bucket is changed through its pointer, so its entry has the new value.
  abbrev pub after_ip : ℕ → Text → B → Bool × B → S → Outcome × Limits B S
  after_ip now ip global (true, b) s = after_global (bucket.allow now global) (buckets.add ip b s)
  after_ip now ip global (false, b) s =
      (too_many_requests, record { global = global; per_ip = buckets.add ip b s })

  abbrev pub limited : ℕ → Text → B → B × S → Outcome × Limits B S
  limited now ip global (b, s) = after_ip now ip global (bucket.allow now b) s

  -- (*RateLimiter).Middleware at the time `now`
  unfoldable pub admit : Net → Bool → ℕ → Incoming → Limits B S → Outcome × Limits B S
  admit net trust_proxy now r limits =
      if is_exempt r.path
      then (passed, limits)
      else limited now (client_ip net trust_proxy r) limits.global
          (get_or_create (client_ip net trust_proxy r) limits.per_ip)
