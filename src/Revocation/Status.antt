-- ===== src/Revocation/Status.antt =====
-- drs-verify/pkg/revocation/status.go: the cached status list. A call is alone here, with what the
-- network and the clock give it as an argument; Refreshing has the steps of concurrent calls. Times
-- are nanoseconds, and never run backwards.

use drs.Prelude.{
  ℕ, zero, suc, ◌-◌, ◌/◌, ◌%◌, ◌^◌, Bool, true, false, not, ◌&&◌, [], ◌∷◌, Option, none, some, eqb,
  ltb, leb, if◌then◌else◌, length, get_elem?, Result, ok, err,
}
use drs.Prelude.Text.{Text, is_empty}

pub record StatusCache : Type 0 where
  pub bitstring : Text
  pub fetched_at : ℕ
  pub has_snapshot : Bool
  pub ttl : ℕ
  pub base_url : Text

-- New
abbrev pub new : Text → ℕ → StatusCache
new base_url ttl = record {
  bitstring = [];
  fetched_at = 0;
  has_snapshot = false;
  ttl = ttl;
  base_url = base_url;
}

-- An answer of the server: `content_length` is a header that strconv.ParseInt reads as a number
-- that is not negative, and `body` is `none` where reading it fails.
pub record Response : Type 0 where
  pub status : ℕ
  pub content_length : Option ℕ
  pub body : Option Text

-- What the HTTP client gives: no request can be built, the exchange fails, or a response.
pub data Fetch : Type 0 where
  bad_request failed : Fetch
  response : Response → Fetch

pub data Error : Type 0 where
  cancelled no_snapshot out_of_range : Error
  request_error http_error bad_status unreadable too_large empty_list truncated : Error

abbrev pub max_status_list_bytes : ℕ
max_status_list_bytes = 1048576

abbrev take : ℕ → Text → Text
take zero s = []
take (suc n) [] = []
take (suc n) (b ∷ s) = b ∷ take n s

abbrev pub length_differs : Option ℕ → ℕ → Bool
length_differs none n = false
length_differs (some cl) n = not (eqb n cl)

-- The tests on what the limited reader gave, which is `buf`.
unfoldable pub accept_body : Option ℕ → Text → Result Error Text
accept_body content_length buf =
    if ltb max_status_list_bytes (length buf)
    then err too_large
    else if eqb (length buf) 0
    then err empty_list
    else if length_differs content_length (length buf)
    then err truncated
    else ok buf

-- io.LimitReader stops one byte past the limit.
unfoldable pub limited : Text → Text
limited body = take (suc max_status_list_bytes) body

unfoldable pub fetched : Fetch → Result Error Text
fetched bad_request = err request_error
fetched failed = err http_error
fetched (response r) = if not (eqb r.status 200) then err bad_status else elim r.body [
  | none ↦ err unreadable
  | some body ↦ accept_body r.content_length (limited body)
]

abbrev pub publish : StatusCache → Text → ℕ → StatusCache
publish c buf at = record c { bitstring = buf; fetched_at = at; has_snapshot = true }

abbrev pub publish_fetched : StatusCache → ℕ → Result Error Text → Option Error × StatusCache
publish_fetched c at (ok buf) = (none, publish c buf at)
publish_fetched c at (err e) = (some e, c)

-- refresh: the error, and the cache. A snapshot is published at the time `at`.
unfoldable pub refresh : StatusCache → Fetch → ℕ → Option Error × StatusCache
refresh c f at =
    if is_empty c.base_url then (none, publish c [] at) else publish_fetched c at (fetched f)

-- snapshotPublished, and Ready
abbrev pub ready : StatusCache → Bool
ready c = c.has_snapshot

-- ensureInitialSnapshot, and WarmUp
unfoldable pub ensure_initial_snapshot : StatusCache → Fetch → ℕ → Option Error × StatusCache
ensure_initial_snapshot c f at = if c.has_snapshot then (none, c) else refresh c f at

-- `time.Since(s.fetchedAt) > s.ttl`
abbrev pub is_expired : StatusCache → ℕ → Bool
is_expired c now = ltb c.ttl (now - c.fetched_at)

unfoldable pub get_bit : Text → ℕ → Bool
get_bit bitstring index = elim (get_elem? bitstring (index / 8)) [
  | none ↦ false
  | some byte ↦ eqb (byte / 2 ^ (7 - index % 8) % 2) 1
]

-- What one call of IsRevoked meets: whether its context is done, the outcome of a first fetch, the
-- time of the two expiry tests, and the outcome of a refresh.
pub record Moment : Type 0 where
  pub is_done : Bool
  pub first : Fetch
  pub first_at : ℕ
  pub now : ℕ
  pub recheck_at : ℕ
  pub again : Fetch
  pub again_at : ℕ

-- The refresh after the TTL; its error is logged, and the old list is served.
unfoldable pub refresh_expired : StatusCache → Moment → StatusCache
refresh_expired c m =
    if is_expired c m.now && is_expired c m.recheck_at then (refresh c m.again m.again_at).1 else c

-- the tests of the index and of the bit
unfoldable pub read_bit : StatusCache → ℕ → Result Error Bool
read_bit c index =
    if ltb 0 (length c.bitstring) && leb (length c.bitstring) (index / 8)
    then err out_of_range
    else ok (get_bit c.bitstring index)

abbrev pub after_first : Option Error × StatusCache → ℕ → Moment → Result Error Bool × StatusCache
after_first (some e, c) index m = (err no_snapshot, c)
after_first (none, c) index m = (read_bit (refresh_expired c m) index, refresh_expired c m)

-- IsRevoked
unfoldable pub is_revoked : StatusCache → ℕ → Moment → Result Error Bool × StatusCache
is_revoked c index m =
    if m.is_done
    then (err cancelled, c)
    else after_first (ensure_initial_snapshot c m.first m.first_at) index m
