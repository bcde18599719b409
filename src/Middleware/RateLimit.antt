-- ===== src/Middleware/RateLimit.antt =====
-- internal/middleware/ratelimit.go and internal/redis/limiter.go: budgets by client address. The
-- GCRA limiter of redis_rate is a parameter: its reply to one event of a key.
pub mod Laws
use lite_end_go.Base.{
  ℕ, ◌+◌, ◌/◌, Bool, true, false, ◌||◌, Option, none, some, List, [], ◌∷◌, ◌++◌, ltb, if◌then◌else◌,
  Result, ok, err,
}
use lite_end_go.Strings.{Text, codes, has_prefix}
use lite_end_go.Net.{IpText, Addr, v4, v6, unmap}
use lite_end_go.Http.{Request, Response, write_error}
use lite_end_go.Middleware.RealIp.{client_ip}

-- `redis_rate.Result`, or an error; times are in nanoseconds.
pub data Reply : Type 0 where
  failed : Reply
  counted : (allowed retry_after : ℕ) → Reply

-- `Limiter.Allow`: whether the event is allowed, and when to come back. It fails open.
unfoldable pub allow : Reply → Bool × ℕ
allow failed = (true, 0)
allow (counted allowed retry_after) = (ltb 0 allowed, retry_after)

-- `int(math.Ceil(retry.Seconds()))`.
unfoldable pub retry_seconds : ℕ → ℕ
retry_seconds ns = (ns + 999_999_999) / 1_000_000_000

-- What stands between a request and the next handler: the request passes, or is answered.
pub data Verdict : Type 0 where
  passed : Request → Verdict
  answered : Response → Verdict

module _ (number_text : ℕ → Text) where
  -- `throttle`, with the limiter's reply for each key.
  unfoldable pub throttle : (Text → Reply) → (Request → Text) → Request → Verdict
  unfolding allow
  throttle limiter key r =
      let (allowed, retry) = allow (limiter (key r)) in
      if allowed
      then passed r
      else answered (
          write_error ((codes "Retry-After", number_text (retry_seconds retry)) ∷ []) 429
            (codes "Too Many Requests"))

module _ (ip : IpText) where
  -- The text of an address's budget: an IPv4 address itself, the /64 of an IPv6 address.
  abbrev pub bucket : Addr → Text
  bucket (v4 a) = ip.addr_text (v4 a)
  bucket (v6 hi lo zone) = ip.prefix64_text hi

  -- `rateAddr`. `Prefix(64)` cannot fail on an IPv6 address without a zone.
  unfoldable pub rate_addr : Request → Text
  rate_addr r = elim (ip.parse_addr (client_ip r)) [
    | none ↦ client_ip r
    | some addr ↦ bucket (unmap addr)
  ]

  -- `RateKey`.
  unfoldable pub rate_key : Request → Text
  rate_key r =
      let addr = rate_addr r in
      if has_prefix r.path (codes "/upload") || has_prefix r.path (codes "/graphql")
      then codes "rl:auth:" ++ addr
      else codes "rl:" ++ addr

  -- The key of `PerIP`.
  unfoldable pub per_ip_key : Text → Request → Text
  per_ip_key scope r = codes "rl:" ++ (scope ++ (codes ":" ++ rate_addr r))
