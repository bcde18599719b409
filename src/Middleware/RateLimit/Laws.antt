-- ===== src/Middleware/RateLimit/Laws.antt =====
-- The answer of `throttle`, and which requests share a budget.
use lite_end_go.Base.{
  ℕ, ◌+◌, ◌*◌, ◌/◌, ◌≤◌, ◌<◌, ◌≡◌, ◌≢◌, refl, sym, ◌∙◌, zero, suc, some, [], ◌∷◌, arith, ◌⊎◌,
}
use lite_end_go.Strings.{Text, codes}
use lite_end_go.Net.{IpText, v6, unmap}
use lite_end_go.Http.{Request, write_error}
use lite_end_go.Middleware.RealIp.{client_ip}
use lite_end_go.Middleware.RateLimit.{
  Reply, failed, counted, allow, retry_seconds, Verdict, passed, answered, throttle, rate_addr,
  rate_key,
}

-- `Retry-After` in seconds is long enough, and less than a second too long.
pub retry_seconds_bounds :
    (ns : ℕ)
    → (ns ≤ retry_seconds ns * 1_000_000_000)
      × (retry_seconds ns * 1_000_000_000 < ns + 1_000_000_000)
unfolding retry_seconds
retry_seconds_bounds ns = omega arith

module _ (number_text : ℕ → Text) (limiter : Text → Reply) (key : Request → Text) where
  -- What each reply of the limiter must lead to.
  abbrev pub Honours : Request → Reply → Verdict → Type 0
  Honours r failed v = v ≡ passed r
  Honours r (counted (suc allowed) retry) v = v ≡ passed r
  Honours r (counted zero retry) v =
      (seconds : ℕ) × (v
        ≡ answered (
            write_error ((codes "Retry-After", number_text seconds) ∷ []) 429
              (codes "Too Many Requests")))
      × (retry ≤ seconds * 1_000_000_000)
      × (seconds * 1_000_000_000 < retry + 1_000_000_000)

  Honours-reply :
      (r : Request) (reply : Reply)
      → limiter (key r) ≡ reply
      → Honours r reply (throttle number_text limiter key r)
  unfolding throttle
  Honours-reply r failed e = rw (e, allow)
  Honours-reply r (counted (suc allowed) retry) e = ground arith
  Honours-reply r (counted zero retry) e = (
    retry_seconds retry,
    rw (e, allow),
    (retry_seconds_bounds retry).0,
    (retry_seconds_bounds retry).1,
  )

  -- A request passes unchanged if the limiter fails or allows its key's event; it is refused with 429
  -- otherwise, and told to wait the limiter's time, rounded up by less than a second.
  pub throttle-Honours :
      (r : Request) → Honours r (limiter (key r)) (throttle number_text limiter key r)
  throttle-Honours r = Honours-reply r (limiter (key r)) refl

module _ (ip : IpText) where
  -- Not an IPv4 address mapped into IPv6.
  abbrev pub IsNative : ℕ → ℕ → Type 0
  IsNative hi lo = (hi ≢ 0) ⊎ (lo / 0x1_0000_0000 ≢ 0xFFFF)

  rate_addr_v6 :
      (r : Request) (hi lo : ℕ) (zone : Text)
      → ip.parse_addr (client_ip r) ≡ some (v6 hi lo zone)
      → IsNative hi lo
      → rate_addr ip r ≡ ip.prefix64_text hi
  unfolding rate_addr unmap
  rate_addr_v6 r hi lo zone e n = ground arith

  rate_key-ap :
      (r s : Request)
      → r.path ≡ s.path
      → rate_addr ip r ≡ rate_addr ip s
      → rate_key ip r ≡ rate_key ip s
  unfolding rate_key
  rate_key-ap r s p e = rw (e, p)

  -- Every address of a /64, with any zone, draws from one budget on the same path.
  pub rate_key-same_prefix :
      (r s : Request) (hi lo lo' : ℕ) (zone zone' : Text)
      → ip.parse_addr (client_ip r) ≡ some (v6 hi lo zone)
      → ip.parse_addr (client_ip s) ≡ some (v6 hi lo' zone')
      → IsNative hi lo
      → IsNative hi lo'
      → r.path ≡ s.path
      → rate_key ip r ≡ rate_key ip s
  rate_key-same_prefix r s hi lo lo' zone zone' er es n m p =
      rate_key-ap r s p (rate_addr_v6 r hi lo zone er n ∙ sym (rate_addr_v6 s hi lo' zone' es m))
