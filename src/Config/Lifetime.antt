-- ===== src/Config/Lifetime.antt =====
-- The lifetime of signed links, in the arithmetic of 64-bit words.
use lite_end_go.Base.{
  ℕ, ◌+◌, ◌*◌, ◌%◌, ◌≤◌, ◌<◌, ◌≡◌, ◌↔◌, ◌⊎◌, inl, inr, Bool, false, ◌||◌, arith, ◌==◌, ltb, ltb→lt,
  ltb-false→le, Bool-cases,
}
use lite_end_go.Config.{
  Config, Url, word, sign_bit, is_negative, file_link_ttl, ttl_refused, validate_signed,
}

-- Where the product does not wrap, a lifetime is accepted exactly from one minute to seven days.
pub ttl_refused-range :
    (c : Config)
    → c.file_link_ttl_minutes * 60_000_000_000 < sign_bit
    → (ttl_refused c ≡ false) ↔ ((1 ≤ c.file_link_ttl_minutes) × (c.file_link_ttl_minutes ≤ 10080))
unfolding ttl_refused file_link_ttl
ttl_refused-range c small = ground arith

-- The lifetime that was meant, or one of which the product wraps.
abbrev pub HasLifetime : Config → Type 0
HasLifetime c =
    ((1 ≤ c.file_link_ttl_minutes) × (c.file_link_ttl_minutes ≤ 10080))
    ⊎ (sign_bit ≤ c.file_link_ttl_minutes * 60_000_000_000)

pub ttl_refused-HasLifetime : (c : Config) → ttl_refused c ≡ false → HasLifetime c
ttl_refused-HasLifetime c h =
    elim (Bool-cases (ltb (c.file_link_ttl_minutes * 60_000_000_000) sign_bit)) [
      | inl small ↦ inl ((ttl_refused-range c (ltb→lt _ _ small)).0 h)
      | inr wraps ↦ inr (ltb-false→le _ _ wraps)
    ]

same_product :
    (m : ℕ) → ((m + 9_007_199_254_740_992) * 60_000_000_000) % word ≡ (m * 60_000_000_000) % word
same_product m = omega arith

positive : (w : ℕ) (b : Bool) → 1 ≤ w → w < sign_bit → ((w == 0 || is_negative w) || b) ≡ b
positive w b low high = rw (ltb_sign w high, nonzero w low)
  where
    ltb_sign : (w : ℕ) → w < sign_bit → is_negative w ≡ false
    ltb_sign w h = ground arith

    nonzero : (w : ℕ) → 1 ≤ w → (w == 0) ≡ false
    nonzero w h = ground arith

-- A lifetime that is 2^53 minutes longer is a positive `int` of which the product is the same, so that the checks
-- of signed links take it for the shorter one.
pub validate_signed-wraps :
    (c : Config) (u : Url) (m : ℕ)
    → 1 ≤ m
    → m ≤ 10080
    → validate_signed (record c { file_link_ttl_minutes = m + 9_007_199_254_740_992 }) u
      ≡ validate_signed (record c { file_link_ttl_minutes = m }) u
unfolding validate_signed ttl_refused file_link_ttl
validate_signed-wraps c u m low high = rw (
  positive (m + 9_007_199_254_740_992) _ (omega arith) (omega arith),
  positive m _ low (omega arith),
  same_product m,
)
