-- ===== src/Middleware/RealIp/Laws.antt =====
-- Whom the forwarding headers are believed about.
use lite_end_go.Base.{
  ℕ, suc, ◌+◌, ◌-◌, ◌≤◌, ◌<◌, ◌≡◌, ◌≢◌, refl, ◌∙◌, ◌⊎◌, inl, inr, true, false, none, some, List, [],
  ◌∷◌, ◌++◌, arith, ltb-eq-false, Option-cases, length, get_elem?, is_empty, if◌then◌else◌,
  length-append,
}
use lite_end_go.Strings.{Text, codes, join, split_byte, trim}
use lite_end_go.Strings.Laws.{
  split_byte-append, is_empty-middle, is_empty_of_ne, trim-Free, Free-brackets,
}
use lite_end_go.Net.{IpText, split_host_port}
use lite_end_go.Net.HostPort.{IsPlain, split_host_port-port, split_host_port-join_host_port}
use lite_end_go.Http.{Request}
use lite_end_go.Middleware.RealIp.{client_ip, entry_at, valid_ip, forwarded_client_ip, real_ip}

-- Counted from the right, what stands on the left does not matter.
get_elem?-from_right {ℓ} :
    {A : Type ℓ} (xs ys : List A) (k : ℕ)
    → 0 < k
    → k ≤ length ys
    → get_elem? (xs ++ ys) (length (xs ++ ys) - k) ≡ get_elem? ys (length ys - k)
get_elem?-from_right [] ys k p h = refl
get_elem?-from_right (x ∷ xs) ys k p h =
    rw (shifted (length-append xs ys)) (get_elem?-from_right xs ys k p h)
  where
    shifted :
        length (xs ++ ys) ≡ length xs + length ys
        → suc (length (xs ++ ys)) - k ≡ suc (length (xs ++ ys) - k)
    shifted e = omega arith

entry_at-from_right :
    (xs ys : List Text) (k : ℕ)
    → 0 < k
    → k ≤ length ys
    → entry_at (xs ++ ys) (length (xs ++ ys) - k) ≡ entry_at ys (length ys - k)
entry_at-from_right xs ys k p h = rw (get_elem?-from_right xs ys k p h, entry_at)

client_ip-some :
    (r : Request) {host port : Text}
    → split_host_port r.remote_addr ≡ some (host, port)
    → client_ip r ≡ host
unfolding client_ip
client_ip-some r e = rw (e, client_ip)

client_ip-none :
    (r : Request)
    → split_host_port r.remote_addr ≡ none
    → client_ip r ≡ trim r.remote_addr (codes "[]")
unfolding client_ip
client_ip-none r e = rw (e, client_ip)

module _ (ip : IpText) where
  -- The address that is taken from the headers depends on nothing to the left of the last
  -- `trusted_hops` entries, however a client spreads what it forges over entries and header lines.
  pub forwarded_client_ip-forged :
      (r s : Request) (trusted_hops : ℕ) (forged trusted : Text)
      → join r.forwarded_for (codes ",") ≡ forged ++ b',' ∷ trusted
      → join s.forwarded_for (codes ",") ≡ trusted
      → trusted ≢ []
      → 0 < trusted_hops
      → trusted_hops ≤ length (split_byte trusted b',')
      → forwarded_client_ip ip r trusted_hops ≡ forwarded_client_ip ip s trusted_hops
  unfolding forwarded_client_ip
  forwarded_client_ip-forged r s k forged trusted er es ne p h = rw (
    er,
    es,
    is_empty-middle forged trusted b',',
    is_empty_of_ne trusted ne,
    split_byte-append forged trusted b',',
    ltb-eq-false (length (split_byte trusted b',')) k h,
    ltb-eq-false (length (split_byte forged b',' ++ split_byte trusted b',')) k (longer),
    entry_at-from_right (split_byte forged b',') (split_byte trusted b',') k p h,
  )
    where
      longer : k ≤ length (split_byte forged b',' ++ split_byte trusted b',')
      longer = omega (arith, length-append (split_byte forged b',') (split_byte trusted b','))

  valid_ip-parse_ip : (s : Text) → (valid_ip ip s ≡ []) ⊎ (ip.parse_ip (valid_ip ip s) ≡ true)
  unfolding valid_ip
  valid_ip-parse_ip s = ground arith

  forwarded_client_ip-parse_ip :
      (r : Request) (trusted_hops : ℕ)
      → (forwarded_client_ip ip r trusted_hops ≡ [])
        ⊎ (ip.parse_ip (forwarded_client_ip ip r trusted_hops) ≡ true)
  unfolding forwarded_client_ip
  forwarded_client_ip-parse_ip r k = grind (arith, valid_ip-parse_ip)

  not-empty_ip : (s : Text) → ip.parse_ip s ≡ true → is_empty s ≡ false
  not-empty_ip [] h = ground (arith, ip.not_empty)
  not-empty_ip (c ∷ s) h = refl

  ip-IsPlain : (s : Text) → ip.parse_ip s ≡ true → IsPlain s
  ip-IsPlain s h = record { no_open = ip.no_open s h; no_close = ip.no_close s h }

  trim-ip : (s : Text) → ip.parse_ip s ≡ true → trim s (codes "[]") ≡ s
  trim-ip s h = trim-Free s (codes "[]") (Free-brackets s (ip.no_open s h) (ip.no_close s h))

  -- After `RealIP` the client's address is the forwarded one where a trusted one was found, and that
  -- of the socket where not.
  pub client_ip-real_ip :
      (trusted_hops : ℕ) (r : Request)
      → client_ip (real_ip ip trusted_hops r) ≡ (
          if is_empty (forwarded_client_ip ip r trusted_hops)
          then client_ip r
          else forwarded_client_ip ip r trusted_hops)
  unfolding real_ip
  client_ip-real_ip k r = elim (forwarded_client_ip-parse_ip r k) [
    | inl e ↦ rw e
    | inr is_ip ↦ elim (Option-cases (split_host_port r.remote_addr)) [
      | inl e ↦
          rw (not-empty_ip _ is_ip, e) (client_ip-none _ (ip.no_port _ is_ip) ∙ trim-ip _ is_ip)
      | inr ((host, port), e) ↦
          let (plain, no_colon) = split_host_port-port r.remote_addr host port e in
          rw (not-empty_ip _ is_ip, e)
            (client_ip-some _
              (split_host_port-join_host_port _ port (ip-IsPlain _ is_ip) plain no_colon))
    ]
  ]
