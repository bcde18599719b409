-- ===== src/Middleware/Tests.antt =====
-- The address and the budget of a client at concrete inputs.
use lite_end_go.Base.{ℕ, ◌≡◌, ◌≤◌, ◌≢◌, refl, inl, [], ◌∷◌, ◌++◌, some, arith, length}
use lite_end_go.Strings.{Text, codes, join, split_byte, one_of, has_byte, cut_byte}
use lite_end_go.Net.{v6, split_host_port}
use lite_end_go.Http.{Request}
use lite_end_go.Samples.{sample_ip_text, sample_request}
use lite_end_go.Middleware.RealIp.{client_ip, forwarded_client_ip}
use lite_end_go.Middleware.RealIp.Laws.{forwarded_client_ip-forged}
use lite_end_go.Middleware.RateLimit.{Reply, counted, throttle}
use lite_end_go.Middleware.RateLimit.Laws.{Honours, throttle-Honours, IsNative}

abbrev proxied : Text
proxied = codes "203.0.113.7, 10.0.0.9"

-- The client sends a header line of its own; the proxies append theirs.
abbrev forging : Request
forging = sample_request (codes "1.2.3.4" ∷ proxied ∷ []) (codes "10.0.0.9:55000")

abbrev honest : Request
honest = sample_request (proxied ∷ []) (codes "10.0.0.9:55000")

joined_forging : join forging.forwarded_for (codes ",") ≡ codes "1.2.3.4" ++ b',' ∷ proxied
unfolding join
joined_forging = refl

joined_honest : join honest.forwarded_for (codes ",") ≡ proxied
unfolding join
joined_honest = refl

two_entries : 2 ≤ length (split_byte proxied b',')
unfolding split_byte
two_entries = omega arith

proxied_ne : proxied ≢ []
proxied_ne h = cc

forwarded_client_ip-forged_example :
    forwarded_client_ip sample_ip_text forging 2 ≡ forwarded_client_ip sample_ip_text honest 2
forwarded_client_ip-forged_example =
    forwarded_client_ip-forged sample_ip_text forging honest 2 (codes "1.2.3.4") proxied
      joined_forging joined_honest proxied_ne (omega arith) two_entries

abbrev exhausted : Text → Reply
exhausted key = counted 0 1_500_000_000

abbrev seconds_text : ℕ → Text
seconds_text n = n ∷ []

throttle-Honours_example :
    Honours seconds_text exhausted client_ip honest
      (exhausted (client_ip honest))
      (throttle seconds_text exhausted client_ip honest)
throttle-Honours_example = throttle-Honours seconds_text exhausted client_ip honest

abbrev from_prefix : Request
from_prefix = sample_request [] (codes "[2001:db8::1]:443")

abbrev from_other : Request
from_other = sample_request [] (codes "[2001:db8::2]:444")

prefix_addr :
    sample_ip_text.parse_addr (client_ip from_prefix) ≡ some (v6 2_306_139_568_115_548_160 1 [])
unfolding client_ip split_host_port cut_byte has_byte one_of
prefix_addr = refl

other_addr :
    sample_ip_text.parse_addr (client_ip from_other) ≡ some (v6 2_306_139_568_115_548_160 2 [])
unfolding client_ip split_host_port cut_byte has_byte one_of
other_addr = refl

native : (lo : ℕ) → IsNative sample_ip_text 2_306_139_568_115_548_160 lo
native lo = inl (λ h. omega arith)
