-- ===== src/Middleware/RealIp.antt =====
-- internal/middleware/realip.go and internal/clientip/clientip.go: whose request this is.
pub mod Laws
use lite_end_go.Base.{
  ℕ, ◌-◌, Bool, true, false, ◌&&◌, Option, none, some, List, [], ◌∷◌, ◌==◌, ltb, if◌then◌else◌,
  length, get_elem?, is_empty,
}
use lite_end_go.Strings.{
  Text, codes, join, split_byte, trim, trim_space, has_prefix, has_suffix, inner_part,
}
use lite_end_go.Net.{IpText, split_host_port, join_host_port}
use lite_end_go.Http.{Request}

-- `clientip.ClientIP`: `RemoteAddr` without its port.
unfoldable pub client_ip : Request → Text
client_ip r = elim (split_host_port r.remote_addr) [
  | none ↦ trim r.remote_addr (codes "[]")
  | some (host, port) ↦ host
]

abbrev pub entry_at : List Text → ℕ → Text
entry_at entries i = elim (get_elem? entries i) [ none ↦ [] | some e ↦ e ]

module _ (ip : IpText) where
  -- The host part, if it is an address.
  abbrev pub host_ip : Option (Text × Text) → Option Text
  host_ip none = none
  host_ip (some (host, port)) = if ip.parse_ip host then some host else none

  abbrev pub checked_ip : Text → Text
  checked_ip host = if ip.parse_ip host then host else []

  -- `[address]`, without a port.
  abbrev pub bare_bracketed : Text → Text
  bare_bracketed s =
      if has_prefix s (codes "[") && has_suffix s (codes "]") then checked_ip (inner_part s) else []

  -- `validIP`.
  unfoldable pub valid_ip : Text → Text
  valid_ip text =
      let s = trim_space text in
      if ip.parse_ip s
      then s
      else elim (host_ip (split_host_port s)) [ some host ↦ host | none ↦ bare_bracketed s ]

  -- `forwardedClientIP`, of the joined header lines. No hops, or fewer, trust no header.
  unfoldable pub forwarded_client_ip : Request → ℕ → Text
  forwarded_client_ip r trusted_hops =
      if trusted_hops == 0
      then []
      else let xff = join r.forwarded_for (codes ",") in
        if is_empty xff
        then valid_ip r.x_real_ip
        else let entries = split_byte xff b',' in
          if ltb (length entries) trusted_hops
          then []
          else valid_ip (entry_at entries (length entries - trusted_hops))

  -- `RealIP`: the request that the next handler gets.
  unfoldable pub real_ip : ℕ → Request → Request
  real_ip trusted_hops r =
      let addr = forwarded_client_ip r trusted_hops in
      if is_empty addr then r else elim (split_host_port r.remote_addr) [
        | some (host, port) ↦ record r { remote_addr = join_host_port addr port }
        | none ↦ record r { remote_addr = addr }
      ]
