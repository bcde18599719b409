-- ===== src/Net.antt =====
-- Network addresses as text: `net.SplitHostPort` and `net.JoinHostPort`, and the parsed address of
-- `net/netip`. The textual grammar of IP addresses (`net.ParseIP`, `netip.ParseAddr`,
-- `Addr.String`, `Prefix.String`) is the parameter `IpText`.
pub mod HostPort
use lite_end_go.Base.{
  ℕ, ◌/◌, ◌%◌, ◌≡◌, Bool, true, false, ◌||◌, Option, none, some, List, [], ◌∷◌, ◌++◌, ◌==◌,
  if◌then◌else◌,
}
use lite_end_go.Strings.{Text, has_byte, cut_byte, cut_last_byte}

-- The host and the port, if both are well formed.
abbrev pub checked_port : Text → Option (Text × Text) → Option (Text × Text)
checked_port s none = none
checked_port s (some (host, port)) =
    if has_byte host b':' || has_byte s b'[' || has_byte s b']' then none else some (host, port)

-- What follows the closing bracket: a colon and the port.
abbrev pub bracket_port : Text → Option Text → Option (Text × Text)
bracket_port host none = none
bracket_port host (some []) = none
bracket_port host (some (c ∷ port)) =
    if c == b':'
    then if has_byte port b':' || has_byte host b'[' || has_byte port b'[' || has_byte port b']'
      then none
      else some (host, port)
    else none

abbrev pub bracketed : Text × Option Text → Option (Text × Text)
bracketed (host, after) = bracket_port host after

-- `net.SplitHostPort`; every error is `none`, since its callers only test for one.
unfoldable pub split_host_port : Text → Option (Text × Text)
split_host_port [] = none
split_host_port (c ∷ s) =
    if c == b'['
    then bracketed (cut_byte s b']')
    else checked_port (c ∷ s) (cut_last_byte (c ∷ s) b':')

-- `net.JoinHostPort`: a host with a colon is an IPv6 address and gets brackets.
unfoldable pub join_host_port : Text → Text → Text
join_host_port host port =
    if has_byte host b':' then b'[' ∷ (host ++ (b']' ∷ (b':' ∷ port))) else host ++ (b':' ∷ port)

-- `netip.Addr`: an IPv6 address as its upper and lower 64 bits.
pub data Addr : Type 0 where
  v4 : ℕ → Addr
  v6 : (hi lo : ℕ) (zone : Text) → Addr

-- `Addr.Unmap`: an IPv4 address mapped into IPv6, ::ffff:a.b.c.d, becomes that IPv4 address.
unfoldable pub unmap : Addr → Addr
unmap (v4 a) = v4 a
unmap (v6 hi lo zone) =
    if hi == 0
    then if lo / 0x1_0000_0000 == 0xFFFF then v4 (lo % 0x1_0000_0000) else v6 hi lo zone
    else v6 hi lo zone

-- The textual forms. The text of an IP address holds no bracket, is not a host with a port, and is
-- not empty.
pub record IpText : Type 0 where
  pub parse_ip : Text → Bool
  pub parse_addr : Text → Option Addr
  pub addr_text : Addr → Text
  -- `netip.PrefixFrom(addr, 64).String()`, of the upper 64 bits.
  pub prefix64_text : ℕ → Text
  pub no_open : (s : Text) → parse_ip s ≡ true → has_byte s b'[' ≡ false
  pub no_close : (s : Text) → parse_ip s ≡ true → has_byte s b']' ≡ false
  pub no_port : (s : Text) → parse_ip s ≡ true → split_host_port s ≡ none
  pub not_empty : parse_ip [] ≡ false
