-- ===== src/Samples.antt =====
-- Test data that the tests of several modules share: an encoding of profiles and a textual form of addresses.
use lite_end_go.Base.{
  zero, suc, ◌≡◌, refl, sym, ap, inl, inr, true, false, Option, none, some, List, [], ◌∷◌, ◌++◌,
  length, take, drop, All, Bool-cases, if◌then◌else◌, subst,
}
use lite_end_go.Strings.{Text, codes, same, one_of, has_byte, cut_byte, cut_last_byte}
use lite_end_go.Strings.Laws.{same_iff}
use lite_end_go.Net.{Addr, v4, v6, IpText, split_host_port}
use lite_end_go.Http.{Request}
use lite_end_go.Profile.Store.{Role, admin, user, Profile}
use lite_end_go.Profile.Service.{Codec}

pub take-length : (s t : Text) → take (length s) (s ++ t) ≡ s
take-length [] t = refl
take-length (x ∷ s) t = ap (◌∷◌ x) (take-length s t)

pub drop-length : (s t : Text) → drop (length s) (s ++ t) ≡ t
drop-length [] t = refl
drop-length (x ∷ s) t = drop-length s t

abbrev pub write_text : Text → Text → Text
write_text s rest = length s ∷ (s ++ rest)

abbrev pub read_text : Text → Text × Text
read_text [] = ([], [])
read_text (n ∷ s) = (take n s, drop n s)

read_text-write_text : (s rest : Text) → read_text (write_text s rest) ≡ (s, rest)
read_text-write_text s rest = rw (take-length s rest, drop-length s rest)

abbrev write_option : Option Text → Text → Text
write_option none rest = 0 ∷ rest
write_option (some s) rest = 1 ∷ write_text s rest

abbrev some_text : Text × Text → Option Text × Text
some_text (s, rest) = (some s, rest)

abbrev read_option : Text → Option Text × Text
read_option [] = (none, [])
read_option (zero ∷ s) = (none, s)
read_option (suc n ∷ s) = some_text (read_text s)

read_option-write_option :
    (o : Option Text) (rest : Text) → read_option (write_option o rest) ≡ (o, rest)
read_option-write_option none rest = refl
read_option-write_option (some s) rest = ap some_text (read_text-write_text s rest)

abbrev write_roles : List Role → Text → Text
write_roles [] rest = 0 ∷ rest
write_roles (admin ∷ rs) rest = 1 ∷ write_roles rs rest
write_roles (user ∷ rs) rest = 2 ∷ write_roles rs rest

abbrev add_role : Role → List Role × Text → List Role × Text
add_role r (rs, rest) = (r ∷ rs, rest)

abbrev read_roles : Text → List Role × Text
read_roles [] = ([], [])
read_roles (zero ∷ s) = ([], s)
read_roles (suc zero ∷ s) = add_role admin (read_roles s)
read_roles (suc (suc n) ∷ s) = add_role user (read_roles s)

read_roles-write_roles :
    (rs : List Role) (rest : Text) → read_roles (write_roles rs rest) ≡ (rs, rest)
read_roles-write_roles [] rest = refl
read_roles-write_roles (admin ∷ rs) rest = ap (add_role admin) (read_roles-write_roles rs rest)
read_roles-write_roles (user ∷ rs) rest = ap (add_role user) (read_roles-write_roles rs rest)

abbrev write_profile : Profile → Text
write_profile p =
    p.id
    ∷ p.created_at
    ∷ p.updated_at
    ∷ write_text p.oidc_sub (
        write_roles p.roles
          (write_option p.avatar_url (write_option p.display_name (write_option p.bio []))))

abbrev read_profile : Text → Option Profile
read_profile (id ∷ created_at ∷ updated_at ∷ s0) =
    let (oidc_sub, s1) = read_text s0 in
    let (roles, s2) = read_roles s1 in
    let (avatar_url, s3) = read_option s2 in
    let (display_name, s4) = read_option s3 in
    let (bio, s5) = read_option s4 in
    some (record {
      id = id;
      created_at = created_at;
      updated_at = updated_at;
      oidc_sub = oidc_sub;
      roles = roles;
      avatar_url = avatar_url;
      display_name = display_name;
      bio = bio;
    })
read_profile _ = none

pub read_profile-write_profile : (p : Profile) → read_profile (write_profile p) ≡ some p
read_profile-write_profile p = rw (
  take-length p.oidc_sub (
      write_roles p.roles
        (write_option p.avatar_url (write_option p.display_name (write_option p.bio [])))),
  drop-length p.oidc_sub (
      write_roles p.roles
        (write_option p.avatar_url (write_option p.display_name (write_option p.bio [])))),
  read_roles-write_roles p.roles
      (write_option p.avatar_url (write_option p.display_name (write_option p.bio []))),
  read_option-write_option p.avatar_url (write_option p.display_name (write_option p.bio [])),
  read_option-write_option p.display_name (write_option p.bio []),
  read_option-write_option p.bio [],
)

abbrev pub sample_codec : Codec
sample_codec = record {
  encode = write_profile;
  decode = read_profile;
  decode-encode = read_profile-write_profile;
}

-- The textual form knows three addresses.
abbrev pub client_text : Text
client_text = codes "203.0.113.7"

abbrev pub prefix_text : Text
prefix_text = codes "2001:db8::1"

abbrev pub other_text : Text
other_text = codes "2001:db8::2"

abbrev known_ips : List Text
known_ips = client_text ∷ prefix_text ∷ other_text ∷ []

pub one_of-All :
    (P : Text → Type 0) (s : Text) (ts : List Text) → All P ts → one_of s ts ≡ true → P s
unfolding one_of
one_of-All P s [] a h = cc
one_of-All P s (t ∷ ts) (p, a) h = elim (Bool-cases (same s t)) [
  | inl e ↦ subst P (sym ((same_iff s t).0 e)) p
  | inr e ↦ one_of-All P s ts a (rw (e, one_of) at h)
]

pub no_open_known : All (λ s. has_byte s b'[' ≡ false) known_ips
unfolding has_byte
no_open_known = (refl, (refl, (refl, tt)))

pub no_close_known : All (λ s. has_byte s b']' ≡ false) known_ips
unfolding has_byte
no_close_known = (refl, (refl, (refl, tt)))

pub no_port_known : All (λ s. split_host_port s ≡ none) known_ips
unfolding split_host_port has_byte cut_last_byte cut_byte
no_port_known = (refl, (refl, (refl, tt)))

pub not_empty_known : one_of [] known_ips ≡ false
unfolding one_of same
not_empty_known = refl

abbrev sample_parse_addr : Text → Option Addr
sample_parse_addr s =
    if one_of s (client_text ∷ [])
    then some (v4 3_405_803_783)
    else if one_of s (prefix_text ∷ [])
    then some (v6 2_306_139_568_115_548_160 1 [])
    else if one_of s (other_text ∷ [])
    then some (v6 2_306_139_568_115_548_160 2 [])
    else none

abbrev pub sample_ip_text : IpText
sample_ip_text = record {
  parse_ip = λ s. one_of s known_ips;
  parse_addr = sample_parse_addr;
  addr_text = λ a. [];
  prefix64_text = λ hi. hi ∷ [];
  no_open = λ s. one_of-All (λ t. has_byte t b'[' ≡ false) s known_ips no_open_known;
  no_close = λ s. one_of-All (λ t. has_byte t b']' ≡ false) s known_ips no_close_known;
  no_port = λ s. one_of-All (λ t. split_host_port t ≡ none) s known_ips no_port_known;
  not_empty = not_empty_known;
}

-- A request that came through two proxies, with one entry that the client has forged.
abbrev pub sample_request : List Text → Text → Request
sample_request forwarded_for remote_addr = record {
  path = codes "/graphql";
  remote_addr = remote_addr;
  forwarded_for = forwarded_for;
  x_real_ip = [];
  authorization = [];
  x_mock_sub = [];
  request_id = [];
}
