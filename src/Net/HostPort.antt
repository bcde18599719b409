-- ===== src/Net/HostPort.antt =====
-- `net.SplitHostPort` after `net.JoinHostPort`.
use lite_end_go.Base.{
  ℕ, ◌≡◌, refl, false, Option, none, some, [], ◌∷◌, ◌++◌, arith, ◌==◌, inl, inr, ◌∙◌, Bool-cases,
}
use lite_end_go.Strings.{Text, has_byte, cut_byte, cut_last_byte}
use lite_end_go.Strings.Laws.{
  has_byte-append, cut_byte-append, cut_last_byte-append, cut_last_byte-eq_some,
}
use lite_end_go.Net.{split_host_port, join_host_port, checked_port, bracketed}

-- A text without brackets or colons, and the same with colons allowed.
pub record IsPlain (s : Text) : Type 0 where
  pub no_open : has_byte s b'[' ≡ false
  pub no_close : has_byte s b']' ≡ false

has_byte-join :
    (host port : Text) (c : ℕ)
    → (b':' == c) ≡ false
    → has_byte host c ≡ false
    → has_byte port c ≡ false
    → has_byte (host ++ (b':' ∷ port)) c ≡ false
unfolding has_byte
has_byte-join host port c n a b = rw (has_byte-append host (b':' ∷ port) c, a, n) b

split_bracketed :
    (host port : Text)
    → IsPlain host
    → IsPlain port
    → has_byte port b':' ≡ false
    → bracketed (cut_byte (host ++ (b']' ∷ (b':' ∷ port))) b']') ≡ some (host, port)
split_bracketed host port h p q =
    rw (cut_byte-append host (b':' ∷ port) b']' h.no_close, q, h.no_open, p.no_open, p.no_close)

checked_port-append :
    (host port : Text)
    → IsPlain host
    → IsPlain port
    → has_byte port b':' ≡ false
    → has_byte host b':' ≡ false
    → checked_port (host ++ (b':' ∷ port)) (cut_last_byte (host ++ (b':' ∷ port)) b':')
      ≡ some (host, port)
checked_port-append host port h p q r = rw (
  cut_last_byte-append host port b':' q,
  r,
  has_byte-join host port b'[' refl h.no_open p.no_open,
  has_byte-join host port b']' refl h.no_close p.no_close,
)

head_not_open : (c : ℕ) (s : Text) → has_byte (c ∷ s) b'[' ≡ false → (c == b'[') ≡ false
unfolding has_byte
head_not_open c s h = ground arith

split_host_port-unbracketed :
    (host port : Text)
    → IsPlain host
    → split_host_port (host ++ (b':' ∷ port))
      ≡ checked_port (host ++ (b':' ∷ port)) (cut_last_byte (host ++ (b':' ∷ port)) b':')
unfolding split_host_port
split_host_port-unbracketed [] port h = refl
split_host_port-unbracketed (c ∷ host) port h = rw (head_not_open c host h.no_open)

pub split_host_port-join_host_port :
    (host port : Text)
    → IsPlain host
    → IsPlain port
    → has_byte port b':' ≡ false
    → split_host_port (join_host_port host port) ≡ some (host, port)
unfolding join_host_port split_host_port
split_host_port-join_host_port host port h p q = elim (Bool-cases (has_byte host b':')) [
  | inl v6 ↦ rw v6 (split_bracketed host port h p q)
  | inr v4 ↦
      rw v4 (split_host_port-unbracketed host port h ∙ checked_port-append host port h p q v4)
]

-- The end of a text without a byte is without it.
append-no_byte : (s t : Text) (c x : ℕ) → has_byte (s ++ x ∷ t) c ≡ false → has_byte t c ≡ false
unfolding has_byte
append-no_byte [] t c x h = ground arith
append-no_byte (y ∷ s) t c x h = append-no_byte s t c x (ground arith)

checked_port-port :
    (s host port : Text) (o : Option (Text × Text))
    → cut_last_byte s b':' ≡ o
    → checked_port s o ≡ some (host, port)
    → IsPlain port × (has_byte port b':' ≡ false)
checked_port-port s host port none e h = cc
checked_port-port s host port (some (a, b)) e h =
    let (whole, no_colon) = cut_last_byte-eq_some s b':' e in
    let is_port : b ≡ port = ground arith in
    let no_open : has_byte s b'[' ≡ false = ground arith in
    let no_close : has_byte s b']' ≡ false = ground arith in
    rw (← is_port) (
      record {
        no_open = append-no_byte a b b'[' b':' (rw whole at no_open);
        no_close = append-no_byte a b b']' b':' (rw whole at no_close);
      },
      no_colon,
    )

bracketed-port :
    (p : Text × Option Text) (host port : Text)
    → bracketed p ≡ some (host, port)
    → IsPlain port × (has_byte port b':' ≡ false)
bracketed-port (a, none) host port h = cc
bracketed-port (a, some []) host port h = cc
bracketed-port (a, some (c ∷ b)) host port h = ground arith

-- The port that is split off holds no bracket and no colon.
pub split_host_port-port :
    (s host port : Text)
    → split_host_port s ≡ some (host, port)
    → IsPlain port × (has_byte port b':' ≡ false)
unfolding split_host_port
split_host_port-port [] host port h = cc
split_host_port-port (c ∷ s) host port h = elim (Bool-cases (c == b'[')) [
  | inl e ↦ bracketed-port (cut_byte s b']') host port (rw (e, split_host_port) at h)
  | inr e ↦ checked_port-port (c ∷ s) host port _ refl (rw (e, split_host_port) at h)
]
