-- ===== src/Upload/Links/Laws.antt =====
-- Links of internal/upload/service.go and the keys behind them.
use lite_end_go.Base.{
  ◌≡◌, refl, sym, ◌∙◌, ap, ◌⊎◌, inl, inr, false, Option, none, some, [], ◌∷◌, ◌++◌, Bool-cases,
  Option-cases,
}
use mathlib.Core.List.{append_assoc, append-nil}
use lite_end_go.Strings.{Text, cut_prefix, cut_byte, has_byte}
use lite_end_go.Strings.Laws.{
  cut_prefix-append, cut_prefix-eq_some, cut_byte-append, cut_byte-none, cut_byte-no_sep,
  cut_byte-eq_some, cut_byte-eq_none,
}
use lite_end_go.Upload.Links.{Service, permanent_link, key_from_link, is_unsafe, plain_key}

-- A key that no link can confuse with another: safe, and without the mark that begins a query.
pub record IsPlainKey (key : Text) : Type 0 where
  pub safe : is_unsafe key ≡ false
  pub no_query : has_byte key b'?' ≡ false

permanent_link-split :
    (s : Service) (key query : Text)
    → permanent_link s key ++ query ≡ (s.public_url ++ b'/' ∷ []) ++ (key ++ query)
unfolding permanent_link
permanent_link-split s key query = simp append_assoc

plain_key-cut :
    (rest key : Text)
    → (cut_byte rest b'?').0 ≡ key
    → IsPlainKey key
    → plain_key ((cut_byte rest b'?').0) ≡ some key
plain_key-cut rest key e k = rw (e, k.safe)

-- The key of a link with a signature query is the key that was linked.
pub key_from_link-signed :
    (s : Service) (key query : Text)
    → IsPlainKey key
    → key_from_link s (permanent_link s key ++ b'?' ∷ query) ≡ some key
unfolding key_from_link
key_from_link-signed s key query k =
    rw
      (
        permanent_link-split s key (b'?' ∷ query),
        cut_prefix-append (s.public_url ++ b'/' ∷ []) (key ++ b'?' ∷ query),
        key_from_link,
      )
      (plain_key-cut (key ++ b'?' ∷ query) key
        (ap (λ p. p.0) (cut_byte-append key query b'?' k.no_query)) k)

-- So is the key of a permanent link.
key_from_link-permanent_link :
    (s : Service) (key : Text) → IsPlainKey key → key_from_link s (permanent_link s key) ≡ some key
unfolding key_from_link
key_from_link-permanent_link s key k =
    rw
      (
        sym (append-nil (permanent_link s key)) ∙ permanent_link-split s key [],
        cut_prefix-append (s.public_url ++ b'/' ∷ []) (key ++ []),
        append-nil key,
        key_from_link,
      )
      (plain_key-cut key key (ap (λ p. p.0) (cut_byte-none key b'?' k.no_query)) k)

-- Both forms of a link of ours, the permanent one and any signed one, give back the key that was linked.
pub key_from_link-link :
    (s : Service) (key query : Text)
    → IsPlainKey key
    → (key_from_link s (permanent_link s key) ≡ some key)
      × (key_from_link s (permanent_link s key ++ b'?' ∷ query) ≡ some key)
key_from_link-link s key query k =
    (key_from_link-permanent_link s key k, key_from_link-signed s key query k)

plain_key-eq_some :
    (key : Text) {k : Text} → plain_key key ≡ some k → (key ≡ k) × (is_unsafe k ≡ false)
plain_key-eq_some key {k} h = elim (Bool-cases (is_unsafe key)) [
  | inl bad ↦ absurd (none_not_some (rw bad at h))
  | inr good ↦
      let same_key : key ≡ k = some-injective (rw good at h) in (same_key, rw same_key at good)
]
  where
    none_not_some : {t : Text} → none ≡ some t → ⊥
    none_not_some e = cc

    some-injective : {t u : Text} → some t ≡ some u → t ≡ u
    some-injective e = cc

-- A key that is taken from a client's link is plain, and the link begins with the public address of
-- that key and goes on, if at all, with a query.
pub key_from_link-IsPlainKey :
    (s : Service) (link key : Text)
    → key_from_link s link ≡ some key
    → IsPlainKey key
      × ((link ≡ permanent_link s key)
          ⊎ ((query : Text) × (link ≡ permanent_link s key ++ b'?' ∷ query)))
unfolding key_from_link
key_from_link-IsPlainKey s link key h =
    elim (Option-cases (cut_prefix link (s.public_url ++ b'/' ∷ []))) [
      | inl foreign ↦ absurd (none_not_some (rw (foreign, key_from_link) at h))
      | inr (rest, ours) ↦
          let (cut, safe) =
            plain_key-eq_some ((cut_byte rest b'?').0) (rw (ours, key_from_link) at h) in
          (
            record { safe = safe; no_query = rw cut at (cut_byte-no_sep rest b'?') },
            link_of_cut rest (cut_byte rest b'?') refl cut
                (cut_prefix-eq_some link (s.public_url ++ b'/' ∷ []) ours),
          )
    ]
  where
    none_not_some : {t : Text} → none ≡ some t → ⊥
    none_not_some e = cc

    prefix-key : (s.public_url ++ b'/' ∷ []) ++ key ≡ permanent_link s key
    prefix-key =
        ap (◌++◌ (s.public_url ++ b'/' ∷ [])) (sym (append-nil key))
        ∙ sym (permanent_link-split s key [])
        ∙ append-nil (permanent_link s key)

    link_of_cut :
        (rest : Text) (p : Text × Option Text)
        → cut_byte rest b'?' ≡ p
        → p.0 ≡ key
        → link ≡ (s.public_url ++ b'/' ∷ []) ++ rest
        → (link ≡ permanent_link s key)
          ⊎ ((query : Text) × (link ≡ permanent_link s key ++ b'?' ∷ query))
    link_of_cut rest (before, none) e k l =
        inl (
          l ∙ ap (◌++◌ (s.public_url ++ b'/' ∷ [])) (cut_byte-eq_none rest b'?' e ∙ k) ∙ prefix-key)
    link_of_cut rest (before, some query) e k l = inr (
      query,
      l
          ∙ ap (◌++◌ (s.public_url ++ b'/' ∷ []))
              (cut_byte-eq_some rest b'?' e ∙ ap (λ t. t ++ b'?' ∷ query) k)
          ∙ sym (permanent_link-split s key (b'?' ∷ query)),
    )
