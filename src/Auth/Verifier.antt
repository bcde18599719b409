-- ===== src/Auth/Verifier.antt =====
-- internal/auth/verifier.go: a bearer token's subject and expiry. The checks of go-oidc are the parameter
-- `Library` of the key set.
pub mod Laws
use lite_end_go.Base.{
  ℕ, Bool, true, false, ◌||◌, Option, none, some, List, [], ◌∷◌, is_empty, if◌then◌else◌, Result,
  ok, err, ◌>>=◌, ◌>>◌,
}
use lite_end_go.Strings.{Text}
use lite_end_go.Auth.KeySet.{
  Cause, other_error, IdToken, Library, JwksReply, KeySet, verify_signature,
}

-- An error of `fmt.Errorf` with `%w` around another.
abbrev pub wrap {ℓ} : {A : Type ℓ} → Result (List Cause) A → Result (List Cause) A
wrap (ok a) = ok a
wrap (err e) = err (other_error ∷ e)

abbrev pub reject : Bool → Result (List Cause) (Unit {0})
reject true = err (other_error ∷ [])
reject false = ok tt

-- What is left of `Verify` when the library has accepted the token: its expiry.
unfoldable pub accept_claims : Library → Text → ℕ → Result (List Cause) (Text × ℕ)
accept_claims lib raw expiry = do
  c ← wrap (lib.claims raw)
  reject (c.nonce || c.at_hash)
  reject (is_empty c.sub)
  ok (c.sub, expiry)

abbrev pub answered_by :
    Library → Text → KeySet × Result (List Cause) Text → KeySet × Result (List Cause) (Text × ℕ)
answered_by lib raw (s, signature) =
    (s, wrap (lib.answer raw (some signature)) >>= accept_claims lib raw)

-- `Verify`: the library asks the key set, or fails before it does.
unfoldable pub verify :
    Library → KeySet → ℕ → ℕ → JwksReply → Text → KeySet × Result (List Cause) (Text × ℕ)
verify lib s now done reply raw =
    if lib.asks raw
    then answered_by lib raw (verify_signature lib s now done reply raw)
    else (s, wrap (lib.answer raw none) >>= accept_claims lib raw)
