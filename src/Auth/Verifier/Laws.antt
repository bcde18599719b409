-- ===== src/Auth/Verifier/Laws.antt =====
-- What a verified token has shown.
use lite_end_go.Base.{
  ℕ, ◌≡◌, sym, ◌∙◌, ap, inl, inr, Bool, false, ◌||◌, none, some, List, arith, is_empty,
  if◌then◌else◌, Bool-cases, Result, ok, err, ◌>>=◌, ◌>>◌, Result-cases,
}
use lite_end_go.Strings.{Text}
use lite_end_go.Auth.KeySet.{Cause, IdToken, Library, JwksReply, KeySet, verify_signature}
use lite_end_go.Auth.Verifier.{wrap, reject, accept_claims, verify}

-- The claims of the token: a subject, and nothing of an ID token.
pub record IsClaimed (lib : Library) (raw sub : Text) : Type 0 where
  pub token : IdToken
  pub claimed : lib.claims raw ≡ ok token
  pub no_nonce : token.nonce ≡ false
  pub no_at_hash : token.at_hash ≡ false
  pub same_sub : token.sub ≡ sub
  pub named : is_empty sub ≡ false

-- The library accepted the token, with the answer of the key set where it asked for one.
abbrev pub IsAccepted : Library → KeySet → ℕ → ℕ → JwksReply → Text → ℕ → Type 0
IsAccepted lib s now done reply raw expiry =
    lib.answer raw
      (if lib.asks raw then some (verify_signature lib s now done reply raw).1 else none)
    ≡ ok expiry

err_not_ok {ℓ} : {A : Type ℓ} {e : List Cause} {a : A} → err e ≡ ok a → ⊥
err_not_ok x = cc

checked :
    (lib : Library) (raw sub : Text) (expiry before : ℕ) (token : IdToken)
    → lib.claims raw ≡ ok token
    → let result : Result (List Cause) (Text × ℕ) = ok (token.sub, before) in
      (reject (token.nonce || token.at_hash) >> (reject (is_empty token.sub) >> result))
        ≡ ok (sub, expiry)
      → IsClaimed lib raw sub × (before ≡ expiry)
checked lib raw sub expiry before token claimed h =
    elim (Bool-cases (token.nonce || token.at_hash)) [
      | inl e ↦ absurd (err_not_ok (rw e at h))
      | inr e ↦ elim (Bool-cases (is_empty token.sub)) [
        | inl e' ↦ absurd (err_not_ok (rw (e, e') at h))
        | inr e' ↦
            let (same, when) = pair_inj (rw (e, e') at h) in
            (
              record {
                token = token;
                claimed = claimed;
                no_nonce = (or_false token.nonce token.at_hash e).0;
                no_at_hash = (or_false token.nonce token.at_hash e).1;
                same_sub = same;
                named = ap is_empty (sym same) ∙ e';
              },
              when,
            )
      ]
    ]
  where
    pair_inj :
        {a b : Text} {m n : ℕ}
        → ◌≡◌ {A = Result (List Cause) (Text × ℕ)} (ok (a, m)) (ok (b, n))
        → (a ≡ b) × (m ≡ n)
    pair_inj x = (cc, cc)

    or_false : (a b : Bool) → (a || b) ≡ false → (a ≡ false) × (b ≡ false)
    or_false a b x = (ground arith, ground arith)

accept_claims-ok :
    (lib : Library) (raw sub : Text) (expiry before : ℕ)
    → accept_claims lib raw before ≡ ok (sub, expiry)
    → IsClaimed lib raw sub × (before ≡ expiry)
unfolding accept_claims
accept_claims-ok lib raw sub expiry before h = elim (Result-cases (lib.claims raw)) [
  | inr (e, bad) ↦ absurd (err_not_ok (rw (bad, accept_claims) at h))
  | inl (token, good) ↦ checked lib raw sub expiry before token good (rw (good, accept_claims) at h)
]

answer-ok :
    (lib : Library) (raw sub : Text) (expiry : ℕ) (r : Result (List Cause) ℕ)
    → (wrap r >>= accept_claims lib raw) ≡ ok (sub, expiry)
    → (r ≡ ok expiry) × IsClaimed lib raw sub
answer-ok lib raw sub expiry (err e) h = absurd (err_not_ok h)
answer-ok lib raw sub expiry (ok before) h =
    let (claimed, same) = accept_claims-ok lib raw sub expiry before h in (ap ok same, claimed)

-- A token that is verified, as of a subject and with an expiry, was accepted by the library with that expiry;
-- its claims name that subject, which is not empty, and it is no ID token.
pub verify-IsAccepted :
    (lib : Library) (s : KeySet) (now done : ℕ) (reply : JwksReply) (raw sub : Text) (expiry : ℕ)
    → (verify lib s now done reply raw).1 ≡ ok (sub, expiry)
    → IsAccepted lib s now done reply raw expiry × IsClaimed lib raw sub
unfolding verify
verify-IsAccepted lib s now done reply raw sub expiry h = elim (Bool-cases (lib.asks raw)) [
  | inl e ↦ rw e (answer-ok lib raw sub expiry _ (rw (e, verify) at h))
  | inr e ↦ rw e (answer-ok lib raw sub expiry _ (rw (e, verify) at h))
]
