-- ===== src/Graph/Errors/Laws.antt =====
-- Internal errors stay inside, and so do the variables of a mutation.
use lite_end_go.Base.{
  ℕ, ◌≡◌, ◌≢◌, refl, ap, inl, inr, Bool, true, false, ◌&&◌, Option, none, some, if◌then◌else◌, ◌↔◌,
  ◌⊎◌,
}
use lite_end_go.Strings.{Text, codes, same}
use lite_end_go.Strings.Laws.{same_iff, same_refl}
use lite_end_go.Logger.{error_level, warn_level, scalar, redacted, object, Fields}
use lite_end_go.Logger.Laws.{AlikeFields, redact_fields-Alike}
use lite_end_go.Graph.Avatar.{failed}
use lite_end_go.Auth.Guards.{AuthError, unauthenticated, forbidden}
use lite_end_go.Graph.Errors.{
  Coded, Raised, code_of, coded, generic_internal_message, code_internal, is_internal,
  present_error, raised, loggable_variables, known_id,
}

-- The same error with another text.
abbrev pub with_message : Raised → Text → Raised
with_message e message = record e { message = message }

-- An error is internal exactly if its code is, in any of the ways that it gets one.
is_internal_iff :
    (e : Raised) → (is_internal e ≡ true) ↔ ((code_of e.guard e.extensions).code ≡ code_internal)
unfolding is_internal
is_internal_iff e = same_iff (code_of e.guard e.extensions).code code_internal

-- The code and the status that belong to an error: those of the guard that it wraps, else its own, else those
-- of an internal one.
pub data IsCodedAs : Raised → Text → ℕ → Type 0 where
  as_unauthenticated :
      {e : Raised} → e.guard ≡ some unauthenticated → IsCodedAs e (codes "UNAUTHENTICATED") 401
  as_forbidden : {e : Raised} → e.guard ≡ some forbidden → IsCodedAs e (codes "FORBIDDEN") 403
  as_own :
      {e : Raised} (c : Coded)
      → e.guard ≡ none
      → e.extensions ≡ some c
      → IsCodedAs e c.code c.status_code
  as_internal :
      {e : Raised}
      → e.guard ≡ none
      → e.extensions ≡ none
      → IsCodedAs e (codes "INTERNAL_SERVER_ERROR") 500

code_of-IsCodedAs :
    (e : Raised) (guard : Option AuthError) (extensions : Option Coded)
    → e.guard ≡ guard
    → e.extensions ≡ extensions
    → IsCodedAs e (code_of guard extensions).code (code_of guard extensions).status_code
code_of-IsCodedAs e (some unauthenticated) extensions g x = IsCodedAs.as_unauthenticated g
code_of-IsCodedAs e (some forbidden) extensions g x = IsCodedAs.as_forbidden g
code_of-IsCodedAs e none none g x = IsCodedAs.as_internal g x
code_of-IsCodedAs e none (some c) g x = IsCodedAs.as_own c g x

-- In production what a client gets of an internal error does not depend on its text. In every mode the
-- line of the log has the error's own text, and the code and request id that the client gets, at the level of
-- an error exactly if the code is the internal one; the code and the status are those of the guard that the
-- error wraps, else its own, else the internal ones; and an error whose code is not internal reaches the
-- client with its own text.
pub present_error-Masks :
    (is_prod : Bool) (id : Text) (e : Raised)
    → (is_prod ≡ true
        → is_internal e ≡ true
        → (message : Text)
        → (present_error is_prod id (with_message e message)).1 ≡ (present_error is_prod id e).1)
      × ((present_error is_prod id e).0.error ≡ e.message)
      × ((present_error is_prod id e).0.code ≡ (present_error is_prod id e).1.coded.code)
      × ((present_error is_prod id e).0.request_id ≡ (present_error is_prod id e).1.request_id)
      × (((present_error is_prod id e).0.level ≡ error_level)
          ↔ ((present_error is_prod id e).1.coded.code ≡ code_internal))
      × IsCodedAs e
          (present_error is_prod id e).1.coded.code
          (present_error is_prod id e).1.coded.status_code
      × ((present_error is_prod id e).1.coded.code ≢ code_internal
          → (present_error is_prod id e).1.message ≡ e.message)
unfolding present_error is_internal
present_error-Masks is_prod id e = (
  λ p i message. rw (p, i) refl,
  refl,
  refl,
  refl,
  levels (is_internal e) (is_internal_iff e),
  code_of-IsCodedAs e e.guard e.extensions refl refl,
  λ other. shown is_prod (is_internal e) (is_internal_iff e) other,
)
  where
    differ : {b : Bool} → b ≡ true → b ≡ false → ⊥
    differ h k = cc

    levels :
        (b : Bool)
        → ((b ≡ true) ↔ ((code_of e.guard e.extensions).code ≡ code_internal))
        → ((if b then error_level else warn_level) ≡ error_level)
          ↔ ((code_of e.guard e.extensions).code ≡ code_internal)
    levels true (h, k) = (λ l. h refl, λ l. refl)
    levels false (h, k) = (λ l. cc, λ l. absurd (differ (k l) refl))

    shown :
        (p b : Bool)
        → ((b ≡ true) ↔ ((code_of e.guard e.extensions).code ≡ code_internal))
        → (code_of e.guard e.extensions).code ≢ code_internal
        → (if p && b then generic_internal_message else e.message) ≡ e.message
    shown true true (h, k) other = absurd (other (h refl))
    shown true false i other = refl
    shown false b i other = refl

-- In production an operation that a resolver fails without a code is answered alike, whatever the text of
-- the failure.
pub present_error-failed :
    (id text : Text)
    → (present_error true id (raised failed text)).1 ≡ record {
      message = generic_internal_message;
      coded = coded code_internal 500;
      request_id = known_id id;
    }
unfolding present_error is_internal raised same
present_error-failed id text = refl

-- Of the variables of an operation the log has nothing under a sensitive key, and of a mutation nothing.
pub loggable_variables-Alike :
    (op_type : Text) (vars vars' : Fields)
    → AlikeFields vars vars' ⊎ (op_type ≡ codes "mutation")
    → loggable_variables op_type (some vars) ≡ loggable_variables op_type (some vars')
unfolding loggable_variables
loggable_variables-Alike op_type vars vars' (inl a) =
    ap (λ fs. if same op_type (codes "mutation") then scalar redacted else object fs)
      (redact_fields-Alike vars vars' a)
loggable_variables-Alike op_type vars vars' (inr e) = rw (e, same_refl (codes "mutation")) refl
