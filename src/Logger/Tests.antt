-- ===== src/Logger/Tests.antt =====
-- Redaction at concrete inputs.
use lite_end_go.Base.{◌≡◌, refl, true, false, [], ◌∷◌}
use lite_end_go.Strings.{Text, codes}
use lite_end_go.Logger.{
  Value, scalar, array, object, no_items, item, no_fields, field, sensitive_key, any,
  redact_sensitive,
}
use lite_end_go.Logger.Laws.{
  Alike, same_value, arrays, objects, next, no_more, hidden, shown, at_end, redact_sensitive-Alike,
}

-- `{"name": "a", "list": [{"Token": secret}]}`.
abbrev with_token : Text → Value
with_token secret = object (
    field (codes "name") (scalar (codes "a")) (
      field (codes "list")
        (array (item (object (field (codes "Token") (scalar secret) no_fields)) no_items))
        no_fields))

token_is_sensitive : sensitive_key (codes "Token") ≡ true
unfolding sensitive_key
token_is_sensitive = refl

-- With the Kelvin sign for the letter k.
kelvin_is_sensitive : sensitive_key (b't' ∷ b'o' ∷ 0xE2 ∷ 0x84 ∷ 0xAA ∷ b'e' ∷ b'n' ∷ []) ≡ true
unfolding sensitive_key
kelvin_is_sensitive = refl

name_is_not : sensitive_key (codes "input") ≡ false
unfolding sensitive_key
name_is_not = refl

with_token-Alike : (s t : Text) → Alike (with_token s) (with_token t)
with_token-Alike s t = objects (
    shown (same_value _)
      (shown (arrays (next (objects (hidden token_is_sensitive at_end)) no_more)) at_end))

redact_sensitive-Alike_example :
    redact_sensitive (record { key = codes "input"; value = any (with_token (codes "x")) })
    ≡ redact_sensitive (record { key = codes "input"; value = any (with_token (codes "y")) })
redact_sensitive-Alike_example =
    redact_sensitive-Alike (codes "input") (any (with_token (codes "x")))
      (any (with_token (codes "y"))) (λ h. with_token-Alike (codes "x") (codes "y"))
