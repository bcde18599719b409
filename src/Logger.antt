-- ===== src/Logger.antt =====
-- internal/logger/logger.go: the redaction of what is logged. A Go value is a tree of maps and
-- slices over scalars, as `encoding/json` makes it; a map lists its entries.
pub mod Laws
mod Tests
use lite_end_go.Base.{
  ℕ, zero, suc, ◌≡◌, Bool, true, false, ◌&&◌, List, [], ◌∷◌, ◌==◌, if◌then◌else◌,
}
use lite_end_go.Strings.{Text, codes, one_of, has_prefix, to_lower}

-- `slog.Level`.
pub data Level : Type 0 where
  debug_level info_level warn_level error_level : Level

mutual
  pub data Value : Type 0 where
    null : Value
    scalar : Text → Value
    array : Items → Value
    object : Fields → Value

  pub data Items : Type 0 where
    no_items : Items
    item : Value → Items → Items

  pub data Fields : Type 0 where
    no_fields : Fields
    field : Text → Value → Fields → Fields

abbrev pub sensitive_keys : List Text
sensitive_keys =
    codes "password"
    ∷ codes "token"
    ∷ codes "secret"
    ∷ codes "authorization"
    ∷ codes "credentials"
    ∷ codes "cookie"
    ∷ codes "sig"
    ∷ []

abbrev pub redacted : Text
redacted = codes "[REDACTED]"

-- `strings.ToLower`, as far as a comparison with ASCII texts tells: outside ASCII only U+0130 and
-- U+212A become ASCII letters.
lower_from : ℕ → Text → Text
unfolding has_prefix to_lower
lower_from skip [] = []
lower_from (suc skip) (c ∷ s) = lower_from skip s
lower_from zero (c ∷ s) =
    if c == 0xC4 && has_prefix s (0xB0 ∷ [])
    then b'i' ∷ lower_from 1 s
    else if c == 0xE2 && has_prefix s (0x84 ∷ 0xAA ∷ [])
    then b'k' ∷ lower_from 2 s
    else to_lower c ∷ lower_from 0 s

-- `SensitiveKey`.
unfoldable pub sensitive_key : Text → Bool
unfolding lower_from one_of
sensitive_key key = one_of (lower_from 0 key) sensitive_keys

-- `RedactValue`, and its loops over the entries of a map and of a slice.
unfoldable mutual
  pub redact_value : Value → Value
  redact_value null = null
  redact_value (scalar s) = scalar s
  redact_value (array vs) = array (redact_items vs)
  redact_value (object fs) = object (redact_fields fs)

  pub redact_items : Items → Items
  redact_items no_items = no_items
  redact_items (item v vs) = item (redact_value v) (redact_items vs)

  pub redact_fields : Fields → Fields
  redact_fields no_fields = no_fields
  redact_fields (field k v fs) =
      field k (if sensitive_key k then scalar redacted else redact_value v) (redact_fields fs)

-- The value of a `slog.Attr`: of the kind `Any`, or of another.
pub data AttrValue : Type 0 where
  any : Value → AttrValue
  plain : Text → AttrValue

pub record Attr : Type 0 where
  pub key : Text
  pub value : AttrValue

abbrev pub any_of : Value → AttrValue → AttrValue
any_of null old = old
any_of red old = any red

abbrev pub redacted_attr : AttrValue → AttrValue
unfolding redact_value
redacted_attr (any v) = any_of (redact_value v) (any v)
redacted_attr (plain s) = plain s

-- `redactSensitive`.
unfoldable pub redact_sensitive : Attr → Attr
redact_sensitive a =
    if sensitive_key a.key
    then record { key = a.key; value = plain redacted }
    else record { key = a.key; value = redacted_attr a.value }
