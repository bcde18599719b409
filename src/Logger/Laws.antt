-- ===== src/Logger/Laws.antt =====
-- What redaction hides, and what it keeps.
use lite_end_go.Base.{
  ◌≡◌, refl, sym, ap, ◌∙◌, inl, inr, Bool, true, false, if◌then◌else◌, Bool-cases,
}
use lite_end_go.Strings.{Text}
use lite_end_go.Logger.{
  Value, null, scalar, array, object, Items, no_items, item, Fields, no_fields, field, redacted,
  sensitive_key, redact_value, redact_items, redact_fields, AttrValue, any, plain, any_of,
  redacted_attr, redact_sensitive,
}

-- Two values are alike if they differ at most in what stands under sensitive keys, at any depth.
mutual
  pub data Alike : Value → Value → Type 0 where
    same_value : (v : Value) → Alike v v
    arrays : {vs ws : Items} → AlikeItems vs ws → Alike (array vs) (array ws)
    objects : {fs gs : Fields} → AlikeFields fs gs → Alike (object fs) (object gs)

  pub data AlikeItems : Items → Items → Type 0 where
    no_more : AlikeItems no_items no_items
    next :
        {v w : Value} {vs ws : Items}
        → Alike v w
        → AlikeItems vs ws
        → AlikeItems (item v vs) (item w ws)

  pub data AlikeFields : Fields → Fields → Type 0 where
    at_end : AlikeFields no_fields no_fields
    hidden :
        {k : Text} {v w : Value} {fs gs : Fields}
        → sensitive_key k ≡ true
        → AlikeFields fs gs
        → AlikeFields (field k v fs) (field k w gs)
    shown :
        {k : Text} {v w : Value} {fs gs : Fields}
        → Alike v w
        → AlikeFields fs gs
        → AlikeFields (field k v fs) (field k w gs)

hidden-eq :
    (k : Text) (v w : Value)
    → sensitive_key k ≡ true
    → (if sensitive_key k then scalar redacted else v)
      ≡ (if sensitive_key k then scalar redacted else w)
hidden-eq k v w h = rw h refl

mutual
  unfolding redact_value

  redact_value-Alike : (v w : Value) → Alike v w → redact_value v ≡ redact_value w
  redact_value-Alike v w (same_value _) = refl
  redact_value-Alike (array vs) (array ws) (arrays a) = ap array (redact_items-Alike vs ws a)
  redact_value-Alike (object fs) (object gs) (objects a) = ap object (redact_fields-Alike fs gs a)

  redact_items-Alike : (vs ws : Items) → AlikeItems vs ws → redact_items vs ≡ redact_items ws
  redact_items-Alike no_items no_items no_more = refl
  redact_items-Alike no_items (item w ws) h = elim h [ ]
  redact_items-Alike (item v vs) no_items h = elim h [ ]
  redact_items-Alike (item v vs) (item w ws) (next a b) =
      rw (redact_value-Alike v w a, redact_items-Alike vs ws b) refl

  pub redact_fields-Alike :
      (fs gs : Fields) → AlikeFields fs gs → redact_fields fs ≡ redact_fields gs
  redact_fields-Alike no_fields no_fields at_end = refl
  redact_fields-Alike no_fields (field k w gs) h = elim h [ ]
  redact_fields-Alike (field k v fs) no_fields h = elim h [ ]
  redact_fields-Alike (field k v fs) (field _ w gs) (hidden h a) =
      rw (redact_fields-Alike fs gs a)
        (ap (λ x. field k x (redact_fields gs)) (hidden-eq k (redact_value v) (redact_value w) h))
  redact_fields-Alike (field k v fs) (field _ w gs) (shown b a) =
      rw (redact_fields-Alike fs gs a, redact_value-Alike v w b) refl

-- The values of two attributes: of the same kind, and alike if it is `Any`.
abbrev pub AlikeAttr : AttrValue → AttrValue → Type 0
AlikeAttr (any v) (any w) = Alike v w
AlikeAttr (any v) (plain t) = ⊥
AlikeAttr (plain s) (any w) = ⊥
AlikeAttr (plain s) (plain t) = s ≡ t

any_of_alike :
    (v w r : Value) → redact_value v ≡ r → redact_value w ≡ r → any_of r (any v) ≡ any_of r (any w)
unfolding redact_value
any_of_alike v w (scalar s) h k = refl
any_of_alike v w (array vs) h k = refl
any_of_alike v w (object fs) h k = refl
any_of_alike null null null h k = refl
any_of_alike null (scalar s) null h k = cc
any_of_alike null (array vs) null h k = cc
any_of_alike null (object fs) null h k = cc
any_of_alike (scalar s) w null h k = cc
any_of_alike (array vs) w null h k = cc
any_of_alike (object fs) w null h k = cc

redacted_attr-Alike : (a b : AttrValue) → AlikeAttr a b → redacted_attr a ≡ redacted_attr b
unfolding redacted_attr
redacted_attr-Alike (any v) (any w) h =
    any_of_alike v w (redact_value v) refl (sym (redact_value-Alike v w h))
    ∙ ap (λ r. any_of r (any w)) (redact_value-Alike v w h)
redacted_attr-Alike (any v) (plain t) h = absurd h
redacted_attr-Alike (plain s) (any w) h = absurd h
redacted_attr-Alike (plain s) (plain t) h = ap plain h

-- What is logged of an attribute under a sensitive key depends on the key alone; under another key,
-- two values that differ at most under sensitive keys, at any depth of maps and slices, are logged
-- alike.
pub redact_sensitive-Alike :
    (key : Text) (a b : AttrValue)
    → (sensitive_key key ≡ false → AlikeAttr a b)
    → redact_sensitive (record { key = key; value = a })
      ≡ redact_sensitive (record { key = key; value = b })
unfolding redact_sensitive
redact_sensitive-Alike key a b h = elim (Bool-cases (sensitive_key key)) [
  | inl e ↦ rw e refl
  | inr e ↦ rw (e, redacted_attr-Alike a b (h e)) refl
]

-- Whatever stands under a sensitive key, at any depth, is the placeholder.
unfoldable mutual
  pub IsRedacted : Value → Type 0
  IsRedacted null = Unit
  IsRedacted (scalar s) = Unit
  IsRedacted (array vs) = AllRedacted vs
  IsRedacted (object fs) = FieldsRedacted fs

  pub AllRedacted : Items → Type 0
  AllRedacted no_items = Unit
  AllRedacted (item v vs) = IsRedacted v × AllRedacted vs

  pub FieldsRedacted : Fields → Type 0
  FieldsRedacted no_fields = Unit
  FieldsRedacted (field k v fs) =
      (if sensitive_key k then (v ≡ scalar redacted) else IsRedacted v) × FieldsRedacted fs

by_key :
    (b : Bool) (v : Value)
    → IsRedacted v
    → if b
      then ((if b then scalar redacted else v) ≡ scalar redacted)
      else IsRedacted (if b then scalar redacted else v)
by_key true v h = refl
by_key false v h = h

mutual
  unfolding redact_value IsRedacted

  IsRedacted-redact_value : (v : Value) → IsRedacted (redact_value v)
  IsRedacted-redact_value null = tt
  IsRedacted-redact_value (scalar s) = tt
  IsRedacted-redact_value (array vs) = AllRedacted-redact_items vs
  IsRedacted-redact_value (object fs) = FieldsRedacted-redact_fields fs

  AllRedacted-redact_items : (vs : Items) → AllRedacted (redact_items vs)
  AllRedacted-redact_items no_items = tt
  AllRedacted-redact_items (item v vs) = (IsRedacted-redact_value v, AllRedacted-redact_items vs)

  FieldsRedacted-redact_fields : (fs : Fields) → FieldsRedacted (redact_fields fs)
  FieldsRedacted-redact_fields no_fields = tt
  FieldsRedacted-redact_fields (field k v fs) = (
    by_key (sensitive_key k) (redact_value v) (IsRedacted-redact_value v),
    FieldsRedacted-redact_fields fs,
  )

kept_by_key :
    (b : Bool) (v : Value)
    → (if b then (v ≡ scalar redacted) else IsRedacted v)
    → (IsRedacted v → redact_value v ≡ v)
    → (if b then scalar redacted else redact_value v) ≡ v
kept_by_key true v h keep = sym h
kept_by_key false v h keep = keep h

mutual
  unfolding redact_value IsRedacted

  value_kept : (v : Value) → IsRedacted v → redact_value v ≡ v
  value_kept null h = refl
  value_kept (scalar s) h = refl
  value_kept (array vs) h = ap array (items_kept vs h)
  value_kept (object fs) h = ap object (fields_kept fs h)

  items_kept : (vs : Items) → AllRedacted vs → redact_items vs ≡ vs
  items_kept no_items h = refl
  items_kept (item v vs) (h, k) = rw (value_kept v h, items_kept vs k) refl

  fields_kept : (fs : Fields) → FieldsRedacted fs → redact_fields fs ≡ fs
  fields_kept no_fields h = refl
  fields_kept (field k v fs) (h, r) =
      ap (λ x. field k x (redact_fields fs)) (kept_by_key (sensitive_key k) v h (value_kept v))
      ∙ ap (field k v) (fields_kept fs r)

-- After redaction the placeholder stands under every sensitive key, at any depth, and a value of
-- which that holds is left as it is.
pub redact_value-IsRedacted :
    (v : Value) → IsRedacted (redact_value v) × (IsRedacted v → redact_value v ≡ v)
redact_value-IsRedacted v = (IsRedacted-redact_value v, value_kept v)
