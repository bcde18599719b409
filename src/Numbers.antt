-- ===== src/Numbers.antt =====
-- `strconv.FormatInt` of a number that is not negative, and `strconv.ParseInt`, both in base 10.
pub mod Laws
use lite_end_go.Base.{
  ℕ, zero, suc, ◌+◌, ◌-◌, ◌*◌, ◌/◌, ◌%◌, ◌≤◌, ◌<◌, ◌≡◌, refl, sym, ap, ◌∙◌, inl, inr, Bool, true,
  false, ◌&&◌, Option, none, some, List, [], ◌∷◌, ◌++◌, arith, ◌==◌, ltb, leb, lt→ltb, le→leb,
  Bool-cases, if◌then◌else◌,
}
use mathlib.Core.List.{append_assoc}
use lite_end_go.Strings.{Text}

abbrev pub digit : ℕ → ℕ
digit d = b'0' + d

-- The digits of a number below `10 ^ fuel`.
digits : ℕ → ℕ → Text
digits zero n = []
digits (suc fuel) n =
    let front = digits fuel (n / 10) in
    if ltb n 10 then digit n ∷ [] else front ++ digit (n % 10) ∷ []

-- `strconv.FormatInt` on the values of an int32, which have at most ten digits.
unfoldable pub format_int : ℕ → Text
unfolding digits
format_int n = digits 10 n

abbrev pub and_digit : ℕ → Option ℕ → Option ℕ
and_digit c none = none
and_digit c (some n) = if leb b'0' c && leb c b'9' then some (n * 10 + (c - b'0')) else none

-- The number that the digits go on to, after those that have been read.
digits_value : Text → Option ℕ → Option ℕ
digits_value [] o = o
digits_value (c ∷ s) o = digits_value s (and_digit c o)

-- At least one digit, as Go's parser asks.
unsigned : Text → Option ℕ
unfolding digits_value
unsigned [] = none
unsigned (c ∷ s) = digits_value (c ∷ s) (some 0)

pub data ℤ : Type 0 where
  pos negsuc : ℕ → ℤ

abbrev up_to : ℕ → Option ℕ → Option ℤ
up_to most none = none
up_to most (some n) = if leb n most then some (pos n) else none

abbrev negative : Option ℕ → Option ℤ
negative none = none
negative (some zero) = some (pos 0)
negative (some (suc n)) = if ltb n 2_147_483_648 then some (negsuc n) else none

-- `strconv.ParseInt(s, 10, 32)`; `none` is a syntax or range error.
unfoldable pub parse_int32 : Text → Option ℤ
unfolding unsigned
parse_int32 [] = none
parse_int32 (c ∷ s) =
    if c == b'-'
    then negative (unsigned s)
    else if c == b'+'
    then up_to 2_147_483_647 (unsigned s)
    else up_to 2_147_483_647 (unsigned (c ∷ s))
