-- ===== src/Numbers/Laws.antt =====
-- Laws of numbers and their decimal texts.
use lite_end_go.Base.{
  ℕ, zero, suc, ◌+◌, ◌*◌, ◌/◌, ◌%◌, ◌≤◌, ◌<◌, ◌≡◌, ◌≢◌, refl, ap, ◌∙◌, inl, inr, true, false,
  Option, some, [], ◌∷◌, ◌++◌, arith, ltb, leb, Bool-cases, ltb→lt, if◌then◌else◌, ◌==◌,
}
use lite_end_go.Strings.{Text, has_byte}
use lite_end_go.Numbers.{
  digit, digits, format_int, and_digit, digits_value, unsigned, pos, parse_int32,
}

digits_value-append :
    (s : Text) (c : ℕ) (o : Option ℕ)
    → digits_value (s ++ c ∷ []) o ≡ and_digit c (digits_value s o)
unfolding digits_value
digits_value-append [] c o = refl
digits_value-append (x ∷ s) c o = digits_value-append s c (and_digit x o)

abbrev power10 : ℕ → ℕ
power10 zero = 1
power10 (suc k) = 10 * power10 k

and_digit-digit : (n d : ℕ) → d < 10 → and_digit (digit d) (some n) ≡ some (n * 10 + d)
and_digit-digit n d h = ground arith

digits_value-digits : (k n : ℕ) → n < power10 k → digits_value (digits k n) (some 0) ≡ some n
unfolding digits digits_value
digits_value-digits zero n h = ground arith
digits_value-digits (suc k) n h = elim (Bool-cases (ltb n 10)) [
  | inl e ↦ rw (e, if◌then◌else◌) (and_digit-digit 0 n (ltb→lt n 10 e) ∙ ap some (omega arith))
  | inr e ↦
      rw (e, if◌then◌else◌, digits_value-append, digits_value-digits k (n / 10) (omega arith))
        (and_digit-digit (n / 10) (n % 10) (omega arith) ∙ ap some (omega arith))
]

-- Every byte is a digit.
abbrev pub Decimal : Text → Type 0
Decimal [] = Unit
Decimal (c ∷ s) = (b'0' ≤ c) × (c ≤ b'9') × Decimal s

Decimal-append : (s t : Text) → Decimal s → Decimal t → Decimal (s ++ t)
Decimal-append [] t d e = e
Decimal-append (c ∷ s) t (lo, hi, d) e = (lo, hi, Decimal-append s t d e)

digits-Decimal : (k n : ℕ) → Decimal (digits k n)
unfolding digits
digits-Decimal zero n = tt
digits-Decimal (suc k) n = elim (Bool-cases (ltb n 10)) [
  | inl e ↦ rw e (omega arith, omega (arith, ltb→lt n 10 e), tt)
  | inr e ↦ rw e (
      Decimal-append (digits k (n / 10)) _ (digits-Decimal k (n / 10))
        (omega arith, omega arith, tt))
]

pub format_int-Decimal : (n : ℕ) → Decimal (format_int n)
unfolding format_int
format_int-Decimal n = digits-Decimal 10 n

pub Decimal-no_byte : (s : Text) (c : ℕ) → Decimal s → b'9' < c → has_byte s c ≡ false
unfolding has_byte
Decimal-no_byte [] c d h = refl
Decimal-no_byte (x ∷ s) c (lo, hi, d) h = ground (arith, Decimal-no_byte s c d h)

-- A decimal text with a value is read as that number, up to the largest int32.
parse_int32-Decimal :
    (s : Text) (n : ℕ)
    → Decimal s
    → digits_value s (some 0) ≡ some n
    → s ≢ []
    → n < 2_147_483_648
    → parse_int32 s ≡ some (pos n)
unfolding parse_int32 unsigned
parse_int32-Decimal [] n d e ne h = absurd (ne refl)
parse_int32-Decimal (c ∷ s) n (lo, hi, d) e ne h =
    let minus : (c == b'-') ≡ false = ground arith in
    let plus : (c == b'+') ≡ false = ground arith in
    let small : leb n 2_147_483_647 ≡ true = ground arith in rw (minus, plus, e) (rw small)

append-ne-nil : (s : Text) (c : ℕ) → s ++ c ∷ [] ≢ []
append-ne-nil [] c h = cc
append-ne-nil (x ∷ s) c h = cc

digits-ne-nil : (k n : ℕ) → digits (suc k) n ≢ []
unfolding digits
digits-ne-nil k n = elim (Bool-cases (ltb n 10)) [
  | inl e ↦ rw e (λ h. cc)
  | inr e ↦ rw e (append-ne-nil (digits k (n / 10)) (digit (n % 10)))
]

-- Every int32 that is not negative is read back from its text.
pub parse_int32-format_int : (n : ℕ) → n < 2_147_483_648 → parse_int32 (format_int n) ≡ some (pos n)
unfolding format_int
parse_int32-format_int n h =
    parse_int32-Decimal (digits 10 n) n (digits-Decimal 10 n)
      (digits_value-digits 10 n (omega arith)) (digits-ne-nil 9 n) h
