-- ===== src/Strings.antt =====
-- The texts of the program, as the bytes of a Go string, and the functions of Go's `strings` and
-- `unicode/utf8` packages that it calls.
pub mod Laws
use lite_end_go.Base.{
  ℕ, zero, suc, ◌+◌, String, code, Bool, true, false, not, ◌&&◌, ◌||◌, Option, none, some, List, [],
  ◌∷◌, ◌++◌, leb, ◌==◌, if◌then◌else◌, is_empty, drop,
}
use mathlib.Core.List.{reverse}

abbrev pub Text : Type 0
Text = List ℕ

-- The bytes of a literal, which is ASCII wherever the program writes one.
abbrev pub codes : String → Text
codes String.[] = []
codes (String.◌∷◌ c s) = code c ∷ codes s

-- `a == b` on strings.
unfoldable pub same : Text → Text → Bool
same [] [] = true
same [] (y ∷ ys) = false
same (x ∷ xs) [] = false
same (x ∷ xs) (y ∷ ys) = x == y && same xs ys

-- `slices.Contains`, and a `switch` over constants.
unfoldable pub one_of : Text → List Text → Bool
unfolding same
one_of s [] = false
one_of s (t ∷ ts) = same s t || one_of s ts

-- `strings.CutPrefix`: the rest, if the prefix is there.
unfoldable pub cut_prefix : Text → Text → Option Text
cut_prefix s [] = some s
cut_prefix [] (p ∷ ps) = none
cut_prefix (c ∷ s) (p ∷ ps) = if c == p then cut_prefix s ps else none

unfoldable pub has_prefix : Text → Text → Bool
has_prefix s [] = true
has_prefix [] (p ∷ ps) = false
has_prefix (c ∷ s) (p ∷ ps) = c == p && has_prefix s ps

unfoldable pub has_suffix : Text → Text → Bool
unfolding has_prefix
has_suffix s p = has_prefix (reverse s) (reverse p)

-- `strings.Contains`.
unfoldable pub contains : Text → Text → Bool
unfolding has_prefix
contains [] p = is_empty p
contains (c ∷ s) p = has_prefix (c ∷ s) p || contains s p

-- `strings.IndexByte(s, c) >= 0`.
unfoldable pub has_byte : Text → ℕ → Bool
has_byte [] c = false
has_byte (x ∷ s) c = x == c || has_byte s c

-- `strings.Cut` at a separator of one byte: what stands before it, and the rest if it is there.
unfoldable pub cut_byte : Text → ℕ → Text × Option Text
cut_byte [] c = ([], none)
cut_byte (x ∷ s) c =
    let (before, after) = cut_byte s c in if x == c then ([], some s) else (x ∷ before, after)

-- What a cut of the reversed text says of the text.
abbrev pub turned : Text × Option Text → Option (Text × Text)
turned (after, none) = none
turned (after, some before) = some (reverse before, reverse after)

-- The cut at the last separator.
unfoldable pub cut_last_byte : Text → ℕ → Option (Text × Text)
unfolding cut_byte
cut_last_byte s c = turned (cut_byte (reverse s) c)

abbrev pub push_head : ℕ → List Text → List Text
push_head x [] = (x ∷ []) ∷ []
push_head x (p ∷ ps) = (x ∷ p) ∷ ps

-- `strings.Split` at a separator of one byte.
unfoldable pub split_byte : Text → ℕ → List Text
split_byte [] c = [] ∷ []
split_byte (x ∷ s) c = let rest = split_byte s c in if x == c then [] ∷ rest else push_head x rest

-- `strings.Join`.
unfoldable pub join : List Text → Text → Text
join [] sep = []
join (s ∷ []) sep = s
join (s ∷ (t ∷ ts)) sep = s ++ (sep ++ join (t ∷ ts) sep)

-- `strings.TrimLeft` and `strings.TrimRight` with a cutset of single bytes.
unfoldable pub trim_left : Text → Text → Text
unfolding has_byte
trim_left [] cutset = []
trim_left (x ∷ s) cutset = if has_byte cutset x then trim_left s cutset else x ∷ s

unfoldable pub trim_right : Text → Text → Text
unfolding trim_left
trim_right s cutset = reverse (trim_left (reverse s) cutset)

unfoldable pub trim : Text → Text → Text
unfolding trim_right
trim s cutset = trim_right (trim_left s cutset) cutset

-- `s[1 : len(s)-1]`, of a text whose first and last bytes are brackets; a single byte has neither.
unfoldable pub inner_part : Text → Text
inner_part [] = []
inner_part (x ∷ s) = reverse (drop 1 (reverse s))

-- The ASCII white space of `unicode.IsSpace`.
abbrev pub white_space : Text
white_space = 9 ∷ 10 ∷ 11 ∷ 12 ∷ 13 ∷ 32 ∷ []

unfoldable pub trim_space : Text → Text
unfolding trim
trim_space s = trim s white_space

-- `unicode.ToLower` on the ASCII letters; other bytes stay.
unfoldable pub to_lower : ℕ → ℕ
to_lower c = if leb b'A' c && leb c b'Z' then c + 32 else c

-- `strings.EqualFold` between texts without the letters k and s, whose folds are ASCII only.
unfoldable pub equal_fold : Text → Text → Bool
unfolding to_lower
equal_fold [] [] = true
equal_fold [] (y ∷ ys) = false
equal_fold (x ∷ xs) [] = false
equal_fold (x ∷ xs) (y ∷ ys) = to_lower x == to_lower y && equal_fold xs ys

-- `utf8.RuneStart`: not a continuation byte 10xxxxxx.
unfoldable pub rune_start : ℕ → Bool
rune_start c = not (leb 0x80 c && leb c 0xBF)

abbrev pub within : ℕ → ℕ → ℕ → Bool
within lo hi c = leb lo c && leb c hi

-- Whether the text goes on with a byte of that range and `n` continuation bytes.
tail_ok : ℕ → ℕ → ℕ → Text → Bool
tail_ok lo hi n [] = false
tail_ok lo hi zero (x ∷ s) = within lo hi x
tail_ok lo hi (suc n) (x ∷ s) = within lo hi x && tail_ok 0x80 0xBF n s

-- The bytes after the first one that belong to the rune at the head, as `utf8.DecodeRune` counts
-- them: an invalid or cut sequence is one rune of one byte.
unfoldable pub rune_rest : ℕ → Text → ℕ
unfolding tail_ok
rune_rest c s =
    if within 0xC2 0xDF c && tail_ok 0x80 0xBF 0 s
    then 1
    else if (c == 0xE0 && tail_ok 0xA0 0xBF 1 s)
        || (within 0xE1 0xEC c && tail_ok 0x80 0xBF 1 s)
        || (c == 0xED && tail_ok 0x80 0x9F 1 s)
        || (within 0xEE 0xEF c && tail_ok 0x80 0xBF 1 s)
    then 2
    else if (c == 0xF0 && tail_ok 0x90 0xBF 2 s)
        || (within 0xF1 0xF3 c && tail_ok 0x80 0xBF 2 s)
        || (c == 0xF4 && tail_ok 0x80 0x8F 2 s)
    then 3
    else 0

rune_count_from : ℕ → Text → ℕ
unfolding rune_rest
rune_count_from skip [] = 0
rune_count_from (suc skip) (c ∷ s) = rune_count_from skip s
rune_count_from zero (c ∷ s) = suc (rune_count_from (rune_rest c s) s)

-- `utf8.RuneCountInString`.
unfoldable pub rune_count : Text → ℕ
unfolding rune_count_from
rune_count s = rune_count_from 0 s
