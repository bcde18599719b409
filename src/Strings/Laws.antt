-- ===== src/Strings/Laws.antt =====
-- Laws of the text functions.
use lite_end_go.Base.{
  ℕ, zero, suc, ◌≤◌, ◌≡◌, ◌≢◌, refl, ap, sym, ◌∙◌, ◌↔◌, inl, inr, true, false, ◌||◌, Option, none,
  some, List, [], ◌∷◌, ◌++◌, arith, ◌==◌, ==_refl, ==_iff, Bool-cases, length, is_empty,
}
use mathlib.Core.List.{
  reverse, reverse_aux, reverse-append, reverse-cons, reverse-reverse, append_assoc,
}
use lite_end_go.Strings.{
  Text, same, cut_prefix, has_byte, cut_byte, cut_last_byte, split_byte, push_head, trim_left,
  trim_right, trim, codes, turned, rune_count_from, rune_count, rune_rest,
}

pub same_iff : (s t : Text) → (same s t ≡ true) ↔ (s ≡ t)
unfolding same
same_iff [] [] = ground arith
same_iff [] (y ∷ ys) = ground arith
same_iff (x ∷ xs) [] = ground arith
same_iff (x ∷ xs) (y ∷ ys) = ground (arith, same_iff xs ys)

pub same_refl : (s : Text) → same s s ≡ true
same_refl s = (same_iff s s).1 refl

pub cut_prefix-append : (p s : Text) → cut_prefix (p ++ s) p ≡ some s
unfolding cut_prefix
cut_prefix-append [] [] = refl
cut_prefix-append [] (c ∷ s) = refl
cut_prefix-append (c ∷ p) s = rw (==_refl c) (cut_prefix-append p s)

-- A prefix that is cut stood there.
pub cut_prefix-eq_some : (s p : Text) {r : Text} → cut_prefix s p ≡ some r → s ≡ p ++ r
unfolding cut_prefix
cut_prefix-eq_some [] [] h = cc
cut_prefix-eq_some (c ∷ s) [] h = cc
cut_prefix-eq_some [] (x ∷ p) h = cc
cut_prefix-eq_some (c ∷ s) (x ∷ p) {r} h = elim (Bool-cases (c == x)) [
  | inl e ↦ ground (arith, cut_prefix-eq_some s p {r = r} (rw (e, cut_prefix) at h))
  | inr e ↦ ground arith
]

pub has_byte-append : (s t : Text) (c : ℕ) → has_byte (s ++ t) c ≡ (has_byte s c || has_byte t c)
unfolding has_byte
has_byte-append [] t c = refl
has_byte-append (x ∷ s) t c = ground (arith, has_byte-append s t c)

-- Without the separator in it the whole text stands before the cut.
pub cut_byte-append :
    (s t : Text) (c : ℕ) → has_byte s c ≡ false → cut_byte (s ++ c ∷ t) c ≡ (s, some t)
unfolding cut_byte has_byte
cut_byte-append [] t c h = rw (==_refl c)
cut_byte-append (x ∷ s) t c h = ground (arith, cut_byte-append s t c)

pub cut_byte-none : (s : Text) (c : ℕ) → has_byte s c ≡ false → cut_byte s c ≡ (s, none)
unfolding cut_byte has_byte
cut_byte-none [] c h = refl
cut_byte-none (x ∷ s) c h = ground (arith, cut_byte-none s c)

pub cut_byte-no_sep : (s : Text) (c : ℕ) → has_byte ((cut_byte s c).0) c ≡ false
unfolding cut_byte has_byte
cut_byte-no_sep [] c = refl
cut_byte-no_sep (x ∷ s) c = ground (arith, cut_byte-no_sep s c)

has_byte-reverse : (s : Text) (c : ℕ) → has_byte s c ≡ false → has_byte (reverse s) c ≡ false
unfolding has_byte
has_byte-reverse [] c h = refl
has_byte-reverse (x ∷ s) c h =
    rw (reverse-append (x ∷ []) s)
      (ground (arith, has_byte-append (reverse s) (x ∷ []) c, has_byte-reverse s c))

reverse_middle : (s t : Text) (c : ℕ) → reverse (s ++ c ∷ t) ≡ reverse t ++ c ∷ reverse s
reverse_middle s t c = simp (reverse-append, reverse-cons, append_assoc)

-- The last separator is found past any that stand before it.
pub cut_last_byte-append :
    (s t : Text) (c : ℕ) → has_byte t c ≡ false → cut_last_byte (s ++ c ∷ t) c ≡ some (s, t)
unfolding cut_last_byte
cut_last_byte-append s t c h = rw (
  reverse_middle s t c,
  cut_byte-append (reverse t) (reverse s) c (has_byte-reverse t c h),
  reverse-reverse,
  reverse-reverse,
)

abbrev rebuilt : ℕ → Text × Option Text → Text
rebuilt c (before, none) = before
rebuilt c (before, some after) = before ++ c ∷ after

rebuilt-cons :
    (x c : ℕ) (before : Text) (after : Option Text)
    → rebuilt c (x ∷ before, after) ≡ x ∷ rebuilt c (before, after)
rebuilt-cons x c before none = refl
rebuilt-cons x c before (some after) = refl

rebuilt-cut_byte : (s : Text) (c : ℕ) → rebuilt c (cut_byte s c) ≡ s
unfolding cut_byte
rebuilt-cut_byte [] c = refl
rebuilt-cut_byte (x ∷ s) c = elim (Bool-cases (x == c)) [
  | inl e ↦ rw (e, (==_iff x c).0 e)
  | inr e ↦ rw e (rebuilt-cons x c _ _ ∙ ap (◌∷◌ x) (rebuilt-cut_byte s c))
]

-- What a cut separates makes up the text.
pub cut_byte-eq_some : (s : Text) (c : ℕ) {a b : Text} → cut_byte s c ≡ (a, some b) → s ≡ a ++ c ∷ b
cut_byte-eq_some s c h = sym (rebuilt-cut_byte s c) ∙ ap (rebuilt c) h

some-fst : {p q : Text × Text} → some p ≡ some q → p.0 ≡ q.0
some-fst h = cc

some-snd : {p q : Text × Text} → some p ≡ some q → p.1 ≡ q.1
some-snd h = cc

pub cut_byte-eq_none : (s : Text) (c : ℕ) {a : Text} → cut_byte s c ≡ (a, none) → s ≡ a
cut_byte-eq_none s c h = sym (rebuilt-cut_byte s c) ∙ ap (rebuilt c) h

-- The text after the last separator has none in it, and both sides make up the text.
pub cut_last_byte-eq_some :
    (s : Text) (c : ℕ) {a b : Text}
    → cut_last_byte s c ≡ some (a, b)
    → (s ≡ a ++ c ∷ b) × (has_byte b c ≡ false)
unfolding cut_last_byte
cut_last_byte-eq_some s c {a} {b} h = go (cut_byte (reverse s) c) refl h
  where
    go :
        (p : Text × Option Text)
        → cut_byte (reverse s) c ≡ p
        → turned p ≡ some (a, b)
        → (s ≡ a ++ c ∷ b) × (has_byte b c ≡ false)
    go (after, none) e h = cc
    go (after, some before) e h =
        let here : reverse before ≡ a = some-fst h in
        let there : reverse after ≡ b = some-snd h in
        let whole : s ≡ reverse before ++ c ∷ reverse after =
          sym (reverse-reverse s)
          ∙ ap reverse (cut_byte-eq_some (reverse s) c e)
          ∙ reverse_middle after before c in
        let free : has_byte after c ≡ false =
          rw (ap (λ p. p.0) e) at (cut_byte-no_sep (reverse s) c) in
        (rw (here, there) at whole, rw there at (has_byte-reverse after c free))

pub split_byte-ne-nil : (s : Text) (c : ℕ) → split_byte s c ≢ []
unfolding split_byte
split_byte-ne-nil [] c h = cc
split_byte-ne-nil (x ∷ s) c h = ground (arith, split_byte-ne-nil s c)

push_head-append :
    (x : ℕ) (ps qs : List Text) → ps ≢ [] → push_head x (ps ++ qs) ≡ push_head x ps ++ qs
push_head-append x [] qs h = absurd (h refl)
push_head-append x (p ∷ ps) qs h = refl

-- A separator between two texts separates their parts.
pub split_byte-append :
    (s t : Text) (c : ℕ) → split_byte (s ++ c ∷ t) c ≡ split_byte s c ++ split_byte t c
unfolding split_byte
split_byte-append [] t c = rw (==_refl c)
split_byte-append (x ∷ s) t c = elim (Bool-cases (x == c)) [
  | inl e ↦ rw e (ap (◌∷◌ []) (split_byte-append s t c))
  | inr e ↦
      rw (e, split_byte-append s t c)
        (push_head-append x (split_byte s c) (split_byte t c) (split_byte-ne-nil s c))
]

rune_count_from-le : (skip : ℕ) (s : Text) → rune_count_from skip s ≤ length s
unfolding rune_count_from
rune_count_from-le zero [] = omega arith
rune_count_from-le (suc k) [] = omega arith
rune_count_from-le (suc k) (c ∷ s) = omega (arith, rune_count_from-le k s)
rune_count_from-le zero (c ∷ s) = omega (arith, rune_count_from-le (rune_rest c s) s)

-- A text has at most one rune for each byte.
pub rune_count-le-length : (s : Text) → rune_count s ≤ length s
unfolding rune_count
rune_count-le-length s = rune_count_from-le 0 s

pub is_empty-middle : (s t : Text) (c : ℕ) → is_empty (s ++ c ∷ t) ≡ false
is_empty-middle [] t c = refl
is_empty-middle (x ∷ s) t c = refl

pub is_empty_of_ne : (s : Text) → s ≢ [] → is_empty s ≡ false
is_empty_of_ne [] h = absurd (h refl)
is_empty_of_ne (x ∷ s) h = refl

-- None of the text's bytes is in the cutset.
abbrev pub Free : Text → Text → Type 0
Free [] cutset = Unit
Free (x ∷ s) cutset = (has_byte cutset x ≡ false) × Free s cutset

Free-reverse_aux :
    (s t cutset : Text) → Free s cutset → Free t cutset → Free (reverse_aux s t) cutset
Free-reverse_aux [] t cutset f g = g
Free-reverse_aux (x ∷ s) t cutset (h, f) g = Free-reverse_aux s (x ∷ t) cutset f (h, g)

trim_left-Free : (s cutset : Text) → Free s cutset → trim_left s cutset ≡ s
unfolding trim_left
trim_left-Free [] cutset f = refl
trim_left-Free (x ∷ s) cutset (h, f) = rw h

-- There is nothing to trim.
pub trim-Free : (s cutset : Text) → Free s cutset → trim s cutset ≡ s
unfolding trim trim_right
trim-Free s cutset f = rw (
  trim_left-Free s cutset f,
  trim_left-Free (reverse s) cutset (Free-reverse_aux s [] cutset f tt),
  reverse-reverse,
)

pub Free-brackets :
    (s : Text) → has_byte s b'[' ≡ false → has_byte s b']' ≡ false → Free s (codes "[]")
unfolding has_byte
Free-brackets [] f g = tt
Free-brackets (x ∷ s) f g = (ground arith, Free-brackets s (ground arith) (ground arith))
