-- ===== src/Upload/Filename/Laws.antt =====
-- Where `boundedFilename` cuts.
use lite_end_go.Base.{
  ℕ, zero, suc, ◌≤◌, ◌<◌, ◌≡◌, refl, ◌⊎◌, inl, inr, true, false, arith, leb, leb→le, Bool-cases,
  length, take, length-take-le,
}
use native.Mathlib.Nat.{le_trans}
use lite_end_go.Strings.{Text}
use lite_end_go.Upload.Filename.{rune_start_at, cut_back, bounded_filename}

-- The cut is at most where it began, at a boundary unless it is 0, and every place that it passed
-- lay inside a rune.
pub record IsCut (name : Text) (from cut : ℕ) : Type 0 where
  pub within : cut ≤ from
  pub boundary : (cut ≡ 0) ⊎ (rune_start_at name cut ≡ true)
  pub passed : (i : ℕ) → cut < i → i ≤ from → rune_start_at name i ≡ false

le_suc : {a b : ℕ} → a ≤ b → a ≤ suc b
le_suc p = omega arith

le_suc_cases : {a b : ℕ} → a ≤ suc b → (a ≤ b) ⊎ (a ≡ suc b)
le_suc_cases p = grind arith

cut_back-IsCut : (name : Text) (from : ℕ) → IsCut name from (cut_back name from)
unfolding cut_back
cut_back-IsCut name zero = record {
  within = omega arith;
  boundary = inl refl;
  passed = λ i p q. absurd (omega arith);
}
cut_back-IsCut name (suc from) = elim (Bool-cases (rune_start_at name (suc from))) [
  | inl e ↦
      rw (e, cut_back)
        (record { within = omega arith; boundary = inr e; passed = λ i p q. absurd (omega arith) })
  | inr e ↦
      let ih = cut_back-IsCut name from in
      rw (e, cut_back)
        (record {
          within = le_suc ih.within;
          boundary = ih.boundary;
          passed = λ i p q. elim (le_suc_cases q) [ inl r ↦ ih.passed i p r | inr r ↦ rw r e ];
        })
]

-- The stored name is at most 255 bytes of the client's name, from its start: all of it if it is no
-- longer, and otherwise up to the last rune boundary that fits.
pub bounded_filename-IsCut :
    (name : Text)
    → (length (bounded_filename name) ≤ 255)
      × (((length name ≤ 255) × (bounded_filename name ≡ name))
          ⊎ ((255 < length name)
              × ((cut : ℕ) × (bounded_filename name ≡ take cut name) × IsCut name 255 cut)))
unfolding bounded_filename
bounded_filename-IsCut name = elim (Bool-cases (leb (length name) 255)) [
  | inl e ↦ rw e (leb→le _ _ e, inl (leb→le _ _ e, refl))
  | inr e ↦ rw e (
    le_trans (length-take-le (cut_back name 255) name) (cut_back-IsCut name 255).within,
    inr (long e, (cut_back name 255, refl, cut_back-IsCut name 255)),
  )
]
  where
    long : {n : ℕ} → leb n 255 ≡ false → 255 < n
    long e = ground arith
