-- ===== src/Profile/Store/Laws.antt =====
-- The keys of the `profiles` table, and what the lookups see of an insert.
use lite_end_go.Base.{
  ℕ, suc, ◌<◌, ◌≡◌, refl, ◌∙◌, ap, inl, inr, false, none, some, List, [], ◌∷◌, arith, Bool-cases,
  Option-cases, length,
}
use lite_end_go.Strings.{Text, same}
use lite_end_go.Strings.Laws.{same_iff}
use lite_end_go.Profile.Store.{
  Profile, Table, find_sub, find_id, touch_sub, new_profile, create_profile, count_profiles,
}

-- No two rows share a subject or an id, and every id lies below the next one.
abbrev pub Keyed : ℕ → List Profile → Type 0
Keyed n [] = Unit
Keyed n (p ∷ ps) =
    (p.id < n) × (find_id p.id ps ≡ none) × (find_sub p.oidc_sub ps ≡ none) × Keyed n ps

abbrev pub IsKeyed : Table → Type 0
IsKeyed t = Keyed t.next_id t.rows

pub find_sub-sub :
    (sub : Text) (ps : List Profile) {p : Profile} → find_sub sub ps ≡ some p → p.oidc_sub ≡ sub
unfolding find_sub
find_sub-sub sub [] e = cc
find_sub-sub sub (q ∷ ps) {p} e =
    ground (arith, same_iff q.oidc_sub sub, find_sub-sub sub ps {p = p})

pub find_id-id : (id : ℕ) (ps : List Profile) {p : Profile} → find_id id ps ≡ some p → p.id ≡ id
unfolding find_id
find_id-id id [] e = cc
find_id-id id (q ∷ ps) {p} e = ground (arith, find_id-id id ps {p = p})

Keyed-mono : (n : ℕ) (ps : List Profile) → Keyed n ps → Keyed (suc n) ps
Keyed-mono n [] k = tt
Keyed-mono n (p ∷ ps) (lt, i, s, k) = (omega arith, i, s, Keyed-mono n ps k)

find_id_above : (n : ℕ) (ps : List Profile) → Keyed n ps → find_id n ps ≡ none
unfolding find_id
find_id_above n [] k = refl
find_id_above n (p ∷ ps) (lt, i, s, k) = ground (arith, find_id_above n ps k)

-- A row of another subject is found as before the trigger ran.
find_sub-touch_sub_ne :
    (now : ℕ) (sub other : Text) (ps : List Profile)
    → same sub other ≡ false
    → find_sub other (touch_sub now sub ps) ≡ find_sub other ps
unfolding find_sub touch_sub
find_sub-touch_sub_ne now sub other [] h = refl
find_sub-touch_sub_ne now sub other (p ∷ ps) h = ground (
  arith,
  same_iff p.oidc_sub sub,
  same_iff p.oidc_sub other,
  same_iff sub other,
  find_sub-touch_sub_ne now sub other ps h,
)

find_sub-touch_sub :
    (now : ℕ) (sub : Text) (ps : List Profile) {p : Profile}
    → find_sub sub ps ≡ some p
    → find_sub sub (touch_sub now sub ps) ≡ some (record p { updated_at = now })
unfolding find_sub touch_sub
find_sub-touch_sub now sub [] e = cc
find_sub-touch_sub now sub (q ∷ ps) {p} e =
    ground (arith, same_iff q.oidc_sub sub, find_sub-touch_sub now sub ps {p = p})

find_sub-touch_sub-none :
    (now : ℕ) (sub other : Text) (ps : List Profile)
    → find_sub other ps ≡ none
    → find_sub other (touch_sub now sub ps) ≡ none
unfolding find_sub touch_sub
find_sub-touch_sub-none now sub other [] e = refl
find_sub-touch_sub-none now sub other (q ∷ ps) e =
    ground (arith, same_iff q.oidc_sub other, find_sub-touch_sub-none now sub other ps)

find_id-touch_sub-none :
    (now id : ℕ) (sub : Text) (ps : List Profile)
    → find_id id ps ≡ none
    → find_id id (touch_sub now sub ps) ≡ none
unfolding find_id touch_sub
find_id-touch_sub-none now id sub [] e = refl
find_id-touch_sub-none now id sub (q ∷ ps) e = ground (arith, find_id-touch_sub-none now id sub ps)

touch_sub-Keyed :
    (now n : ℕ) (sub : Text) (ps : List Profile) → Keyed n ps → Keyed n (touch_sub now sub ps)
unfolding touch_sub
touch_sub-Keyed now n sub [] k = tt
touch_sub-Keyed now n sub (p ∷ ps) (lt, i, s, k) = elim (Bool-cases (same p.oidc_sub sub)) [
  | inl e ↦ rw e (lt, i, s, k)
  | inr e ↦ rw e (
    lt,
    find_id-touch_sub-none now p.id sub ps i,
    find_sub-touch_sub-none now sub p.oidc_sub ps s,
    touch_sub-Keyed now n sub ps k,
  )
]

-- An upsert keeps the keys, whether or not the subject had a row.
pub create_profile-IsKeyed :
    (now : ℕ) (t : Table) (sub : Text) → IsKeyed t → IsKeyed (create_profile now t sub).0
unfolding create_profile
create_profile-IsKeyed now t sub k = elim (Option-cases (find_sub sub t.rows)) [
  | inl e ↦
      rw (e, create_profile)
        (omega arith, find_id_above t.next_id t.rows k, e, Keyed-mono t.next_id t.rows k)
  | inr (p, e) ↦
      rw (e, create_profile) (Keyed-mono t.next_id _ (touch_sub-Keyed now t.next_id sub t.rows k))
]

find_sub_head :
    (sub : Text) (p : Profile) (ps : List Profile)
    → p.oidc_sub ≡ sub
    → find_sub sub (p ∷ ps) ≡ some p
unfolding find_sub
find_sub_head sub p ps e = rw ((same_iff p.oidc_sub sub).1 e)

find_sub_tail :
    (sub : Text) (p : Profile) (ps : List Profile)
    → same p.oidc_sub sub ≡ false
    → find_sub sub (p ∷ ps) ≡ find_sub sub ps
unfolding find_sub
find_sub_tail sub p ps e = rw e

-- After the upsert the subject's row is the one that was returned.
pub find_sub-create_profile :
    (now : ℕ) (t : Table) (sub : Text)
    → find_sub sub (create_profile now t sub).0.rows ≡ some (create_profile now t sub).1
unfolding create_profile
find_sub-create_profile now t sub = elim (Option-cases (find_sub sub t.rows)) [
  | inl e ↦ rw (e, create_profile) (find_sub_head sub (new_profile t.next_id now sub) t.rows refl)
  | inr (p, e) ↦ rw (e, create_profile) (find_sub-touch_sub now sub t.rows e)
]

pub find_sub-create_profile_ne :
    (now : ℕ) (t : Table) (sub other : Text)
    → same sub other ≡ false
    → find_sub other (create_profile now t sub).0.rows ≡ find_sub other t.rows
unfolding create_profile
find_sub-create_profile_ne now t sub other h = elim (Option-cases (find_sub sub t.rows)) [
  | inl e ↦ rw (e, create_profile) (find_sub_tail other (new_profile t.next_id now sub) t.rows h)
  | inr (p, e) ↦ rw (e, create_profile) (find_sub-touch_sub_ne now sub other t.rows h)
]

create_profile-conflict :
    (now : ℕ) (t : Table) (sub : Text) {p : Profile}
    → find_sub sub t.rows ≡ some p
    → ((create_profile now t sub).1 ≡ record p { updated_at = now })
      × ((create_profile now t sub).0.rows ≡ touch_sub now sub t.rows)
unfolding create_profile
create_profile-conflict now t sub e = rw (e, create_profile) (refl, refl)

length-touch_sub :
    (now : ℕ) (sub : Text) (ps : List Profile) → length (touch_sub now sub ps) ≡ length ps
unfolding touch_sub
length-touch_sub now sub [] = refl
length-touch_sub now sub (p ∷ ps) = ground (arith, length-touch_sub now sub ps)

-- Two replicas that race to create one subject get the same row back, but for its time of change, and
-- the table holds no more rows than after the first.
pub create_profile-twice :
    (now later : ℕ) (t : Table) (sub : Text)
    → ((create_profile later (create_profile now t sub).0 sub).1
        ≡ record (create_profile now t sub).1 { updated_at = later })
      × (count_profiles (create_profile later (create_profile now t sub).0 sub).0
          ≡ count_profiles (create_profile now t sub).0)
unfolding count_profiles
create_profile-twice now later t sub =
    let (row, rows) =
      create_profile-conflict later (create_profile now t sub).0 sub
        (find_sub-create_profile now t sub) in
    (row, ap length rows ∙ length-touch_sub later sub (create_profile now t sub).0.rows)
