-- ===== src/Profile/Store/Updates.antt =====
-- `UpdateProfile` on the `profiles` table, and what the lookups see of it.
use lite_end_go.Base.{
  ℕ, ◌≡◌, refl, ◌∙◌, ap, inl, inr, false, none, some, List, [], ◌∷◌, arith, ◌==◌, Bool-cases,
  Option-cases,
}
use lite_end_go.Strings.{Text, same}
use lite_end_go.Strings.Laws.{same_iff, same_refl}
use lite_end_go.Profile.Store.{
  Profile, Table, Changes, find_sub, find_id, set_id, changed, update_profile,
}
use lite_end_go.Profile.Store.Laws.{Keyed, IsKeyed, find_id-id}

-- In a table with keys, the row of an id is the row of its subject.
pub find_sub_of_find_id :
    (n id : ℕ) (ps : List Profile) {p : Profile}
    → Keyed n ps
    → find_id id ps ≡ some p
    → find_sub p.oidc_sub ps ≡ some p
unfolding find_id find_sub
find_sub_of_find_id n id [] k e = cc
find_sub_of_find_id n id (q ∷ ps) {p} (lt, i, s, k) e =
    ground (arith, same_iff q.oidc_sub p.oidc_sub, find_sub_of_find_id n id ps {p = p} k)

module _ (id : ℕ) (q : Profile) where
  find_sub-set_id_ne :
      (other : Text) (ps : List Profile) {p : Profile}
      → find_id id ps ≡ some p
      → p.oidc_sub ≡ q.oidc_sub
      → same q.oidc_sub other ≡ false
      → find_sub other (set_id id q ps) ≡ find_sub other ps
  unfolding find_id find_sub set_id
  find_sub-set_id_ne other [] e s h = refl
  find_sub-set_id_ne other (x ∷ ps) {p} e s h = ground (
    arith,
    same_iff x.oidc_sub other,
    same_iff q.oidc_sub other,
    find_sub-set_id_ne other ps {p = p},
  )

  find_sub-set_id :
      (n : ℕ) (ps : List Profile) {p : Profile}
      → Keyed n ps
      → find_id id ps ≡ some p
      → p.oidc_sub ≡ q.oidc_sub
      → find_sub q.oidc_sub (set_id id q ps) ≡ some q
  unfolding find_id find_sub set_id
  find_sub-set_id n [] k e s = cc
  find_sub-set_id n (x ∷ ps) {p} (lt, i, u, k) e s = ground (
    arith,
    same_iff x.oidc_sub q.oidc_sub,
    same_refl q.oidc_sub,
    find_sub_of_find_id n id ps {p = p} k,
    find_sub-set_id n ps {p = p} k,
  )

  find_id-set_id-none :
      (i : ℕ) (ps : List Profile)
      → q.id ≡ id
      → find_id i ps ≡ none
      → find_id i (set_id id q ps) ≡ none
  unfolding find_id set_id
  find_id-set_id-none i [] e h = refl
  find_id-set_id-none i (x ∷ ps) e h = ground (arith, find_id-set_id-none i ps e)

  find_sub-set_id-none :
      (sub : Text) (ps : List Profile) {p : Profile}
      → find_id id ps ≡ some p
      → p.oidc_sub ≡ q.oidc_sub
      → find_sub sub ps ≡ none
      → find_sub sub (set_id id q ps) ≡ none
  unfolding find_id find_sub set_id
  find_sub-set_id-none sub [] e s h = refl
  find_sub-set_id-none sub (x ∷ ps) {p} e s h =
      ground (
        arith,
        same_iff x.oidc_sub sub,
        same_iff q.oidc_sub sub,
        find_sub-set_id-none sub ps {p = p},
      )

  set_id-Keyed :
      (n : ℕ) (ps : List Profile) {p : Profile}
      → Keyed n ps
      → find_id id ps ≡ some p
      → p.oidc_sub ≡ q.oidc_sub
      → q.id ≡ id
      → Keyed n (set_id id q ps)
  unfolding find_id set_id
  set_id-Keyed n [] k e s d = tt
  set_id-Keyed n (x ∷ ps) {p} (lt, i, u, k) e s d = elim (Bool-cases (x.id == id)) [
    | inl same_id ↦ rw same_id (ground arith, ground arith, ground arith, k)
    | inr other ↦ rw other (
      lt,
      find_id-set_id-none x.id ps d i,
      find_sub-set_id-none x.oidc_sub ps (rw other at e) s u,
      set_id-Keyed n ps k (rw other at e) s d,
    )
  ]

module _ (now : ℕ) (t : Table) (id : ℕ) (c : Changes) where
  -- What an update returns, in one place.
  pub update_profile-some :
      {t' : Table} {q : Profile}
      → update_profile now t id c ≡ some (t', q)
      → (p : Profile) × (find_id id t.rows ≡ some p)
        × (q ≡ changed now c p)
        × (t' ≡ record t { rows = set_id id q t.rows })
  unfolding update_profile
  update_profile-some {t'} {q} e = elim (Option-cases (find_id id t.rows)) [
    | inl missing ↦ absurd (none_not_some (rw (missing, update_profile) at e))
    | inr (p, there) ↦ (p, there, ground arith, ground arith)
  ]
    where
      none_not_some : {r : Table × Profile} → none ≡ some r → ⊥
      none_not_some h = cc

  module _ {t' : Table} {q : Profile} (e : update_profile now t id c ≡ some (t', q))
      (k : IsKeyed t) where
    pub update_profile-sub : (p : Profile) → find_id id t.rows ≡ some p → p.oidc_sub ≡ q.oidc_sub
    unfolding changed
    update_profile-sub p there =
        let (p', there', is_changed, _) = update_profile-some e in ground arith

    -- After an update the subject's row is the one that was returned.
    pub find_sub-update_profile : find_sub q.oidc_sub t'.rows ≡ some q
    find_sub-update_profile =
        let (p, there, _, rows) = update_profile-some e in
        ap (λ (u : Table). find_sub q.oidc_sub u.rows) rows
        ∙ find_sub-set_id id q t.next_id t.rows k there (update_profile-sub p there)

    pub find_sub-update_profile_ne :
        (other : Text)
        → same q.oidc_sub other ≡ false
        → find_sub other t'.rows ≡ find_sub other t.rows
    find_sub-update_profile_ne other h =
        let (p, there, _, rows) = update_profile-some e in
        ap (λ (u : Table). find_sub other u.rows) rows
        ∙ find_sub-set_id_ne id q other t.rows there (update_profile-sub p there) h

    pub update_profile-IsKeyed : IsKeyed t'
    unfolding changed
    update_profile-IsKeyed =
        let (p, there, is_changed, rows) = update_profile-some e in
        rw rows (
          set_id-Keyed id q t.next_id t.rows k there (update_profile-sub p there)
            (ap (λ (r : Profile). r.id) is_changed ∙ find_id-id id t.rows there))
