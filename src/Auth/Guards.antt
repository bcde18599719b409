-- ===== src/Auth/Guards.antt =====
-- internal/auth/context.go: the guards of resolvers and handlers over the user of a request.
use lite_end_go.Base.{
  ◌≡◌, ◌↔◌, refl, sym, ap, subst, ◌⊎◌, inl, inr, Bool, true, false, Option, none, some, List, [],
  ◌∷◌, if◌then◌else◌, Bool-cases, Result, ok, err,
}
use lite_end_go.Profile.Store.{Role, admin, user, Profile}

pub data AuthError : Type 0 where
  unauthenticated forbidden : AuthError

abbrev pub same_role : Role → Role → Bool
same_role admin admin = true
same_role user user = true
same_role _ _ = false

unfoldable pub has_role : List Role → Role → Bool
has_role [] role = false
has_role (r ∷ rs) role = if same_role r role then true else has_role rs role

-- `Require`.
unfoldable pub require : Option Profile → Result AuthError Profile
require none = err unauthenticated
require (some p) = ok p

-- `RequireRole`.
unfoldable pub require_role : Option Profile → Role → Result AuthError Profile
unfolding require
require_role u role = elim (require u) [
  | err e ↦ err e
  | ok p ↦ if has_role p.roles role then ok p else err forbidden
]

-- The role is among them.
abbrev pub Holds : Role → List Role → Type 0
Holds role [] = ⊥
Holds role (r ∷ rs) = (r ≡ role) ⊎ Holds role rs

same_role-eq : (r s : Role) → same_role r s ≡ true → r ≡ s
same_role-eq admin admin h = refl
same_role-eq user user h = refl
same_role-eq admin user h = cc
same_role-eq user admin h = cc

same_role_refl : (r : Role) → same_role r r ≡ true
same_role_refl admin = refl
same_role_refl user = refl

has_role-Holds : (rs : List Role) (role : Role) → has_role rs role ≡ true → Holds role rs
unfolding has_role
has_role-Holds [] role h = cc
has_role-Holds (r ∷ rs) role h = elim (Bool-cases (same_role r role)) [
  | inl e ↦ inl (same_role-eq r role e)
  | inr e ↦ inr (has_role-Holds rs role (rw (e, has_role) at h))
]

Holds-has_role : (rs : List Role) (role : Role) → Holds role rs → has_role rs role ≡ true
unfolding has_role
Holds-has_role [] role m = absurd m
Holds-has_role (r ∷ rs) role (inl e) = rw (e, same_role_refl role)
Holds-has_role (r ∷ rs) role (inr m) = elim (Bool-cases (same_role r role)) [
  | inl e ↦ rw e
  | inr e ↦ rw (e, has_role) (Holds-has_role rs role m)
]

ok_inj : {p q : Profile} → ◌≡◌ {A = Result AuthError Profile} (ok p) (ok q) → p ≡ q
ok_inj h = cc

some_inj : {p q : Profile} → some p ≡ some q → p ≡ q
some_inj h = cc

-- A guard lets a request through exactly for a user with the role, and answers that it is not authenticated
-- exactly without a user, whatever the role.
pub require_role-guards :
    (u : Option Profile) (role : Role) (p : Profile)
    → ((require_role u role ≡ ok p) ↔ ((u ≡ some p) × Holds role p.roles))
      × ((require_role u role ≡ err unauthenticated) ↔ (u ≡ none))
unfolding require_role require
require_role-guards none role p = ((λ h. cc, λ h. cc), (λ h. refl, λ h. refl))
require_role-guards (some q) role p =
    ((only, λ h. allowed h.0 h.1), (λ h. absurd (never (has_role q.roles role) h), λ h. cc))
  where
    never : (b : Bool) → (if b then ok q else err forbidden) ≡ err unauthenticated → ⊥
    never true h = cc
    never false h = cc

    case_of :
        (b : Bool)
        → has_role q.roles role ≡ b
        → (if b then ok q else err forbidden) ≡ ok p
        → (some q ≡ some p) × Holds role p.roles
    case_of true e h =
        (cc, subst (λ (x : Profile). Holds role x.roles) (ok_inj h) (has_role-Holds q.roles role e))
    case_of false e h = cc

    only :
        (if has_role q.roles role then ok q else err forbidden) ≡ ok p
        → (some q ≡ some p) × Holds role p.roles
    only h = case_of (has_role q.roles role) refl h

    allowed :
        some q ≡ some p
        → Holds role p.roles
        → (if has_role q.roles role then ok q else err forbidden) ≡ ok p
    allowed e m =
        rw
          (Holds-has_role q.roles role
            (subst (λ (x : Profile). Holds role x.roles) (sym (some_inj e)) m))
          (ap ok (some_inj e))
