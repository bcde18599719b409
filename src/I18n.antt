-- ===== src/I18n.antt =====
-- internal/i18n/i18n.go, and the resolver `TestTranslation` of internal/graph/resolver/schema.resolvers.go.
-- The bundle of go-i18n is a parameter, as is the choice of a message in a list of languages.
mod Tests
use lite_end_go.Base.{
  ◌≡◌, refl, ap, subst, inl, inr, Option, Option-cases, none, some, List, [], ◌∷◌, Result,
  Result-cases, ok, err, ◌>>=◌, ◌>>◌,
}
use lite_end_go.Strings.{Text, codes}
use lite_end_go.Profile.Store.{admin, Profile}
use lite_end_go.Auth.Guards.{AuthError, require_role, require_role-guards, Holds}
use lite_end_go.Graph.Avatar.{GraphError, failed}
use lite_end_go.Graph.Operations.{guarded}

-- `Localize` of a localizer for languages, given a message id and its template data; none is its error.
abbrev pub Localizer : Type 0
Localizer = List Text → Text → List (Text × Text) → Option Text

-- `load locale %q: %w` names the file that does not load.
pub data LoadError : Type 0 where
  load_locale : Text → LoadError

-- The loop of `New` over the files; `load` is `LoadMessageFileFS`.
unfoldable pub load_locales {ℓ} :
    {Bundle : Type ℓ}
    → (Bundle → Text → Option Bundle)
    → Bundle
    → List Text
    → Result LoadError Bundle
load_locales load bundle [] = ok bundle
load_locales load bundle (name ∷ names) = elim (load bundle name) [
  | none ↦ err (load_locale name)
  | some loaded ↦ load_locales load loaded names
]

abbrev pub locale_files : List Text
locale_files = codes "locales/en.json" ∷ codes "locales/ru.json" ∷ []

-- `New`, from an empty bundle.
unfoldable pub new_translator {ℓ} :
    {Bundle : Type ℓ} → (Bundle → Text → Option Bundle) → Bundle → Result LoadError Bundle
new_translator load empty = load_locales load empty locale_files

-- The languages that are tried: that of the context, empty if it holds none, then English.
abbrev pub languages : Option Text → List Text
languages none = [] ∷ codes "en" ∷ []
languages (some lang) = lang ∷ codes "en" ∷ []

abbrev pub or_key : Text → Option Text → Text
or_key key none = key
or_key key (some msg) = msg

-- `Translate`; the warning about a missing translation is output.
unfoldable pub translate : Localizer → Option Text → Text → List (Text × Text) → Text
translate localize lang key args = or_key key (localize (languages lang) key args)

abbrev pub translated : Option Localizer → Option Text → Text → Profile → Result GraphError Text
unfolding translate
translated none lang username user = err failed
translated (some localize) lang username user =
    ok (translate localize lang (codes "hello") ((codes "username", username) ∷ []))

-- `TestTranslation`, with the translator if there is one.
unfoldable pub test_translation :
    Option Localizer → Option Text → Option Profile → Text → Result GraphError Text
test_translation i18n lang user username =
    guarded (require_role user admin) >>= translated i18n lang username

-- A file that the loop passes has loaded, and the loop goes on with what it gave.
load_locales-Loaded {ℓ} :
    {Bundle : Type ℓ} (load : Bundle → Text → Option Bundle) (bundle both : Bundle) (name : Text)
    (names : List Text)
    → load_locales load bundle (name ∷ names) ≡ ok both
    → (loaded : Bundle) × (load bundle name ≡ some loaded)
      × (load_locales load loaded names ≡ ok both)
unfolding load_locales
load_locales-Loaded load bundle both name names h = elim (Option-cases (load bundle name)) [
  | inl e ↦ let failed_load : err (load_locale name) ≡ ok both = rw (load_locales, e) at h in cc
  | inr (loaded, e) ↦ (loaded, e, by_step loaded e)
]
  where
    by_step :
        (loaded : _) → load bundle name ≡ some loaded → load_locales load loaded names ≡ ok both
    by_step loaded e = rw (load_locales, e) at h

ok_inj {ℓ} : {A : Type ℓ} {x y : A} → ◌≡◌ {A = Result LoadError A} (ok x) (ok y) → x ≡ y
ok_inj k = cc

-- A translator that is made has loaded both files, the Russian one into a bundle that has the English one.
pub new_translator-Loaded {ℓ} :
    {Bundle : Type ℓ} (load : Bundle → Text → Option Bundle) (empty both : Bundle)
    → new_translator load empty ≡ ok both
    → (english : Bundle) × (load empty (codes "locales/en.json") ≡ some english)
      × (load english (codes "locales/ru.json") ≡ some both)
unfolding new_translator load_locales
new_translator-Loaded load empty both h =
    let (english, e, rest) =
      load_locales-Loaded load empty both _ (codes "locales/ru.json" ∷ []) h in
    let (last, r, done) = load_locales-Loaded load english both _ [] rest in
    (english, e, subst (λ b. load english (codes "locales/ru.json") ≡ some b) (ok_inj done) r)

-- Who is answered with a translation, and what it is.
pub record IsTranslated (i18n : Option Localizer) (lang : Option Text) (username : Text)
    (user : Option Profile) (answer : Text) : Type 0 where
  pub u : Profile
  pub caller : user ≡ some u
  pub is_admin : Holds admin u.roles
  pub localize : Localizer
  pub present : i18n ≡ some localize
  pub shown : answer ≡ translate localize lang (codes "hello") ((codes "username", username) ∷ [])

translated-ok :
    (i18n : Option Localizer) (lang : Option Text) (username : Text)
    (guard : Result AuthError Profile) (answer : Text)
    → (guarded guard >>= translated i18n lang username) ≡ ok answer
    → (u : Profile) × (guard ≡ ok u)
      × (localize : Localizer) × (i18n ≡ some localize)
      × (answer ≡ translate localize lang (codes "hello") ((codes "username", username) ∷ []))
unfolding translated
translated-ok i18n lang username (err e) answer h = cc
translated-ok none lang username (ok u) answer h =
    let unavailable : ◌≡◌ {A = Result GraphError Text} (err failed) (ok answer) = h in cc
translated-ok (some localize) lang username (ok u) answer h = (u, refl, localize, refl, cc)

-- A translation is answered only to an admin and only by a translator: the message of its language or of
-- English, or the bare key.
pub test_translation-IsTranslated :
    (i18n : Option Localizer) (lang : Option Text) (user : Option Profile) (username answer : Text)
    → test_translation i18n lang user username ≡ ok answer
    → IsTranslated i18n lang username user answer
unfolding test_translation
test_translation-IsTranslated i18n lang user username answer h =
    let (u, allowed, localize, present, shown) =
      translated-ok i18n lang username (require_role user admin) answer h in
    let (caller, is_admin) = (require_role-guards user admin u).0.0 allowed in
    record {
      u = u;
      caller = caller;
      is_admin = is_admin;
      localize = localize;
      present = present;
      shown = shown;
    }
