-- ===== src/I18n/Tests.antt =====
-- Runs of internal/i18n/i18n.go, those of its tests.
use lite_end_go.Base.{◌≡◌, refl, Option, none, some, List, [], ◌∷◌, ◌++◌, if◌then◌else◌, ok, err}
use lite_end_go.Strings.{Text, codes, same}
use lite_end_go.I18n.{
  Localizer, load_locale, new_translator, load_locales, translate, test_translation,
}
use lite_end_go.Auth.Guards.{require_role, has_role}
use lite_end_go.Profile.Store.{Profile, admin}
use lite_end_go.Auth.Samples.{alice_profile}

abbrev username_of : List (Text × Text) → Text
username_of [] = codes "<no value>"
username_of ((key, value) ∷ args) = if same key (codes "username") then value else username_of args

-- The message `hello` in English and, spelled in ASCII, in Russian.
unfoldable hello_in : List Text → Text → Option Text
hello_in [] name = none
hello_in (lang ∷ langs) name =
    if same lang (codes "en")
    then some (codes "Hello " ++ name ++ codes "!")
    else if same lang (codes "ru")
    then some (codes "Privet " ++ name ++ codes "!")
    else hello_in langs name

unfoldable localize : Localizer
unfolding hello_in same
localize langs key args =
    if same key (codes "hello") then hello_in langs (username_of args) else none

abbrev bob : List (Text × Text)
bob = (codes "username", codes "Bob") ∷ []

translate-english : translate localize (some (codes "en")) (codes "hello") bob ≡ codes "Hello Bob!"
unfolding translate localize same
translate-english = refl

translate-russian : translate localize (some (codes "ru")) (codes "hello") bob ≡ codes "Privet Bob!"
unfolding translate localize same
translate-russian = refl

translate-falls_back :
    translate localize (some (codes "fr")) (codes "hello") bob ≡ codes "Hello Bob!"
unfolding translate localize same
translate-falls_back = refl

translate-no_language : translate localize none (codes "hello") bob ≡ codes "Hello Bob!"
unfolding translate localize same
translate-no_language = refl

translate-missing :
    translate localize (some (codes "en")) (codes "does.not.exist") [] ≡ codes "does.not.exist"
unfolding translate localize same
translate-missing = refl

abbrev admin_profile : Profile
admin_profile = record alice_profile { roles = admin ∷ [] }

test_translation-admin :
    test_translation (some localize) (some (codes "en")) (some admin_profile) (codes "bob")
    ≡ ok (codes "Hello bob!")
unfolding test_translation translate localize same require_role has_role
test_translation-admin = refl

-- A file that is missing stops the loading, and is named.
new_translator-missing :
    new_translator
      (λ loaded name. if same name (codes "locales/ru.json") then none else some (name ∷ loaded))
      []
    ≡ err (load_locale (codes "locales/ru.json"))
unfolding new_translator load_locales same
new_translator-missing = refl
