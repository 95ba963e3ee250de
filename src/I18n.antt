-- ===== src/I18n.antt =====
-- server/internal/i18n/i18n.go and catalog.go: the languages of the console and the look-up of its
-- texts. The texts themselves are not modelled.
pub mod Choice
use wsms_gateway.Base.{Bool, Option, none, some, List, [], ◌∷◌, any, first, if◌then◌else◌}
use wsms_gateway.Models.Records.{Text}
use wsms_gateway.Text.{codes, text_eq, has_prefix}

abbrev pub default_lang : Text
default_lang = codes "id"

pub record Lang : Type 0 where
  pub code : Text
  pub label : Text

abbrev pub supported : List Lang
supported =
    record { code = codes "id"; label = codes "ID" }
    ∷ record { code = codes "en"; label = codes "EN" }
    ∷ []

unfoldable pub is_supported : Text → Bool
is_supported code = any (λ (l : Lang). text_eq l.code code) supported

-- A map from texts to texts, and `catalog`.
abbrev pub Entries : Type 0
Entries = List (Text × Text)

abbrev pub Catalog : Type 0
Catalog = List (Text × Entries)

abbrev pub get_entry : {A : Type 0} → Text → List (Text × A) → Option A
get_entry key [] = none
get_entry key (e ∷ es) = let rest = get_entry key es in if text_eq e.0 key then some e.1 else rest

-- `m[key] = value`.
unfoldable pub put_entry : {A : Type 0} → Text → A → List (Text × A) → List (Text × A)
put_entry key value [] = (key, value) ∷ []
put_entry key value (e ∷ es) =
    let rest = put_entry key value es in if text_eq e.0 key then (key, value) ∷ es else e ∷ rest

put_each : Entries → Entries → Entries
unfolding put_entry
put_each [] m = m
put_each (e ∷ es) m = put_each es (put_entry e.0 e.1 m)

entries_of : Option Entries → Entries
entries_of none = []
entries_of (some m) = m

-- `register`.
unfoldable pub register : Text → Entries → Catalog → Catalog
unfolding put_each entries_of
register lang entries catalog =
    put_entry lang (put_each entries (entries_of (get_entry lang catalog))) catalog

found_or : Text → Option Text → Text
found_or default none = default
found_or default (some s) = s

-- `T`.
unfoldable pub translate : Catalog → Text → Text → Text
unfolding found_or entries_of
translate catalog lang key =
    found_or (found_or key (get_entry key (entries_of (get_entry (codes "en") catalog))))
      (get_entry key (entries_of (get_entry lang catalog)))

-- What `Resolve` reads of a request: the cookie, and Accept-Language in lower case.
pub record Request : Type 0 where
  pub cookie : Option Text
  pub accept_language : Text

by_header : Text → Text
by_header al =
    if has_prefix al (codes "en")
    then codes "en"
    else if has_prefix al (codes "id")
    then codes "id"
    else default_lang

-- `Resolve`.
unfoldable pub resolve : Request → Text
unfolding by_header
resolve r = elim r.cookie [
  | none ↦ by_header r.accept_language
  | some code ↦ if is_supported code then code else by_header r.accept_language
]
