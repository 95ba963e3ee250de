-- ===== src/Admin/Settings/Redirect.antt =====
-- The choice of a language (server/internal/admin/settings.go) and the pages that follow
-- (server/internal/i18n/i18n.go).
use wsms_gateway.Base.{◌≡◌, refl, true, false, some, Bool-cases, inl, inr, if◌then◌else◌}
use wsms_gateway.Models.Records.{Text}
use wsms_gateway.Text.{codes, has_prefix}
use wsms_gateway.I18n.{Request, default_lang, is_supported, resolve}
use wsms_gateway.Admin.Settings.{Transport, Cookie, local_path, set_lang}

-- A request that carries the cookie.
abbrev pub carrying : Cookie → Text → Request
carrying c al = record { cookie = some c.value; accept_language = al }

stays_local :
    (next : Text)
    → (has_prefix (local_path next) (codes "/") ≡ true)
      × (has_prefix (local_path next) (codes "//") ≡ false)
unfolding local_path
stays_local next = elim (Bool-cases (has_prefix next (codes "/"))) [
  | inr off ↦ rw off (refl, refl)
  | inl on ↦ elim (Bool-cases (has_prefix next (codes "//"))) [
    | inl off ↦ rw (on, off) (refl, refl)
    | inr good ↦ rw (on, good) (on, good)
  ]
]

-- After setLang, a request that carries its cookie is answered in the chosen language whatever its
-- header says, and in Indonesian where the choice is not offered; the cookie holds for the whole site;
-- and the redirect goes to a path that begins with one slash.
pub set_lang-resolve :
    (t : Transport) (code next al : Text)
    → (resolve (carrying (set_lang t code next).0 al)
        ≡ (if is_supported code then code else default_lang))
      × ((set_lang t code next).0.path ≡ codes "/")
      × ((has_prefix (set_lang t code next).1 (codes "/") ≡ true)
          × (has_prefix (set_lang t code next).1 (codes "//") ≡ false))
unfolding set_lang resolve is_supported
set_lang-resolve t code next al = elim (Bool-cases (is_supported code)) [
  | inl good ↦ rw (good, good) (refl, refl, stays_local next)
  | inr bad ↦ rw bad (refl, refl, stays_local next)
]
