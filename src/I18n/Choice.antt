-- ===== src/I18n/Choice.antt =====
-- The language of a page (server/internal/i18n/i18n.go).
use wsms_gateway.Base.{◌≡◌, refl, true, Bool-cases, inl, inr, Option-cases}
use wsms_gateway.Models.Records.{Text}
use wsms_gateway.Text.{codes, has_prefix}
use wsms_gateway.I18n.{Request, is_supported, by_header, resolve}

by_header-is_supported : (al : Text) → is_supported (by_header al) ≡ true
unfolding by_header is_supported
by_header-is_supported al = elim (Bool-cases (has_prefix al (codes "en"))) [
  | inl en ↦ rw en refl
  | inr not_en ↦ elim (Bool-cases (has_prefix al (codes "id"))) [
    | inl id ↦ rw (not_en, id) refl
    | inr not_id ↦ rw (not_en, not_id) refl
  ]
]

-- Whatever cookie and header a request has, `Resolve` picks a language that is offered.
pub resolve-is_supported : (r : Request) → is_supported (resolve r) ≡ true
unfolding resolve
resolve-is_supported r = elim (Option-cases r.cookie) [
  | inl missing ↦ rw missing (by_header-is_supported r.accept_language)
  | inr (code, given) ↦ elim (Bool-cases (is_supported code)) [
    | inl good ↦ rw (given, good) good
    | inr bad ↦ rw (given, bad) (by_header-is_supported r.accept_language)
  ]
]
