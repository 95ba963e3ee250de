-- ===== src/Admin/Render.antt =====
-- server/internal/admin/render.go: the functions of the templates, without those that format
-- calendar dates or floats. Texts are bytes here.
pub mod Masked
use wsms_gateway.Base.{
  ℕ, zero, suc, ◌+◌, ◌-◌, ◌*◌, ◌/◌, Bool, true, false, ◌||◌, Option, none, some, List, [], ◌∷◌,
  ◌++◌, ltb, leb, ◌==◌, any, length, if◌then◌else◌,
}
use wsms_gateway.Models.Records.{Text}
use wsms_gateway.Text.{codes, text_eq, take, drop}
use wsms_gateway.Text.Decimal.{decimal}

-- `strings.Repeat("*", n)`.
abbrev pub stars : ℕ → Text
stars zero = []
stars (suc n) = b'*' ∷ stars n

-- `maskMSISDN`.
unfoldable pub mask_msisdn : Text → Text
mask_msisdn s =
    if leb (length s) 7 then s else take 5 s ++ (stars (length s - 7) ++ drop (length s - 2) s)

-- `shortID`.
unfoldable pub short_id : Text → Text
short_id s = if ltb 8 (length s) then take 8 s else s

-- `quotaPct`, for a quota that is not negative.
unfoldable pub quota_pct : ℕ → ℕ → ℕ
quota_pct sent quota =
    if quota == 0 then 0 else (let p = sent * 100 / quota in if ltb 100 p then 100 else p)

-- `ratio`, for numbers that are not negative.
unfoldable pub ratio : ℕ → ℕ → ℕ
ratio n mx =
    if mx == 0
    then 0
    else (let part = n * 100 / mx in
        let r = if ltb 100 part then 100 else part in
        if ltb r 2 then (if ltb 0 n then 2 else r) else r)

-- `strings.ReplaceAll(s, ":", "_")`, and `scopeField`.
underscored : Text → Text
underscored [] = []
underscored (c ∷ s) = (if c == b':' then b'_' else c) ∷ underscored s

unfoldable pub scope_field : Text → Text
unfolding underscored
scope_field s = codes "scope_" ++ underscored s

-- `int(d.Seconds())` and the like cut towards zero, also where the time is yet to come.
signed : Bool → ℕ → Text
signed past zero = decimal 0
signed past (suc n) = if past then decimal (suc n) else b'-' ∷ decimal (suc n)

-- The time since `t`, in milliseconds.
ago : ℕ → ℕ → Text
unfolding signed
ago now t =
    if ltb now t
    then signed false ((t - now) / 1000) ++ codes "s ago"
    else (let d = now - t in
        if ltb d 60000
        then signed true (d / 1000) ++ codes "s ago"
        else if ltb d 3600000
        then signed true (d / 60000) ++ codes "m ago"
        else if ltb d 86400000
        then signed true (d / 3600000) ++ codes "h ago"
        else signed true (d / 86400000) ++ codes "d ago")

-- `since`.
unfoldable pub since : ℕ → Option ℕ → Text
unfolding ago
since now none = codes "never"
since now (some t) = ago now t

abbrev one_of : Text → List Text → Bool
one_of s names = any (text_eq s) names

-- `statusBadge`.
unfoldable pub status_badge : Text → Text
status_badge s =
    if one_of s (codes "DELIVERED" ∷ codes "SENT" ∷ codes "READY" ∷ codes "ONLINE" ∷ [])
    then codes "ok"
    else if one_of s (codes "FAILED" ∷ codes "EXPIRED" ∷ codes "DISABLED" ∷ codes "ABSENT" ∷ [])
    then codes "bad"
    else if one_of s (
        codes "SENT_UNCONFIRMED"
        ∷ codes "COOLDOWN"
        ∷ codes "QUOTA_EXCEEDED"
        ∷ codes "AWAITING_ACK"
        ∷ [])
    then codes "warn"
    else codes "muted"

-- The drawing of `statusIcon`.
icon_path : Text → Text
icon_path s =
    if text_eq s (codes "DELIVERED")
    then codes "<path d=\"M1.5 12.5 6 17 14 8\"/><path d=\"m12 16 2.5 2.5L23 8\"/>"
    else if text_eq s (codes "SENT")
    then codes "<path d=\"M5 13l4 4L19 7\"/>"
    else if text_eq s (codes "SENT_UNCONFIRMED")
    then codes "<path d=\"M5 13l4 4L19 7\" stroke-dasharray=\"3 2.5\"/>"
    else if one_of s (codes "FAILED" ∷ codes "EXPIRED" ∷ [])
    then codes "<path d=\"M18 6 6 18M6 6l12 12\"/>"
    else if text_eq s (codes "CANCELLED")
    then codes "<circle cx=\"12\" cy=\"12\" r=\"9\"/><path d=\"M8 12h8\"/>"
    else codes "<circle cx=\"12\" cy=\"12\" r=\"9\"/><path d=\"M12 7.5V12l3 2\"/>"

-- `statusIcon`.
unfoldable pub status_icon : Text → Text
unfolding icon_path
status_icon s =
    codes "<span class=\"sicon "
    ++ (status_badge s
        ++ (codes "\" title=\""
            ++ (s
                ++ (codes
                      "\"><svg viewBox=\"0 0 24 24\" fill=\"none\" stroke=\"currentColor\" stroke-width=\"2.2\" stroke-linecap=\"round\" stroke-linejoin=\"round\" aria-hidden=\"true\">"
                    ++ (icon_path s ++ codes "</svg></span>")))))
