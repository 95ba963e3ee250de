-- ===== src/Router/Msisdn.antt =====
-- server/internal/router/operator.go: the canonical form of a phone number, and the operator that
-- its prefix names. `("", false)` is none; a prefix table is an association list.
pub mod Canonical
pub mod Detect
mod Tests
use wsms_gateway.Base.{
  ℕ, ◌≤◌, Bool, true, false, ◌&&◌, ◌||◌, Option, none, some, List, [], ◌∷◌, ◌++◌, length, leb, ltb,
  ◌==◌, if◌then◌else◌,
}
use wsms_gateway.Models.Enums.{Operator}
use wsms_gateway.Models.Records.{Text}
use wsms_gateway.Text.{codes, text_eq, has_prefix, drop, take, trim_space, is_digit, all, strip}

abbrev pub plus62 : Text
plus62 = b'+' ∷ b'6' ∷ b'2' ∷ []

-- The class of `stripRe`: white space, "-", "(", ")" and ".".
pub is_separator : ℕ → Bool
is_separator c =
    c == 9
    || c == 10
    || c == 12
    || c == 13
    || c == b' '
    || c == b'-'
    || c == b'('
    || c == b')'
    || c == b'.'

-- `e164Re`: +628 and 7 to 12 digits.
pub is_e164 : Text → Bool
is_e164 s =
    has_prefix s (b'+' ∷ b'6' ∷ b'2' ∷ b'8' ∷ [])
    && (all is_digit (drop 4 s) && (leb 7 (length (drop 4 s)) && leb (length (drop 4 s)) 12))

-- The `switch` on the prefix of the stripped text.
pub with_country : Text → Option Text
with_country s =
    if has_prefix s plus62
    then some s
    else if has_prefix s (b'6' ∷ b'2' ∷ [])
    then some (b'+' ∷ s)
    else if has_prefix s (b'0' ∷ [])
    then some (plus62 ++ drop 1 s)
    else if has_prefix s (b'8' ∷ [])
    then some (plus62 ++ s)
    else none

pub checked : Option Text → Option Text
unfolding is_e164
checked none = none
checked (some s) = if is_e164 s then some s else none

unfoldable pub normalize_msisdn : Text → Option Text
unfolding is_separator with_country checked trim_space
normalize_msisdn raw = checked (with_country (strip is_separator (trim_space raw)))

unfoldable pub local_form : Text → Text
local_form canonical = if has_prefix canonical plus62 then b'0' ∷ drop 3 canonical else canonical

abbrev pub lookup : Text → List (Text × Operator) → Option Operator
lookup k [] = none
lookup k ((j, op) ∷ table) = if text_eq j k then some op else lookup k table

abbrev pub or_unknown : Option Operator → Operator
or_unknown none = Operator.unknown
or_unknown (some op) = op

abbrev entries : Operator → List Text → List (Text × Operator)
entries op [] = []
entries op (p ∷ ps) = (p, op) ∷ entries op ps

unfoldable pub default_prefixes : List (Text × Operator)
default_prefixes =
    entries Operator.telkomsel (
      codes "0811"
      ∷ codes "0812"
      ∷ codes "0813"
      ∷ codes "0821"
      ∷ codes "0822"
      ∷ codes "0823"
      ∷ codes "0851"
      ∷ codes "0852"
      ∷ codes "0853"
      ∷ [])
    ++ (entries Operator.indosat (
          codes "0814"
          ∷ codes "0815"
          ∷ codes "0816"
          ∷ codes "0855"
          ∷ codes "0856"
          ∷ codes "0857"
          ∷ codes "0858"
          ∷ [])
        ++ (entries Operator.xl (
              codes "0817"
              ∷ codes "0818"
              ∷ codes "0819"
              ∷ codes "0859"
              ∷ codes "0877"
              ∷ codes "0878"
              ∷ [])
            ++ (entries Operator.axis
                  (codes "0831" ∷ codes "0832" ∷ codes "0833" ∷ codes "0838" ∷ [])
                ++ (entries Operator.tri (
                      codes "0895" ∷ codes "0896" ∷ codes "0897" ∷ codes "0898" ∷ codes "0899" ∷ [])
                    ++ entries Operator.smartfren (
                        codes "0881"
                        ∷ codes "0882"
                        ∷ codes "0883"
                        ∷ codes "0884"
                        ∷ codes "0885"
                        ∷ codes "0886"
                        ∷ codes "0887"
                        ∷ codes "0888"
                        ∷ codes "0889"
                        ∷ [])))))

-- `DetectOperator`; a nil table is none.
abbrev table_or_default : Option (List (Text × Operator)) → List (Text × Operator)
table_or_default none = default_prefixes
table_or_default (some table) = table

unfoldable pub detect_operator : Text → Option (List (Text × Operator)) → Operator
unfolding local_form
detect_operator canonical table =
    let local = local_form canonical in
    if ltb (length local) 4
    then Operator.unknown
    else or_unknown (lookup (take 4 local) (table_or_default table))
