-- ===== src/Secret/Password/Verdict.antt =====
-- What Verify says of the hashes that Hash makes (server/internal/secret/secret.go).
use wsms_gateway.Base.{
  ℕ, ◌≡◌, refl, ◌∙◌, ◌↔◌, sym, Option-cases, inl, inr, ap, true, not, Option, none, some, [], ◌∷◌,
  ◌==◌, length, arith,
}
use wsms_gateway.Models.Records.{Text}
use wsms_gateway.Text.{codes, split, all}
use wsms_gateway.Text.Laws.{split-append, split_none, text_eq_sound, text_eq_refl}
use wsms_gateway.Secret.Base64.{std, encode, decode}
use wsms_gateway.Secret.Base64.Laws.{IsBytes, std-IsDistinct, all_symbols, decode-encode}
use wsms_gateway.Secret.Password.{
  Argon, argon_time, argon_memory, argon_threads, argon_key_len, encoded, hash, scan_params, Result,
  compared, check_parts, verify,
}

-- No separator stands in an encoding.
plain_text : (s : Text) → all (λ c. not (c == b'$')) (encode std s) ≡ true
plain_text s = all_symbols std (λ c. not (c == b'$')) s refl refl (λ c l h. ground arith)

split-encoded :
    (salt key : Text)
    → split b'$' (encoded salt key)
      ≡ []
        ∷ codes "argon2id"
        ∷ codes "v=19"
        ∷ codes "m=65536,t=1,p=4"
        ∷ encode std salt
        ∷ encode std key
        ∷ []
unfolding encoded split
split-encoded salt key = rw (
  split-append b'$' (encode std salt) (encode std key) (plain_text salt),
  split_none b'$' (encode std key) (plain_text key),
)

std-decode : (s : Text) → IsBytes s → decode std (encode std s) ≡ some s
std-decode s b = decode-encode std std-IsDistinct refl refl s b

scanned :
    scan_params (codes "m=65536,t=1,p=4") ≡ some (record { memory = 65536; time = 1; threads = 4 })
unfolding scan_params
scanned = refl

-- `Verify` of a made hash derives a key with the parameters of the hash, and compares it.
verify-encoded :
    (lib : Argon) (plain salt key : Text)
    → IsBytes salt
    → IsBytes key
    → verify lib plain (encoded salt key)
      ≡ compared key (lib.id_key plain salt argon_time argon_memory argon_threads (length key))
unfolding verify check_parts
verify-encoded lib plain salt key hs hk =
    rw (split-encoded salt key, scanned, std-decode salt hs, std-decode key hk)

-- A password library: its keys are bytes, as many as asked for.
abbrev pub DerivesBytes : Argon → Type 0
DerivesBytes lib =
    (plain salt : Text) (t m p n : ℕ) (key : Text)
    → lib.id_key plain salt t m p n ≡ some key
    → IsBytes key × (length key ≡ n)

-- The key that `Hash` derives.
abbrev pub key_of : Argon → Text → Text → Option Text
key_of lib salt plain = lib.id_key plain salt argon_time argon_memory argon_threads argon_key_len

compared_iff :
    (want : Text) (o : Option Text) → (compared want o ≡ Result.accepted) ↔ (o ≡ some want)
compared_iff want none = (λ h. cc h, λ h. cc h)
compared_iff want (some got) =
    (λ h. ground (arith, text_eq_sound got want), λ h. ground (arith, text_eq_refl want))

-- The hash of a password is accepted for exactly those passwords from which Argon2id derives the
-- same key under its salt, the password itself among them. This takes that the salt is bytes, and
-- that the derived keys are bytes, as many as asked for.
pub verify-hash :
    (lib : Argon) (salt plain text : Text)
    → DerivesBytes lib
    → IsBytes salt
    → hash lib (some salt) plain ≡ some text
    → (verify lib plain text ≡ Result.accepted)
      × ((q : Text)
          → (verify lib q text ≡ Result.accepted) ↔ (key_of lib salt q ≡ key_of lib salt plain))
unfolding hash
verify-hash lib salt plain text keyed bytes made = elim (Option-cases (key_of lib salt plain)) [
  | inl q ↦ absurd (cc (rw q at made))
  | inr (key, q) ↦
      let (hk, hl) = keyed _ _ _ _ _ _ key q in
      let same : encoded salt key ≡ text = some_only (rw q at made) in
      let judged : (p : Text) → verify lib p text ≡ compared key (key_of lib salt p) = λ p.
        ap (verify lib p) (sym same)
        ∙ verify-encoded lib p salt key bytes hk
        ∙ ap (λ n. compared key (lib.id_key p salt argon_time argon_memory argon_threads n)) hl in
      (
        judged plain ∙ (compared_iff key _).1 q,
        λ p. (
          λ h. (compared_iff key _).0 (sym (judged p) ∙ h) ∙ sym q,
          λ h. judged p ∙ (compared_iff key _).1 (h ∙ q),
        ),
      )
]
  where
    some_only : {a b : Text} → some a ≡ some b → a ≡ b
    some_only z = cc
