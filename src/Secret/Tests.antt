-- ===== src/Secret/Tests.antt =====
-- The secrets at small texts.
use wsms_gateway.Base.{ℕ, zero, suc, ◌%◌, ◌≡◌, ◌↔◌, refl, ap, none, some, [], ◌∷◌, length, arith}
use wsms_gateway.Models.Records.{Text}
use wsms_gateway.Text.{codes}
use wsms_gateway.Text.Decimal.{decimal}
use wsms_gateway.Secret.Base64.{std, url, encode, decode}
use wsms_gateway.Secret.Base64.Laws.{IsBytes}
use wsms_gateway.Secret.Password.{Argon, Result, hash, encoded, verify}
use wsms_gateway.Secret.Password.Verdict.{DerivesBytes, key_of, verify-hash}
use wsms_gateway.Secret.Sealed.{Aead, seal, open_blob, open_blob-seal}

encode_foob : encode std (codes "foob") ≡ codes "Zm9vYg"
unfolding encode
encode_foob = refl

encode_url : encode url (0xfb ∷ 0xff ∷ []) ≡ codes "-_8"
unfolding encode
encode_url = refl

decode_broken : decode std (codes "Zm9v\nYg") ≡ some (codes "foob")
unfolding decode
decode_broken = refl

decode_short : decode std (codes "Zm9vY") ≡ none
unfolding decode
decode_short = refl

decimal_memory : decimal 65536 ≡ codes "65536"
unfolding decimal
decimal_memory = refl

-- A key derivation that fits the password to the length.
fit : ℕ → Text → Text
fit zero s = []
fit (suc n) [] = 0 ∷ fit n []
fit (suc n) (c ∷ s) = (c % 256) ∷ fit n s

abbrev toy : Argon
toy = record { id_key = λ plain salt t m p n. some (fit n plain) }

fit-IsBytes : (n : ℕ) (s : Text) → IsBytes (fit n s)
unfolding fit
fit-IsBytes zero s = tt
fit-IsBytes (suc n) [] = (omega arith, fit-IsBytes n [])
fit-IsBytes (suc n) (c ∷ s) = (omega arith, fit-IsBytes n s)

length-fit : (n : ℕ) (s : Text) → length (fit n s) ≡ n
unfolding fit
length-fit zero s = refl
length-fit (suc n) [] = ap suc (length-fit n [])
length-fit (suc n) (c ∷ s) = ap suc (length-fit n s)

toy-DerivesBytes : DerivesBytes toy
toy-DerivesBytes plain salt t m p n key h = ground (arith, fit-IsBytes n plain, length-fit n plain)

abbrev salt_bytes : Text
salt_bytes = 1 ∷ 2 ∷ 255 ∷ []

abbrev made : Text
made = encoded salt_bytes (fit 32 (codes "pw"))

refused_name : verify toy (codes "pw") (codes "$argon2i$v=19$m=65536,t=1,p=4$$") ≡ Result.rejected
unfolding verify
refused_name = refl

verify-hash_example :
    (verify toy (codes "pw") made ≡ Result.accepted)
    × ((q : Text)
        → (verify toy q made ≡ Result.accepted)
          ↔ (key_of toy salt_bytes q ≡ key_of toy salt_bytes (codes "pw")))
unfolding hash
verify-hash_example =
    verify-hash toy salt_bytes (codes "pw") made toy-DerivesBytes (omega arith) refl

-- A cipher that keeps the text.
abbrev pub open_cipher : Aead
open_cipher = record {
  nonce_size = 2;
  seal_text = λ key nonce plain. plain;
  open_text = λ key nonce plain. some plain;
}

abbrev pub master : Text
master = codes "0123456789abcdef0123456789abcdef"

opened : open_blob open_cipher master (codes "nnsecret") ≡ some (codes "secret")
unfolding seal
opened =
    (open_blob-seal open_cipher master (codes "nn") (codes "secret") (codes "nnsecret")
      (λ n p. refl) refl (omega arith) refl).0
