-- ===== src/Admin/Keys/Shared.antt =====
-- The secrets that the console seals with the master key, and that the other parts open
-- (server/internal/secret/secret.go).
use wsms_gateway.Base.{◌<◌, ◌≡◌, sym, ◌∙◌, Option, some, length, false}
use wsms_gateway.Models.Records.{Text, is_empty}
use wsms_gateway.Secret.Sealed.{Aead, seal, open_blob, open_blob-seal}
use wsms_gateway.Admin.Console.{ConsoleEnv}

-- The console seals with the master key under a nonce, and `opener` opens with the master key; AES-GCM
-- opens what it sealed.
pub record SharesKey (e : ConsoleEnv) (opener : Text → Option Text) (lib : Aead)
    (master nonce : Text) : Type 0 where
  pub seals : (p : Text) → e.seal p ≡ seal lib master (some nonce) p
  pub opens : (b : Text) → opener b ≡ open_blob lib master b
  pub inverse : (n p : Text) → lib.open_text master n (lib.seal_text master n p) ≡ some p
  pub sized : length nonce ≡ lib.nonce_size
  pub filled : 0 < lib.nonce_size

pub opened-sealed :
    (e : ConsoleEnv) (opener : Text → Option Text) (lib : Aead) (master nonce : Text)
    → SharesKey e opener lib master nonce
    → (plain blob : Text) → e.seal plain ≡ some blob
    → (opener blob ≡ some plain) × (is_empty blob ≡ false)
opened-sealed e opener lib master nonce shares plain blob sealed =
    let (opened, filled) =
      open_blob-seal lib master nonce plain blob shares.inverse shares.sized shares.filled
        (sym (shares.seals plain) ∙ sealed) in
    (shares.opens blob ∙ opened, filled)
