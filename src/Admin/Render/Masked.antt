-- ===== src/Admin/Render/Masked.antt =====
-- What maskMSISDN (server/internal/admin/render.go) hides of the numbers that NormalizeMSISDN
-- (server/internal/router/operator.go) accepts.
use wsms_gateway.Base.{
  ℕ, zero, suc, ◌+◌, ◌-◌, ◌≤◌, ◌≡◌, refl, sym, ap, ◌∙◌, some, [], ◌∷◌, ◌++◌, arith, leb, length,
  false,
}
use wsms_gateway.Models.Records.{Text}
use wsms_gateway.Text.{take, drop}
use wsms_gateway.Router.Msisdn.{normalize_msisdn}
use wsms_gateway.Router.Msisdn.Canonical.{normalize_msisdn_iff}
use wsms_gateway.Admin.Render.{stars, mask_msisdn}

length-stars : (n : ℕ) → length (stars n) ≡ n
length-stars zero = refl
length-stars (suc n) = ground (arith, length-stars n)

length-append : (s t : Text) → length (s ++ t) ≡ length s + length t
length-append [] t = omega arith
length-append (c ∷ s) t = ground (arith, length-append s t)

length-take : (n : ℕ) (s : Text) → n ≤ length s → length (take n s) ≡ n
length-take zero s h = refl
length-take (suc n) [] h = omega (arith, h)
length-take (suc n) (c ∷ s) h = ground (arith, length-take n s)

length-drop : (n : ℕ) (s : Text) → length (drop n s) ≡ length s - n
length-drop zero s = omega arith
length-drop (suc n) [] = omega arith
length-drop (suc n) (c ∷ s) = ground (arith, length-drop n s)

-- A canonical number has at least 11 characters.
long : (raw m : Text) → normalize_msisdn raw ≡ some m → 11 ≤ length m
long raw m h =
    let (ds, v, e, w) = (normalize_msisdn_iff raw m).0 h in rw e (ground (arith, v.at_least))

masked :
    (m : Text)
    → 11 ≤ length m
    → mask_msisdn m ≡ take 5 m ++ (stars (length m - 7) ++ drop (length m - 2) m)
unfolding mask_msisdn
masked m h = let more : leb (length m) 7 ≡ false = ground arith in rw more refl

-- What the page shows of a number.
pub record Masks (m : Text) : Type 0 where
  pub hidden : ℕ
  pub enough : 4 ≤ hidden
  pub shown : mask_msisdn m ≡ take 5 m ++ (stars hidden ++ drop (length m - 2) m)
  pub sized : length (mask_msisdn m) ≡ length m
  pub blind :
      (raw other : Text)
      → normalize_msisdn raw ≡ some other
      → length other ≡ length m
      → take 5 other ≡ take 5 m
      → drop (length m - 2) other ≡ drop (length m - 2) m
      → mask_msisdn other ≡ mask_msisdn m

-- Of each number that NormalizeMSISDN accepts, the console shows the first five and the last two
-- characters and hides the others, which are at least four, behind as many stars; two accepted numbers
-- of one length that agree in those seven characters look the same.
pub normalize_msisdn-Masks : (raw m : Text) → normalize_msisdn raw ≡ some m → Masks m
normalize_msisdn-Masks raw m h =
    let size = long raw m h in
    record {
      hidden = length m - 7;
      enough = omega (arith, size);
      shown = masked m size;
      sized =
          ap length (masked m size)
          ∙ omega (
            arith,
            size,
            length-append (take 5 m) (stars (length m - 7) ++ drop (length m - 2) m),
            length-append (stars (length m - 7)) (drop (length m - 2) m),
            length-stars (length m - 7),
            length-drop (length m - 2) m,
            length-take 5 m (omega (arith, size)),
          );
      blind = λ raw' other k same front back.
          masked other (long raw' other k) ∙ rw (same, front, back) (sym (masked m size));
    }
