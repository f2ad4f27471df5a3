-- ===== src/Crypto/Tests.antt =====
-- Runs of the encodings and of a TOTP check.
use Prim.Native.Char.{Char, code}
use absolute_auth.Prelude.{ℕ, ◌+◌, ◌%◌, ◌≡◌, ◌≤◌, ◌↔◌, true, List, [], ◌∷◌, refl, arith}
use absolute_auth.Crypto.Base32.{chars, base32_encode, base32_decode}
use absolute_auth.Crypto.Laws.{base32_decode-base32_encode}
use absolute_auth.Crypto.Totp.{Runtime, verify_totp, generate_hotp}
use absolute_auth.Crypto.Window.{IsDigest, verify_totp_iff}

rfc4648 : base32_encode (102 ∷ 111 ∷ 111 ∷ []) ≡ "MZXW6"
unfolding base32_encode
rfc4648 = refl

base32_decode-base32_encode_example :
    base32_decode (λ t. t) (base32_encode (102 ∷ 111 ∷ 111 ∷ [])) ≡ 102 ∷ 111 ∷ 111 ∷ []
base32_decode-base32_encode_example =
    base32_decode-base32_encode (λ t. t) (λ t h. refl) (102 ∷ 111 ∷ 111 ∷ [])
      (omega arith, (omega arith, (omega arith, tt)))

total : List Char → ℕ
total [] = 0
total (c ∷ cs) = code c + total cs

-- A digest of one byte, and an HMAC that is the counter's last byte over a fixed text.
abbrev runtime : Runtime
runtime = record {
  hmac_sha1 = λ key message. 0 ∷ 0 ∷ 1 ∷ 2 ∷ 3 ∷ message;
  sha256 = λ t. total (chars t) % 256 ∷ [];
  to_upper_case = λ t. t;
  base64url = λ b. "digest";
}

runtime-IsDigest : IsDigest runtime.sha256
runtime-IsDigest = record { bytes = λ t. (omega arith, tt); size = λ t u. refl }

verify_totp_iff_example : (verify_totp runtime 6 60000 30 "MZXW6" "000258" 1 ≡ true) ↔ (
    (step : ℕ) × (2 ≤ step + 1)
    × (step ≤ 3)
    × (runtime.sha256 (generate_hotp runtime (base32_decode (λ t. t) "MZXW6") step 6)
        ≡ runtime.sha256 "000258"))
verify_totp_iff_example =
    verify_totp_iff runtime 6 60000 30 "MZXW6" "000258" 1 runtime-IsDigest (omega arith)
      (omega arith)
