-- ===== src/Crypto/Totp.antt =====
-- hashToken, generateHotp, verifyTotp and constantTimeEqual (src/crypto.ts). HMAC-SHA-1, SHA-256, base64url
-- and toUpperCase are the runtime's.
use Prim.Native.Nat.{bit_xor, bit_or}
use Prim.Native.Char.{Char}
use absolute_auth.Prelude.{
  ℕ, zero, suc, ◌+◌, ◌-◌, ◌*◌, ◌/◌, ◌%◌, ◌^◌, String, Bool, none, some, List, [], ◌∷◌, ◌++◌, map,
  ◌==◌, nat_eq, get_elem?, any, length,
}
use absolute_auth.Crypto.Base32.{chars, text, base32_decode}

pub record Runtime : Type 0 where
  pub hmac_sha1 : List ℕ → List ℕ → List ℕ
  pub sha256 : String → List ℕ
  pub to_upper_case : String → String
  pub base64url : List ℕ → String

unfoldable pub hash_token : Runtime → String → String
hash_token runtime token = runtime.base64url (runtime.sha256 token)

-- bytes[i], in range wherever the code reads it
unfoldable pub byte_at : List ℕ → ℕ → ℕ
byte_at bytes i = elim (get_elem? bytes i) [ none ↦ 0 | some b ↦ b ]

-- A 64-bit word, most significant byte first (setBigUint64).
unfoldable pub counter_to_bytes : ℕ → List ℕ
counter_to_bytes counter =
    counter / 2 ^ 56 % 256
    ∷ counter / 2 ^ 48 % 256
    ∷ counter / 2 ^ 40 % 256
    ∷ counter / 2 ^ 32 % 256
    ∷ counter / 2 ^ 24 % 256
    ∷ counter / 2 ^ 16 % 256
    ∷ counter / 2 ^ 8 % 256
    ∷ counter % 256
    ∷ []

unfoldable pub get_uint32 : List ℕ → ℕ → ℕ
unfolding byte_at
get_uint32 bytes i =
    byte_at bytes i * 2 ^ 24
    + byte_at bytes (i + 1) * 2 ^ 16
    + byte_at bytes (i + 2) * 2 ^ 8
    + byte_at bytes (i + 3)

digit : ℕ → List Char
unfolding chars
digit n = elim (get_elem? (chars "0123456789") n) [ none ↦ [] | some c ↦ c ∷ [] ]

-- n.toString().padStart(digits, '0') of a number below 10 ^ digits
unfoldable pub decimal : ℕ → ℕ → List Char
unfolding digit
decimal zero n = []
decimal (suc digits) n = digit (n / 10 ^ digits % 10) ++ decimal digits n

unfoldable pub generate_hotp : Runtime → List ℕ → ℕ → ℕ → String
unfolding counter_to_bytes get_uint32 byte_at decimal text
generate_hotp runtime secret counter digits =
    let hmac = runtime.hmac_sha1 secret (counter_to_bytes counter) in
    let offset = byte_at hmac (length hmac - 1) % 16 in
    let truncated = get_uint32 hmac offset % 2 ^ 31 in
    text (decimal digits (truncated % 10 ^ digits))

-- mismatch |= left[i] ^ right[i], over the bytes of the left digest
unfoldable pub mismatch_from : ℕ → List ℕ → List ℕ → ℕ
mismatch_from mismatch [] rs = mismatch
mismatch_from mismatch (l ∷ ls) [] = mismatch_from (bit_or mismatch l) ls []
mismatch_from mismatch (l ∷ ls) (r ∷ rs) = mismatch_from (bit_or mismatch (bit_xor l r)) ls rs

unfoldable pub constant_time_equal : Runtime → String → String → Bool
unfolding mismatch_from
constant_time_equal runtime left right =
    mismatch_from 0 (runtime.sha256 left) (runtime.sha256 right) == 0

-- counter - window + offset, as the 64-bit word that counterToBytes writes
unfoldable pub drift : ℕ → ℕ → ℕ → ℕ
drift counter window offset = (2 ^ 64 + counter + offset - window) % 2 ^ 64

-- Array.from({ length: n }, (_, offset) => offset), from a first offset
unfoldable pub offsets_from : ℕ → ℕ → List ℕ
offsets_from first zero = []
offsets_from first (suc n) = first ∷ offsets_from (first + 1) n

unfoldable pub counter_at : ℕ → ℕ → ℕ
counter_at now period = now / 1000 / period

unfoldable pub verify_totp : Runtime → ℕ → ℕ → ℕ → String → String → ℕ → Bool
unfolding base32_decode counter_at offsets_from drift generate_hotp constant_time_equal
verify_totp runtime digits now period secret token window =
    let secret_bytes = base32_decode runtime.to_upper_case secret in
    let counter = counter_at now period in
    let drifts = map (drift counter window) (offsets_from 0 (window * 2 + 1)) in
    let candidates = map (λ value. generate_hotp runtime secret_bytes value digits) drifts in
    any (λ candidate. constant_time_equal runtime candidate token) candidates
