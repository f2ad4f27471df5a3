-- ===== src/Crypto.antt =====
-- One-time codes and the encodings that they rest on (src/crypto.ts).
pub mod Base32
pub mod Laws
pub mod Totp
pub mod Window
mod Tests
use absolute_auth.Prelude.{
  ℕ, zero, suc, ◌+◌, ◌-◌, ◌*◌, ◌/◌, ◌%◌, ◌^◌, String, Bool, true, false, ◌||◌, Option, none, some,
  List, [], ◌∷◌, ◌++◌, map, ◌==◌, nat_eq, string_eq, if◌then◌else◌, length, get_elem?,
}

-- A binary digit string, most significant first: n.toString(2).padStart(width, '0').
unfoldable pub to_bits : ℕ → ℕ → List Bool
to_bits zero n = []
to_bits (suc width) n = (n / 2 ^ width % 2 == 1) ∷ to_bits width n

unfoldable pub bits_from : ℕ → List Bool → ℕ
bits_from acc [] = acc
bits_from acc (b ∷ bs) = bits_from (2 * acc + (if b then 1 else 0)) bs

-- parseInt(bits, 2)
unfoldable pub from_bits : List Bool → ℕ
unfolding bits_from
from_bits bs = bits_from 0 bs

-- [...].join('')
unfoldable pub join {ℓ} : {A : Type ℓ} → List (List A) → List A
join [] = []
join (xs ∷ xss) = xs ++ join xss

-- bits.match(/.{8}/gu) ?? []
unfoldable pub octets : List Bool → List (List Bool)
octets (a ∷ b ∷ c ∷ d ∷ e ∷ f ∷ g ∷ h ∷ bs) = (a ∷ b ∷ c ∷ d ∷ e ∷ f ∷ g ∷ h ∷ []) ∷ octets bs
octets _ = []

-- bits.match(/.{1,5}/gu) ?? []
unfoldable pub groups : List Bool → List (List Bool)
groups [] = []
groups (a ∷ b ∷ c ∷ d ∷ e ∷ bs) = (a ∷ b ∷ c ∷ d ∷ e ∷ []) ∷ groups bs
groups bs = bs ∷ []

-- group.padEnd(5, '0')
unfoldable pub pad_end : List Bool → List Bool
pad_end [] = false ∷ false ∷ false ∷ false ∷ false ∷ []
pad_end (a ∷ []) = a ∷ false ∷ false ∷ false ∷ false ∷ []
pad_end (a ∷ b ∷ []) = a ∷ b ∷ false ∷ false ∷ false ∷ []
pad_end (a ∷ b ∷ c ∷ []) = a ∷ b ∷ c ∷ false ∷ false ∷ []
pad_end (a ∷ b ∷ c ∷ d ∷ []) = a ∷ b ∷ c ∷ d ∷ false ∷ []
pad_end (a ∷ b ∷ c ∷ d ∷ e ∷ bs) = a ∷ b ∷ c ∷ d ∷ e ∷ bs
