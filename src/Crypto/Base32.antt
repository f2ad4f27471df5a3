-- ===== src/Crypto/Base32.antt =====
-- base32Encode and base32Decode (src/crypto.ts), with texts as lists of characters.
use Prim.Native.Char.{Char, code}
use absolute_auth.Prelude.{
  ℕ, suc, ◌%◌, String, Bool, ◌&&◌, ◌||◌, Option, none, some, List, [], ◌∷◌, map, ◌==◌, nat_eq, leb,
  if◌then◌else◌, get_elem?, filter,
}
use absolute_auth.Crypto.{to_bits, from_bits, join, octets, groups, pad_end}

-- [...text]
unfoldable pub chars : String → List Char
chars String.[] = []
chars (String.◌∷◌ c cs) = c ∷ chars cs

-- cs.join('')
unfoldable pub text : List Char → String
text [] = String.[]
text (c ∷ cs) = String.◌∷◌ c (text cs)

-- BASE32_ALPHABET
unfoldable pub alphabet : List Char
unfolding chars
alphabet = chars "ABCDEFGHIJKLMNOPQRSTUVWXYZ234567"

same : Char → Char → Bool
same c d = code c == code d

-- [A-Z2-7]
unfoldable pub is_base32 : Char → Bool
is_base32 c = (leb 65 (code c) && leb (code c) 90) || (leb 50 (code c) && leb (code c) 55)

-- alphabet.indexOf(c)
unfoldable pub index_of : Char → List Char → Option ℕ
unfolding same
index_of c [] = none
index_of c (d ∷ ds) =
    if same d c then some 0 else elim (index_of c ds) [ none ↦ none | some i ↦ some (suc i) ]

-- The five binary digits of a character of the alphabet; no other passes the filter.
unfoldable pub char_bits : Char → List Bool
unfolding index_of alphabet to_bits
char_bits c = elim (index_of c alphabet) [ none ↦ [] | some i ↦ to_bits 5 i ]

-- BASE32_ALPHABET[n] ?? ''
unfoldable pub letter : ℕ → List Char
unfolding alphabet
letter n = elim (get_elem? alphabet n) [ none ↦ [] | some c ↦ c ∷ [] ]

-- The letter of one group of up to five binary digits.
unfoldable pub group_letter : List Bool → List Char
unfolding letter from_bits pad_end
group_letter g = letter (from_bits (pad_end g) % 32)

unfoldable pub base32_encode : List ℕ → String
unfolding group_letter text join groups to_bits
base32_encode bytes = text (join (map group_letter (groups (join (map (to_bits 8) bytes)))))

-- toUpperCase is the runtime's.
unfoldable pub base32_decode : (String → String) → String → List ℕ
unfolding chars is_base32 char_bits join octets from_bits
base32_decode to_upper_case encoded =
    let normalized = filter is_base32 (chars (to_upper_case encoded)) in
    map from_bits (octets (join (map char_bits normalized)))
