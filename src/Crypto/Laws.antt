-- ===== src/Crypto/Laws.antt =====
-- base32 text decodes to the bytes that it encodes (src/crypto.ts).
use Prim.Native.Char.{Char}
use absolute_auth.Prelude.{
  ℕ, zero, suc, ◌<◌, String, Bool, true, false, ◌&&◌, ◌≡◌, refl, ap, sym, ◌∙◌, List, [], ◌∷◌, ◌++◌,
  map, ◌==◌, nat_eq, filter, length, All, arith, nat_beq_iff,
}
use absolute_auth.Crypto.{to_bits, from_bits, join, octets, groups, pad_end}
use absolute_auth.Crypto.Base32.{
  chars, text, is_base32, char_bits, group_letter, base32_encode, base32_decode,
}

same_bits : List Bool → List Bool → Bool
same_bits [] [] = true
same_bits (true ∷ xs) (true ∷ ys) = same_bits xs ys
same_bits (false ∷ xs) (false ∷ ys) = same_bits xs ys
same_bits _ _ = false

same_bits_sound : (xs ys : List Bool) → same_bits xs ys ≡ true → xs ≡ ys
unfolding same_bits
same_bits_sound [] [] h = refl
same_bits_sound [] (y ∷ ys) h = ground (arith, h)
same_bits_sound (true ∷ xs) [] h = ground (arith, h)
same_bits_sound (false ∷ xs) [] h = ground (arith, h)
same_bits_sound (true ∷ xs) (true ∷ ys) h = ap (λ z. true ∷ z) (same_bits_sound xs ys h)
same_bits_sound (true ∷ xs) (false ∷ ys) h = ground (arith, h)
same_bits_sound (false ∷ xs) (true ∷ ys) h = ground (arith, h)
same_bits_sound (false ∷ xs) (false ∷ ys) h = ap (λ z. false ∷ z) (same_bits_sound xs ys h)

abbrev every : (Bool → Bool) → Bool
every p = p true && p false

every_at : (p : Bool → Bool) (b : Bool) → every p ≡ true → p b ≡ true
every_at p true h = ground (arith, h)
every_at p false h = ground (arith, h)

-- The digits that characters stand for.
abbrev digits : List Char → List Bool
digits cs = join (map char_bits cs)

abbrev all_base32 : List Char → Bool
all_base32 [] = true
all_base32 (c ∷ cs) = is_base32 c && all_base32 cs

-- A letter stands for the five binary digits that it was made from, and passes the filter.
abbrev fits : Bool → Bool → Bool → Bool → Bool → Bool
fits a b c d e =
    let g = a ∷ b ∷ c ∷ d ∷ e ∷ [] in
    same_bits (digits (group_letter g)) g && all_base32 (group_letter g)

abbrev fits_from_3 : Bool → Bool → Bool → Bool
fits_from_3 a b c = every (λ d. every (fits a b c d))

abbrev fits_from_1 : Bool → Bool
fits_from_1 a = every (λ b. every (fits_from_3 a b))

letter_table : every fits_from_1 ≡ true
unfolding join char_bits group_letter same_bits is_base32
letter_table = refl

letter_fits : (a b c d e : Bool) → fits a b c d e ≡ true
letter_fits a b c d e = every_at (fits a b c d) e (
    every_at (λ d. every (fits a b c d)) d
      (every_at (fits_from_3 a b) c
        (every_at (λ b. every (fits_from_3 a b)) b (every_at fits_from_1 a letter_table))))

module _ (a b c d e : Bool) where
  abbrev group : List Bool
  group = a ∷ b ∷ c ∷ d ∷ e ∷ []

  digits-group_letter : digits (group_letter group) ≡ group
  digits-group_letter =
      same_bits_sound (digits (group_letter group)) group (ground (arith, letter_fits a b c d e))

  group_letter-base32 : all_base32 (group_letter group) ≡ true
  group_letter-base32 = ground (arith, letter_fits a b c d e)

append_assoc : (xs ys zs : List Bool) → (xs ++ ys) ++ zs ≡ xs ++ (ys ++ zs)
append_assoc [] ys zs = refl
append_assoc (x ∷ xs) ys zs = ap (λ z. x ∷ z) (append_assoc xs ys zs)

digits-append : (cs ds : List Char) → digits (cs ++ ds) ≡ digits cs ++ digits ds
unfolding join
digits-append [] ds = refl
digits-append (c ∷ cs) ds =
    ap (λ z. char_bits c ++ z) (digits-append cs ds)
    ∙ sym (append_assoc (char_bits c) (digits cs) (digits ds))

all_base32-append :
    (cs ds : List Char) → all_base32 cs ≡ true → all_base32 ds ≡ true → all_base32 (cs ++ ds) ≡ true
all_base32-append [] ds h k = k
all_base32-append (c ∷ cs) ds h k = ground (arith, all_base32-append cs ds)

module _ (a b c d e : Bool) where
  digits-block :
      (cs : List Char) (bs : List Bool)
      → digits cs ≡ bs
      → digits (group_letter (group a b c d e) ++ cs) ≡ a ∷ b ∷ c ∷ d ∷ e ∷ bs
  digits-block cs bs h =
      digits-append (group_letter (group a b c d e)) cs ∙ rw (digits-group_letter a b c d e, h) refl

  block-base32 :
      (cs : List Char)
      → all_base32 cs ≡ true
      → all_base32 (group_letter (group a b c d e) ++ cs) ≡ true
  block-base32 cs h =
      all_base32-append (group_letter (group a b c d e)) cs (group_letter-base32 a b c d e) h

abbrev letters : List Bool → List Char
letters bs = join (map group_letter (groups bs))

-- The digits of the letters of a digit string are that string and up to four zeros.
Padded : List Bool → Type 0
Padded bs = (z : List Bool) × ((length z < 5) × (digits (letters bs) ≡ bs ++ z))

letters-Padded : (bs : List Bool) → Padded bs × (all_base32 (letters bs) ≡ true)
unfolding Padded join groups group_letter pad_end
letters-Padded [] = (([], (omega arith, refl)), refl)
letters-Padded (a ∷ []) = (
  (
    false ∷ false ∷ false ∷ false ∷ [],
    (omega arith, digits-block a false false false false [] [] refl),
  ),
  block-base32 a false false false false [] refl,
)
letters-Padded (a ∷ b ∷ []) = (
  (false ∷ false ∷ false ∷ [], (omega arith, digits-block a b false false false [] [] refl)),
  block-base32 a b false false false [] refl,
)
letters-Padded (a ∷ b ∷ c ∷ []) = (
  (false ∷ false ∷ [], (omega arith, digits-block a b c false false [] [] refl)),
  block-base32 a b c false false [] refl,
)
letters-Padded (a ∷ b ∷ c ∷ d ∷ []) = (
  (false ∷ [], (omega arith, digits-block a b c d false [] [] refl)),
  block-base32 a b c d false [] refl,
)
letters-Padded (a ∷ b ∷ c ∷ d ∷ e ∷ bs) =
    let ((z, (short, same)), base) = letters-Padded bs in
    (
      (z, (short, digits-block a b c d e (letters bs) (bs ++ z) same)),
      block-base32 a b c d e (letters bs) base,
    )

-- Eight digits of a byte give the byte back.
abbrev byte_fits : ℕ → Bool
byte_fits n = from_bits (to_bits 8 n) == n

unfoldable pub all_below : ℕ → (ℕ → Bool) → Bool
all_below zero p = true
all_below (suc n) p = p n && all_below n p

pub all_below_sound : (n : ℕ) (p : ℕ → Bool) (x : ℕ) → all_below n p ≡ true → x < n → p x ≡ true
unfolding all_below
all_below_sound zero p x h l = absurd (omega arith)
all_below_sound (suc n) p x h l = ground (arith, all_below_sound n p x)

byte_table : all_below 256 byte_fits ≡ true
unfolding all_below from_bits to_bits
byte_table = refl

from_bits-to_bits : (n : ℕ) → n < 256 → from_bits (to_bits 8 n) ≡ n
from_bits-to_bits n h = (nat_beq_iff _ n).0 (all_below_sound 256 byte_fits n byte_table h)

octets-short : (z : List Bool) → length z < 5 → octets z ≡ []
unfolding octets
octets-short [] h = refl
octets-short (a ∷ []) h = refl
octets-short (a ∷ b ∷ []) h = refl
octets-short (a ∷ b ∷ c ∷ []) h = refl
octets-short (a ∷ b ∷ c ∷ d ∷ []) h = refl
octets-short (a ∷ b ∷ c ∷ d ∷ e ∷ z) h = absurd (omega arith)

-- The bytes of their digits, with a short rest after them.
octets-join :
    (bytes : List ℕ) (z : List Bool)
    → All (λ n. n < 256) bytes
    → length z < 5
    → map from_bits (octets (join (map (to_bits 8) bytes) ++ z)) ≡ bytes
unfolding octets join to_bits
octets-join [] z h short = rw (octets-short z short) refl
octets-join (n ∷ bytes) z h short =
    ap (λ y. y ∷ map from_bits (octets (join (map (to_bits 8) bytes) ++ z)))
      (from_bits-to_bits n h.0)
    ∙ ap (λ ys. n ∷ ys) (octets-join bytes z h.1 short)

chars-text : (cs : List Char) → chars (text cs) ≡ cs
unfolding chars text
chars-text [] = refl
chars-text (c ∷ cs) = ap (λ z. c ∷ z) (chars-text cs)

filter-base32 : (cs : List Char) → all_base32 cs ≡ true → filter is_base32 cs ≡ cs
filter-base32 [] h = refl
filter-base32 (c ∷ cs) h = ground (arith, filter-base32 cs)

-- Decoding the base32 text of any bytes returns them, where toUpperCase leaves a text of the
-- alphabet's letters and digits alone.
pub base32_decode-base32_encode :
    (to_upper_case : String → String)
    → ((t : String) → all_base32 (chars t) ≡ true → to_upper_case t ≡ t)
    → (bytes : List ℕ) → All (λ n. n < 256) bytes
    → base32_decode to_upper_case (base32_encode bytes) ≡ bytes
unfolding base32_decode base32_encode Padded
base32_decode-base32_encode up keeps bytes h =
    let bs = join (map (to_bits 8) bytes) in
    let ((z, (short, same)), base) = letters-Padded bs in
    rw
      (
        keeps (text (letters bs)) (rw (chars-text (letters bs)) base),
        chars-text (letters bs),
        filter-base32 (letters bs) base,
        same,
      )
      (octets-join bytes z h short)
