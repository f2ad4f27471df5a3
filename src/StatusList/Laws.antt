-- ===== src/StatusList/Laws.antt =====
-- The bitmap refines a table of statuses by index.
use absolute_auth.Prelude.{
  ℕ, zero, suc, ◌*◌, ◌/◌, ◌%◌, ◌≡◌, ◌≤◌, ◌<◌, refl, Bool, true, false, not, none, some, [], ◌∷◌,
  ◌==◌, nat_eq, if◌then◌else◌, length, get_elem?, set, All, arith, replicate,
}
use absolute_auth.Crypto.Laws.{all_below, all_below_sound}
use absolute_auth.StatusList.{
  StatusListBits, byte_or_zero, bit_at, get_credential_status, next_byte, set_credential_status,
  create_status_list,
}

same : Bool → Bool → Bool
same true b = b
same false b = not b

same_sound : (a b : Bool) → same a b ≡ true → a ≡ b
unfolding same
same_sound true true h = refl
same_sound true false h = ground (arith, h)
same_sound false true h = ground (arith, h)
same_sound false false h = refl

-- What a written byte holds, for one byte, bit, other bit and value.
abbrev written : Bool → ℕ → ℕ → ℕ → Bool
written value byte i j =
    same (bit_at (next_byte byte i value % 256) j) (if i == j then value else bit_at byte j)

abbrev table : Bool → Bool
table value = all_below 8 (λ i. all_below 8 (λ j. all_below 256 (λ byte. written value byte i j)))

set_table : table true ≡ true
unfolding all_below same bit_at next_byte
set_table = refl

clear_table : table false ≡ true
unfolding all_below same bit_at next_byte
clear_table = refl

table_holds : (value : Bool) → table value ≡ true
table_holds true = set_table
table_holds false = clear_table

bit_at-next_byte :
    (value : Bool) (byte i j : ℕ)
    → byte < 256
    → i < 8
    → j < 8
    → bit_at (next_byte byte i value % 256) j ≡ (if i == j then value else bit_at byte j)
bit_at-next_byte value byte i j lb li lj =
    same_sound (bit_at (next_byte byte i value % 256) j) (if i == j then value else bit_at byte j) (
      all_below_sound 256 (λ byte. written value byte i j) byte
        (all_below_sound 8 (λ j. all_below 256 (λ byte. written value byte i j)) j
          (all_below_sound 8
            (λ i. all_below 8 (λ j. all_below 256 (λ byte. written value byte i j))) i
            (table_holds value) li)
          lj)
        lb)

abbrev pub IsBytes : StatusListBits → Type 0
IsBytes = All (λ byte. byte < 256)

set-IsBytes : (bits : StatusListBits) (i v : ℕ) → v < 256 → IsBytes bits → IsBytes (set bits i v)
set-IsBytes [] i v l h = tt
set-IsBytes (b ∷ bits) zero v l h = (l, h.1)
set-IsBytes (b ∷ bits) (suc i) v l h = (h.0, set-IsBytes bits i v l h.1)

length-set : (bits : StatusListBits) (i v : ℕ) → length (set bits i v) ≡ length bits
length-set [] i v = refl
length-set (b ∷ bits) zero v = refl
length-set (b ∷ bits) (suc i) v = ground (arith, length-set bits i v)

get_elem?-set :
    (bits : StatusListBits) (i j v : ℕ)
    → i < length bits
    → get_elem? (set bits i v) j ≡ (if i == j then some v else get_elem? bits j)
get_elem?-set [] i j v l = absurd (omega arith)
get_elem?-set (b ∷ bits) zero zero v l = refl
get_elem?-set (b ∷ bits) zero (suc j) v l = ground arith
get_elem?-set (b ∷ bits) (suc i) zero v l = ground arith
get_elem?-set (b ∷ bits) (suc i) (suc j) v l =
    ground (arith, get_elem?-set bits i j v (omega arith))

byte-bound : (bits : StatusListBits) (i : ℕ) → IsBytes bits → byte_or_zero (get_elem? bits i) < 256
unfolding byte_or_zero
byte-bound [] i h = omega arith
byte-bound (b ∷ bits) zero h = h.0
byte-bound (b ∷ bits) (suc i) h = byte-bound bits i h.1

replicate-IsBytes : (n : ℕ) → IsBytes (replicate n 0)
replicate-IsBytes zero = tt
replicate-IsBytes (suc n) = (omega arith, replicate-IsBytes n)

length-replicate : (n : ℕ) → length (replicate {A = ℕ} n 0) ≡ n
length-replicate zero = refl
length-replicate (suc n) = ground (arith, length-replicate n)

byte-replicate : (n i : ℕ) → byte_or_zero (get_elem? (replicate n 0) i) ≡ 0
unfolding byte_or_zero
byte-replicate zero i = refl
byte-replicate (suc n) zero = refl
byte-replicate (suc n) (suc i) = byte-replicate n i

zero_table : all_below 8 (λ j. not (bit_at 0 j)) ≡ true
unfolding all_below bit_at
zero_table = refl

-- A table of statuses, which is what a status list promises: that many indices, and a status at each.
pub record Table : Type 0 where
  pub size : ℕ
  pub status : ℕ → Bool

-- The table with one status written.
abbrev pub write : ℕ → Bool → Table → Table
write idx value t = record t { status = λ j. if idx == j then value else t.status j }

-- The bytes hold the table: each index of it reads as its status, any other as undefined.
pub record Represents (bits : StatusListBits) (t : Table) : Type 0 where
  pub bytes : IsBytes bits
  pub size : length bits * 8 ≡ t.size
  pub reads : (j : ℕ) → j < t.size → get_credential_status bits j ≡ some (t.status j)
  pub outside : (j : ℕ) → t.size ≤ j → get_credential_status bits j ≡ none

set-reads :
    (bits : StatusListBits) (idx j : ℕ) (value : Bool)
    → IsBytes bits
    → idx < length bits * 8
    → j < length bits * 8
    → get_credential_status
        (set bits
          (idx / 8)
          (next_byte (byte_or_zero (get_elem? bits (idx / 8))) (idx % 8) value % 256))
        j
      ≡ (if idx == j then some value else get_credential_status bits j)
unfolding get_credential_status byte_or_zero
set-reads bits idx j value h l k =
    let byte = next_byte (byte_or_zero (get_elem? bits (idx / 8))) (idx % 8) value % 256 in
    ground (
      arith,
      length-set bits (idx / 8) byte,
      get_elem?-set bits (idx / 8) (j / 8) byte (omega arith),
      bit_at-next_byte value (byte_or_zero (get_elem? bits (idx / 8))) (idx % 8) (j % 8)
          (byte-bound bits (idx / 8) h) (omega arith) (omega arith),
    )

set-Represents :
    (bits : StatusListBits) (t : Table) (idx : ℕ) (value : Bool)
    → Represents bits t
    → idx < t.size
    → Represents
        (set bits
          (idx / 8)
          (next_byte (byte_or_zero (get_elem? bits (idx / 8))) (idx % 8) value % 256))
        (write idx value t)
unfolding get_credential_status
set-Represents bits t idx value r l =
    let byte = next_byte (byte_or_zero (get_elem? bits (idx / 8))) (idx % 8) value % 256 in
    let same = length-set bits (idx / 8) byte in
    record {
      bytes = set-IsBytes bits (idx / 8) byte (omega arith) r.bytes;
      size = omega (arith, same, r.size);
      reads = λ j k. ground (
        arith,
        set-reads bits idx j value r.bytes (omega (arith, r.size)) (omega (arith, r.size)),
        r.reads j k,
      );
      outside = λ j k. ground (arith, same, r.size);
    }

pub create-Represents :
    (size : ℕ)
    → size % 8 ≡ 0
    → Represents (replicate (size / 8) 0) (record { size = size; status = λ j. false })
unfolding get_credential_status
create-Represents size e = record {
  bytes = replicate-IsBytes (size / 8);
  size = omega (arith, length-replicate (size / 8));
  reads = λ j k. ground (
    arith,
    length-replicate (size / 8),
    byte-replicate (size / 8) (j / 8),
    all_below_sound 8 (λ j. not (bit_at 0 j)) (j % 8) zero_table (omega arith),
  );
  outside = λ j k. ground (arith, length-replicate (size / 8));
}

-- The bitmap implements a table of statuses. A new list of a multiple of eight is the table of that
-- size with every status clear, and any other size is an error; setting a status inside the table
-- gives bytes that hold the table with that status written and every other as it was; outside it
-- setting is an error.
pub status_list_refines :
    (bits : StatusListBits) (t : Table) (idx : ℕ) (value : Bool) (size : ℕ)
    → Represents bits t
    → (size % 8 ≡ 0
        → (fresh : StatusListBits) × (create_status_list size ≡ some fresh)
          × Represents fresh (record { size = size; status = λ j. false }))
      × (0 < size % 8 → create_status_list size ≡ none)
      × (idx < t.size
          → (next : StatusListBits) × (set_credential_status bits idx value ≡ some next)
            × Represents next (write idx value t))
      × (t.size ≤ idx → set_credential_status bits idx value ≡ none)
unfolding create_status_list set_credential_status
status_list_refines bits t idx value size r = (
  λ e. (replicate (size / 8) 0, ground (arith, e), create-Represents size e),
  λ e. ground (arith, e),
  λ l. (
    set bits (idx / 8) (next_byte (byte_or_zero (get_elem? bits (idx / 8))) (idx % 8) value % 256),
    ground (arith, r.size, l),
    set-Represents bits t idx value r l,
  ),
  λ l. ground (arith, r.size, l),
)
