-- ===== src/StatusList.antt =====
-- The bitmap of a status list: createStatusList, getCredentialStatus and setCredentialStatus
-- (src/vc/statusList.ts). A Uint8Array is a list of numbers below 256; a thrown error is none.
pub mod Laws
mod Tests
use Prim.Native.Nat.{bit_and, bit_or, bit_xor}
use absolute_auth.Prelude.{
  ℕ, ◌/◌, ◌%◌, ◌*◌, ◌^◌, Bool, true, false, Option, none, some, List, ◌==◌, nat_eq, ltb, leb,
  if◌then◌else◌, length, get_elem?, set, replicate,
}

abbrev pub StatusListBits : Type 0
StatusListBits = List ℕ

unfoldable pub create_status_list : ℕ → Option StatusListBits
create_status_list size = if size % 8 == 0 then some (replicate (size / 8) 0) else none

-- bits[byteIndex] ?? 0
unfoldable pub byte_or_zero : Option ℕ → ℕ
byte_or_zero none = 0
byte_or_zero (some byte) = byte

-- ((byte >> bitIndex) & 1) === 1
unfoldable pub bit_at : ℕ → ℕ → Bool
bit_at byte bit_index = bit_and (byte / 2 ^ bit_index) 1 == 1

-- The status 1 is true and 0 is false.
unfoldable pub get_credential_status : StatusListBits → ℕ → Option Bool
unfolding byte_or_zero bit_at
get_credential_status bits idx =
    if leb (length bits) (idx / 8)
    then none
    else some (bit_at (byte_or_zero (get_elem? bits (idx / 8))) (idx % 8))

-- The byte with the bit set or cleared.
unfoldable pub next_byte : ℕ → ℕ → Bool → ℕ
next_byte current bit_index value =
    if value
    then bit_or current (1 * 2 ^ bit_index)
    else bit_and current (bit_xor 255 (1 * 2 ^ bit_index))

unfoldable pub set_credential_status : StatusListBits → ℕ → Bool → Option StatusListBits
unfolding byte_or_zero next_byte
set_credential_status bits idx value =
    if leb (length bits) (idx / 8)
    then none
    else some (
        set bits (idx / 8)
          (next_byte (byte_or_zero (get_elem? bits (idx / 8))) (idx % 8) value % 256))
