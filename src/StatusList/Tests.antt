-- ===== src/StatusList/Tests.antt =====
-- A list of sixteen statuses.
use absolute_auth.Prelude.{◌%◌, ◌≡◌, ◌≤◌, ◌<◌, refl, true, false, none, some, [], ◌∷◌}
use absolute_auth.StatusList.{
  StatusListBits, create_status_list, get_credential_status, set_credential_status,
}
use absolute_auth.StatusList.Laws.{Table, Represents, write, create-Represents, status_list_refines}

set_nine : set_credential_status (0 ∷ 0 ∷ []) 9 true ≡ some (0 ∷ 2 ∷ [])
unfolding set_credential_status
set_nine = refl

read_nine : get_credential_status (0 ∷ 2 ∷ []) 9 ≡ some true
unfolding get_credential_status
read_nine = refl

abbrev clear : Table
clear = record { size = 16; status = λ j. false }

status_list_refines_example :
    (16 % 8 ≡ 0
      → (fresh : StatusListBits) × (create_status_list 16 ≡ some fresh)
        × Represents fresh (record { size = 16; status = λ j. false }))
    × (0 < 16 % 8 → create_status_list 16 ≡ none)
    × (9 < 16
        → (next : StatusListBits) × (set_credential_status (0 ∷ 0 ∷ []) 9 true ≡ some next)
          × Represents next (write 9 true clear))
    × (16 ≤ 9 → set_credential_status (0 ∷ 0 ∷ []) 9 true ≡ none)
status_list_refines_example =
    status_list_refines (0 ∷ 0 ∷ []) clear 9 true 16 (create-Represents 16 refl)
