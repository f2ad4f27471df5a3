-- ===== src/Prelude/Arrays.antt =====
-- `new Set(list)`, `list.includes` and the stable sort of `Array.prototype.sort`.
use Prim.Native.Nat.{ℕ}
use Prim.Native.String.{String}
use mathlib.Core.Bool.{Bool, false, ◌||◌}
use mathlib.Core.List.{List, [], ◌∷◌, ◌++◌}
use absolute_auth.Prelude.Tests.{if◌then◌else◌, leb, ◌==◌, string_eq}

-- xs.includes(x), set.has(x)
unfoldable pub includes : String → List String → Bool
includes x [] = false
includes x (y ∷ ys) = y == x || includes x ys

-- [...set.add(x)]: a set keeps the order of first insertion.
unfoldable pub add : String → List String → List String
unfolding includes
add x s = if includes x s then s else s ++ x ∷ []

unfoldable pub unique_from : List String → List String → List String
unique_from s [] = s
unique_from s (x ∷ xs) = unique_from (add x s) xs

-- [...new Set(xs)]
unfoldable pub unique : List String → List String
unfolding unique_from add
unique xs = unique_from [] xs

-- xs.sort((left, right) => key(right) - key(left)): descending and stable.
unfoldable pub insert_descending {ℓ} : {A : Type ℓ} → (A → ℕ) → A → List A → List A
insert_descending key x [] = x ∷ []
insert_descending key x (y ∷ ys) =
    if leb (key y) (key x) then x ∷ y ∷ ys else y ∷ insert_descending key x ys

unfoldable pub sort_descending {ℓ} : {A : Type ℓ} → (A → ℕ) → List A → List A
unfolding insert_descending
sort_descending key [] = []
sort_descending key (x ∷ xs) = insert_descending key x (sort_descending key xs)
