-- ===== src/Grants/Maps.antt =====
-- The order of byte strings, and a BTreeMap with such keys as the list of its entries in order.
use roammand.Base.{
  Bool, true, false, Option, none, some, List, [], ◌∷◌, Bytes, bytes_eq, ltb, ◌==◌, if◌then◌else◌,
}

-- `<` on slices of u8
unfoldable pub bytes_lt : Bytes → Bytes → Bool
bytes_lt [] [] = false
bytes_lt [] (y ∷ ys) = true
bytes_lt (x ∷ xs) [] = false
bytes_lt (x ∷ xs) (y ∷ ys) =
    let rest = bytes_lt xs ys in if ltb x y then true else if x == y then rest else false

module _ {ℓ} {A : Type ℓ} where
  unfoldable pub get : Bytes → List (Bytes × A) → Option A
  get key [] = none
  get key ((k, a) ∷ map) = let rest = get key map in if bytes_eq key k then some a else rest

  unfoldable pub insert : Bytes → A → List (Bytes × A) → List (Bytes × A)
  insert key a [] = (key, a) ∷ []
  insert key a ((k, b) ∷ map) =
      let rest = insert key a map in
      if bytes_eq key k
      then (key, a) ∷ map
      else if bytes_lt key k
      then (key, a) ∷ (k, b) ∷ map
      else (k, b) ∷ rest

  unfoldable pub remove : Bytes → List (Bytes × A) → List (Bytes × A)
  remove key [] = []
  remove key ((k, a) ∷ map) =
      let rest = remove key map in if bytes_eq key k then map else (k, a) ∷ rest

  unfoldable pub values : List (Bytes × A) → List A
  values [] = []
  values ((k, a) ∷ map) = a ∷ values map
