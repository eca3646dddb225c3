-- ===== src/Grants/Sorted.antt =====
-- The map of Grants/Maps.antt keeps its keys in order, each once.
use roammand.Base.{
  suc, ◌≤◌, ◌≡◌, refl, ap, true, false, none, some, List, [], ◌∷◌, ◌++◌, Bytes, bytes_eq,
  bytes_eq_iff, length, Bool-cases, inl, inr, arith,
}
use roammand.Grants.Maps.{bytes_lt, get, insert, remove}

pub bytes_lt_irrefl : (a : Bytes) → bytes_lt a a ≡ false
unfolding bytes_lt
bytes_lt_irrefl [] = refl
bytes_lt_irrefl (x ∷ a) = ground (arith, bytes_lt_irrefl a)

pub bytes_lt_trans :
    (a b c : Bytes) → bytes_lt a b ≡ true → bytes_lt b c ≡ true → bytes_lt a c ≡ true
unfolding bytes_lt
bytes_lt_trans [] b [] p q = absurd (elim b [ [] ↦ ground arith | y ∷ ys ↦ ground arith ])
bytes_lt_trans [] b (z ∷ c) p q = refl
bytes_lt_trans (x ∷ a) [] c p q = absurd (ground arith)
bytes_lt_trans (x ∷ a) (y ∷ b) [] p q = absurd (ground arith)
bytes_lt_trans (x ∷ a) (y ∷ b) (z ∷ c) p q = ground (arith, bytes_lt_trans a b c)

pub bytes_lt_asym : (a b : Bytes) → bytes_lt a b ≡ true → bytes_lt b a ≡ false
bytes_lt_asym a b p = elim (Bool-cases (bytes_lt b a)) [
  | inl q ↦ ground (arith, bytes_lt_trans a b a p q, bytes_lt_irrefl a)
  | inr q ↦ q
]

pub bytes_lt_differ : (a b : Bytes) → bytes_lt a b ≡ true → bytes_eq a b ≡ false
bytes_lt_differ a b p = elim (Bool-cases (bytes_eq a b)) [
  | inl q ↦
      let same = (bytes_eq_iff a b).0 q in
      ground (arith, bytes_lt_irrefl b, ap (λ t. bytes_lt t b) same)
  | inr q ↦ q
]

pub bytes_eq_sym : (a b : Bytes) → bytes_eq a b ≡ bytes_eq b a
unfolding bytes_eq
bytes_eq_sym [] [] = refl
bytes_eq_sym [] (y ∷ b) = refl
bytes_eq_sym (x ∷ a) [] = refl
bytes_eq_sym (x ∷ a) (y ∷ b) = ground (arith, bytes_eq_sym a b)

-- What is neither below nor equal is above.
pub bytes_lt_total :
    (a b : Bytes) → bytes_eq a b ≡ false → bytes_lt a b ≡ false → bytes_lt b a ≡ true
unfolding bytes_lt bytes_eq
bytes_lt_total [] [] p q = absurd (ground arith)
bytes_lt_total [] (y ∷ b) p q = absurd (ground arith)
bytes_lt_total (x ∷ a) [] p q = refl
bytes_lt_total (x ∷ a) (y ∷ b) p q = ground (arith, bytes_lt_total a b)

module _ {ℓ} {A : Type ℓ} where
  -- Every key is above the given one, or below it.
  abbrev pub AreAbove : Bytes → List (Bytes × A) → Type 0
  AreAbove key [] = Unit {0}
  AreAbove key ((k, a) ∷ map) = (bytes_lt key k ≡ true) × AreAbove key map

  abbrev pub AreBelow : Bytes → List (Bytes × A) → Type 0
  AreBelow key [] = Unit {0}
  AreBelow key ((k, a) ∷ map) = (bytes_lt k key ≡ true) × AreBelow key map

  abbrev pub IsSorted : List (Bytes × A) → Type 0
  IsSorted [] = Unit {0}
  IsSorted ((k, a) ∷ map) = AreAbove k map × IsSorted map

  pub AreAbove-lower :
      (low key : Bytes) (map : List (Bytes × A))
      → bytes_lt low key ≡ true
      → AreAbove key map
      → AreAbove low map
  AreAbove-lower low key [] p h = tt
  AreAbove-lower low key ((k, a) ∷ map) p h =
      (bytes_lt_trans low key k p h.0, AreAbove-lower low key map p h.1)

  pub get_above : (key : Bytes) (map : List (Bytes × A)) → AreAbove key map → get key map ≡ none
  unfolding get
  get_above key [] h = refl
  get_above key ((k, a) ∷ map) h = ground (arith, bytes_lt_differ key k h.0, get_above key map h.1)

  -- An entry with a new last key is put at the end.
  pub insert_last :
      (key : Bytes) (a : A) (map : List (Bytes × A))
      → AreBelow key map
      → (insert key a map ≡ map ++ ((key, a) ∷ [])) × (get key map ≡ none)
  unfolding insert get
  insert_last key a [] h = (refl, refl)
  insert_last key a ((k, b) ∷ map) h = ground (
    arith,
    bytes_lt_asym k key h.0,
    bytes_lt_differ k key h.0,
    bytes_eq_sym k key,
    insert_last key a map h.1,
  )

  pub AreBelow-append :
      (key k : Bytes) (a : A) (map : List (Bytes × A))
      → bytes_lt k key ≡ true
      → AreBelow k map
      → AreBelow key (map ++ ((k, a) ∷ []))
  AreBelow-append key k a [] p h = (p, tt)
  AreBelow-append key k a ((j, b) ∷ map) p h =
      (bytes_lt_trans j k key h.0 p, AreBelow-append key k a map p h.1)

  pub insert-AreAbove :
      (low key : Bytes) (a : A) (map : List (Bytes × A))
      → bytes_lt low key ≡ true
      → AreAbove low map
      → AreAbove low (insert key a map)
  unfolding insert
  insert-AreAbove low key a [] p h = (p, tt)
  insert-AreAbove low key a ((k, b) ∷ map) p h = ground (arith, insert-AreAbove low key a map p h.1)

  pub insert-IsSorted :
      (key : Bytes) (a : A) (map : List (Bytes × A)) → IsSorted map → IsSorted (insert key a map)
  unfolding insert
  insert-IsSorted key a [] h = (tt, tt)
  insert-IsSorted key a ((k, b) ∷ map) h = elim (Bool-cases (bytes_eq key k)) [
    | inl same ↦ rw same (rw ((bytes_eq_iff key k).0 same) h)
    | inr other ↦ elim (Bool-cases (bytes_lt key k)) [
      | inl less ↦ rw (other, less) ((less, AreAbove-lower key k map less h.0), h)
      | inr more ↦
          rw (other, more)
            (
              insert-AreAbove k key a map (bytes_lt_total key k other more) h.0,
              insert-IsSorted key a map h.1,
            )
    ]
  ]

  remove-AreAbove :
      (low key : Bytes) (map : List (Bytes × A)) → AreAbove low map → AreAbove low (remove key map)
  unfolding remove
  remove-AreAbove low key [] h = tt
  remove-AreAbove low key ((k, a) ∷ map) h = ground (arith, remove-AreAbove low key map h.1)

  pub remove-IsSorted :
      (key : Bytes) (map : List (Bytes × A)) → IsSorted map → IsSorted (remove key map)
  unfolding remove
  remove-IsSorted key [] h = tt
  remove-IsSorted key ((k, a) ∷ map) h =
      ground (arith, remove-AreAbove k key map h.0, remove-IsSorted key map h.1)

  pub length-insert_new :
      (key : Bytes) (a : A) (map : List (Bytes × A))
      → get key map ≡ none
      → length (insert key a map) ≡ suc (length map)
  unfolding insert get
  length-insert_new key a [] h = refl
  length-insert_new key a ((k, b) ∷ map) h = ground (arith, length-insert_new key a map)

  pub length-insert_old :
      (key : Bytes) (a b : A) (map : List (Bytes × A))
      → IsSorted map
      → get key map ≡ some b
      → length (insert key a map) ≡ length map
  unfolding insert get
  length-insert_old key a b [] s h = absurd (ground arith)
  length-insert_old key a b ((k, c) ∷ map) s h = elim (Bool-cases (bytes_eq key k)) [
    | inl same ↦ ground arith
    | inr other ↦ elim (Bool-cases (bytes_lt key k)) [
      | inl less ↦ absurd (ground (arith, get_above key map (AreAbove-lower key k map less s.0)))
      | inr more ↦ ground (arith, length-insert_old key a b map s.1)
    ]
  ]

  pub length-remove : (key : Bytes) (map : List (Bytes × A)) → length (remove key map) ≤ length map
  unfolding remove
  length-remove key [] = ground arith
  length-remove key ((k, a) ∷ map) = ground (arith, length-remove key map)
