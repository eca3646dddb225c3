-- ===== src/Grants/Agrees.antt =====
-- The list that AuthorizationRegistry persists is the list of the map that it keeps.
use roammand.Base.{
  ◌≡◌, refl, sym, subst, none, some, [], ◌∷◌, ◌++◌, Bytes, bytes_eq, bytes_eq_iff, Bool-cases, inl,
  inr, arith,
}
use roammand.Grants.{ControllerGrantView, controller_device_id_for}
use roammand.Grants.Maps.{bytes_lt, get, insert, remove, values}
use roammand.Grants.Views.{
  GrantMap, key_lt, insert_grant, sort_grants, key_is, is_of, replace_first, retain_others,
}
use roammand.Grants.Sorted.{
  AreAbove, IsSorted, AreAbove-lower, get_above, bytes_lt_asym, bytes_lt_total, bytes_lt_differ,
  bytes_eq_sym, insert-AreAbove,
}

-- Each grant is kept under the identifier of its controller.
abbrev pub AreKeyed : GrantMap → Type 0
AreKeyed [] = Unit {0}
AreKeyed ((k, view) ∷ map) = (controller_device_id_for view ≡ some k) × AreKeyed map

is_of_key :
    (key k : Bytes) (view : ControllerGrantView)
    → controller_device_id_for view ≡ some k
    → is_of key view ≡ bytes_eq key k
unfolding is_of key_is
is_of_key key k view h = rw h (bytes_eq_sym k key)

insert_grant_first :
    (k : Bytes) (view : ControllerGrantView) (map : GrantMap)
    → controller_device_id_for view ≡ some k
    → AreKeyed map
    → AreAbove k map
    → insert_grant view (values map) ≡ view ∷ values map
unfolding insert_grant values key_lt
insert_grant_first k view [] v h a = refl
insert_grant_first k view ((j, other) ∷ map) v h a = rw (v, h.0, bytes_lt_asym k j a.0) refl

insert_above :
    (key : Bytes) (view : ControllerGrantView) (map : GrantMap)
    → AreAbove key map
    → insert key view map ≡ (key, view) ∷ map
unfolding insert
insert_above key view [] a = refl
insert_above key view ((k, other) ∷ map) a = rw (a.0, bytes_lt_differ key k a.0) refl

pub insert-AreKeyed :
    (key : Bytes) (view : ControllerGrantView) (map : GrantMap)
    → controller_device_id_for view ≡ some key
    → AreKeyed map
    → AreKeyed (insert key view map)
unfolding insert
insert-AreKeyed key view [] v h = (v, tt)
insert-AreKeyed key view ((k, other) ∷ map) v h = ground (arith, insert-AreKeyed key view map v h.1)

-- A grant added at the end is put in the place of its key.
pub sort_grants-insert :
    (key : Bytes) (view : ControllerGrantView) (map : GrantMap)
    → controller_device_id_for view ≡ some key
    → AreKeyed map
    → IsSorted map
    → get key map ≡ none
    → sort_grants (values map ++ (view ∷ [])) ≡ values (insert key view map)
unfolding sort_grants values insert insert_grant get key_lt
sort_grants-insert key view [] v h s g = refl
sort_grants-insert key view ((k, other) ∷ map) v h s g = elim (Bool-cases (bytes_eq key k)) [
  | inl same ↦ absurd (ground arith)
  | inr differ ↦
      let fresh : get key map ≡ none = ground arith in
      let rest = sort_grants-insert key view map v h.1 s.1 fresh in
      elim (Bool-cases (bytes_lt key k)) [
        | inl less ↦
            let first = insert_above key view map (AreAbove-lower key k map less s.0) in
            let last = insert_grant_first k other map h.0 h.1 s.0 in
            rw (rest, first, v, h.0, less, differ, last) refl
        | inr more ↦
            let after = bytes_lt_total key k differ more in
            let last =
              insert_grant_first k other (insert key view map) h.0
                (insert-AreKeyed key view map v h.1) (insert-AreAbove k key view map after s.0) in
            rw (rest, differ, more, last) refl
      ]
]

-- A grant that is updated in the list is updated in the map.
pub replace_first-insert :
    (key : Bytes) (existing updated : ControllerGrantView) (map : GrantMap)
    → AreKeyed map
    → IsSorted map
    → get key map ≡ some existing
    → replace_first key updated (values map) ≡ some (values (insert key updated map))
unfolding replace_first values insert get
replace_first-insert key existing updated [] h s g = absurd (ground arith)
replace_first-insert key existing updated ((k, other) ∷ map) h s g =
    let found = is_of_key key k other h.0 in
    elim (Bool-cases (bytes_eq key k)) [
      | inl same ↦ rw (found, same) refl
      | inr differ ↦
          let deeper : get key map ≡ some existing = ground arith in
          let rest = replace_first-insert key existing updated map h.1 s.1 deeper in
          elim (Bool-cases (bytes_lt key k)) [
            | inl less ↦
                absurd (ground (arith, get_above key map (AreAbove-lower key k map less s.0)))
            | inr more ↦ rw (found, differ, more, rest) refl
          ]
    ]

retain_above :
    (key : Bytes) (map : GrantMap)
    → AreKeyed map
    → AreAbove key map
    → retain_others key (values map) ≡ values map
unfolding retain_others values
retain_above key [] h a = refl
retain_above key ((k, other) ∷ map) h a =
    rw (is_of_key key k other h.0, bytes_lt_differ key k a.0, retain_above key map h.1 a.1) refl

-- A grant that is taken from the list is taken from the map.
pub retain_others-remove :
    (key : Bytes) (map : GrantMap)
    → AreKeyed map
    → IsSorted map
    → retain_others key (values map) ≡ values (remove key map)
unfolding retain_others values remove
retain_others-remove key [] h s = refl
retain_others-remove key ((k, other) ∷ map) h s =
    let found = is_of_key key k other h.0 in
    elim (Bool-cases (bytes_eq key k)) [
      | inl same ↦
          let above = subst (λ t. AreAbove t map) (sym ((bytes_eq_iff key k).0 same)) s.0 in
          rw (found, same, retain_above key map h.1 above) refl
      | inr differ ↦ rw (found, differ, retain_others-remove key map h.1 s.1) refl
    ]
