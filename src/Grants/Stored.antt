-- ===== src/Grants/Stored.antt =====
-- What `load_each` of crates/host-agent/src/authorization.rs accepts, and what it makes of it.
use roammand.Base.{
  ◌≡◌, refl, ap, sym, subst, true, false, Option, none, some, List, [], ◌∷◌, Bytes, bytes_eq,
  bytes_eq_iff, any, ok, Bool-cases, Option-cases, inl, inr, arith,
}
use roammand.Grants.{
  Crypto, ControllerGrant, ControllerGrantView, validate_stored_grant, controller_device_id_for,
  controller_device_id_of, device_id_of,
}
use roammand.Grants.Maps.{get, insert, remove, values}
use roammand.Grants.Views.{GrantMap, grant_is, has_grant_id, any_grant_id}
use roammand.Grants.Sorted.{bytes_eq_sym}
use roammand.Grants.Agrees.{AreKeyed}

abbrev pub id_of : Option ControllerGrant → Bytes
id_of none = []
id_of (some grant) = grant.grant_id

module _ (crypto : Crypto) (host : Bytes) where
  -- Each grant is valid, and kept under the identifier of its controller.
  abbrev pub AreStored : GrantMap → Type 0
  AreStored [] = Unit {0}
  AreStored ((k, view) ∷ map) = (validate_stored_grant crypto view host ≡ ok k) × AreStored map

  pub stored_grant :
      (view : ControllerGrantView) (k : Bytes)
      → validate_stored_grant crypto view host ≡ ok k
      → (grant : ControllerGrant) × (view.grant ≡ some grant)
        × (controller_device_id_for view ≡ some k)
  unfolding validate_stored_grant controller_device_id_for controller_device_id_of device_id_of
  stored_grant view k h = elim (Option-cases view.grant) [
    | inl e ↦ absurd (ground arith)
    | inr (grant, e) ↦ elim (Option-cases grant.controller) [
      | inl f ↦ absurd (ground arith)
      | inr (controller, f) ↦ (grant, e, ground arith)
    ]
  ]

  pub AreStored-AreKeyed : (map : GrantMap) → AreStored map → AreKeyed map
  AreStored-AreKeyed [] h = tt
  AreStored-AreKeyed ((k, view) ∷ map) h = ((stored_grant view k h.0).2, AreStored-AreKeyed map h.1)

  pub insert-AreStored :
      (k : Bytes) (view : ControllerGrantView) (map : GrantMap)
      → validate_stored_grant crypto view host ≡ ok k
      → AreStored map
      → AreStored (insert k view map)
  unfolding insert
  insert-AreStored k view [] v h = (v, tt)
  insert-AreStored k view ((j, other) ∷ map) v h = ground (arith, insert-AreStored k view map v h.1)

  pub remove-AreStored : (k : Bytes) (map : GrantMap) → AreStored map → AreStored (remove k map)
  unfolding remove
  remove-AreStored k [] h = tt
  remove-AreStored k ((j, other) ∷ map) h = ground (arith, remove-AreStored k map h.1)

  pub get-stored :
      (k : Bytes) (view : ControllerGrantView) (map : GrantMap)
      → AreStored map
      → get k map ≡ some view
      → validate_stored_grant crypto view host ≡ ok k
  unfolding get
  get-stored k view [] h g = absurd (ground arith)
  get-stored k view ((j, other) ∷ map) h g = elim (Bool-cases (bytes_eq k j)) [
    | inl same ↦
        let equal = (bytes_eq_iff k j).0 same in
        let found : other ≡ view = ground arith in
        subst (λ t. validate_stored_grant crypto view host ≡ ok t) (sym equal)
          (subst (λ v. validate_stored_grant crypto v host ≡ ok j) found h.0)
    | inr differ ↦ get-stored k view map h.1 (ground arith)
  ]

-- No two grants have the same identifier.
abbrev pub AreDistinct : List ControllerGrantView → Type 0
AreDistinct [] = Unit {0}
AreDistinct (view ∷ views) = (any_grant_id (id_of view.grant) views ≡ false) × AreDistinct views

-- None of the grants has one of the identifiers, or each of them has.
abbrev pub AreUnseen : List Bytes → List ControllerGrantView → Type 0
AreUnseen ids [] = Unit {0}
AreUnseen ids (view ∷ views) = (any (bytes_eq (id_of view.grant)) ids ≡ false) × AreUnseen ids views

abbrev pub AreSeen : List Bytes → List ControllerGrantView → Type 0
AreSeen ids [] = Unit {0}
AreSeen ids (view ∷ views) = (any (bytes_eq (id_of view.grant)) ids ≡ true) × AreSeen ids views

pub has_id :
    (x : Bytes) (view : ControllerGrantView) (grant : ControllerGrant)
    → view.grant ≡ some grant
    → has_grant_id x view ≡ bytes_eq x (id_of view.grant)
unfolding has_grant_id grant_is
has_id x view grant e = rw e (bytes_eq_sym grant.grant_id x)

pub AreSeen-more :
    (id : Bytes) (ids : List Bytes) (views : List ControllerGrantView)
    → AreSeen ids views
    → AreSeen (id ∷ ids) views
AreSeen-more id ids [] h = tt
AreSeen-more id ids (view ∷ views) h = (ground arith, AreSeen-more id ids views h.1)

pub insert-AreSeen :
    (ids : List Bytes) (k : Bytes) (view : ControllerGrantView) (map : GrantMap)
    → any (bytes_eq (id_of view.grant)) ids ≡ true
    → AreSeen ids (values map)
    → AreSeen ids (values (insert k view map))
unfolding insert values
insert-AreSeen ids k view [] v h = (v, tt)
insert-AreSeen ids k view ((j, other) ∷ map) v h =
    ground (arith, insert-AreSeen ids k view map v h.1)

module _ (crypto : Crypto) (host : Bytes) where
  -- What is not among the identifiers is that of no grant.
  pub unseen_unused :
      (x : Bytes) (ids : List Bytes) (map : GrantMap)
      → AreStored crypto host map
      → AreSeen ids (values map)
      → any (bytes_eq x) ids ≡ false
      → any_grant_id x (values map) ≡ false
  unfolding any_grant_id values
  unseen_unused x ids [] s h u = refl
  unseen_unused x ids ((k, view) ∷ map) s h u =
      let (grant, e, f) = stored_grant crypto host view k s.0 in
      let rest = unseen_unused x ids map s.1 h.1 u in
      elim (Bool-cases (bytes_eq x (id_of view.grant))) [
        | inl same ↦
            let equal = (bytes_eq_iff x (id_of view.grant)).0 same in
            ground (arith, h.0, ap (λ t. any (bytes_eq t) ids) equal)
        | inr differ ↦ rw (has_id x view grant e, differ, rest) refl
      ]

  insert-unused :
      (x k : Bytes) (view : ControllerGrantView) (map : GrantMap)
      → has_grant_id x view ≡ false
      → any_grant_id x (values map) ≡ false
      → any_grant_id x (values (insert k view map)) ≡ false
  unfolding any_grant_id insert values
  insert-unused x k view [] v h = ground arith
  insert-unused x k view ((j, other) ∷ map) v h = ground (arith, insert-unused x k view map v)

  pub insert-AreDistinct :
      (k : Bytes) (view : ControllerGrantView) (map : GrantMap)
      → validate_stored_grant crypto view host ≡ ok k
      → AreStored crypto host map
      → any_grant_id (id_of view.grant) (values map) ≡ false
      → AreDistinct (values map)
      → AreDistinct (values (insert k view map))
  unfolding insert values any_grant_id
  insert-AreDistinct k view [] v s u h = (u, tt)
  insert-AreDistinct k view ((j, other) ∷ map) v s u h =
      let (grant, e, f) = stored_grant crypto host view k v in
      let (old, o, p) = stored_grant crypto host other j s.0 in
      let here = has_id (id_of view.grant) other old o in
      let there = has_id (id_of other.grant) view grant e in
      let both = bytes_eq_sym (id_of view.grant) (id_of other.grant) in
      ground
        (arith, insert-AreDistinct k view map v s.1, insert-unused (id_of other.grant) k view map)
