-- ===== src/Grants/Loaded.antt =====
-- `load_each` of crates/host-agent/src/authorization.rs: the maps that it makes, and that it makes
-- such a map again from the list of its grants.
use roammand.Base.{
  ◌+◌, ◌≡◌, refl, ap, sym, subst, ◌∙◌, false, none, some, List, [], ◌∷◌, ◌++◌, append-nil,
  append_assoc, Bytes, bytes_eq, bytes_eq_refl, length, any, ok, Bool-cases, Option-cases,
  Result-cases, inl, inr, arith,
}
use roammand.Grants.{Crypto, ControllerGrant, ControllerGrantView, validate_stored_grant}
use roammand.Grants.Maps.{get, insert, values}
use roammand.Grants.Views.{GrantMap, any_grant_id}
use roammand.Grants.Registry.{load_each}
use roammand.Grants.Sorted.{
  AreBelow, IsSorted, insert_last, AreBelow-append, bytes_eq_sym, insert-IsSorted,
  length-insert_new,
}
use roammand.Grants.Stored.{
  AreStored, AreDistinct, AreUnseen, AreSeen, id_of, stored_grant, has_id, insert-AreStored,
  insert-AreDistinct, insert-AreSeen, AreSeen-more, unseen_unused,
}

-- The grants so far are before those that follow.
abbrev IsBefore : GrantMap → GrantMap → Type 0
IsBefore done [] = Unit {0}
IsBefore done ((k, view) ∷ map) = AreBelow k done

AreUnseen-more :
    (x : Bytes) (ids : List Bytes) (crypto : Crypto) (host : Bytes) (map : GrantMap)
    → AreStored crypto host map
    → any_grant_id x (values map) ≡ false
    → AreUnseen ids (values map)
    → AreUnseen (x ∷ ids) (values map)
unfolding any_grant_id values
AreUnseen-more x ids crypto host [] s u h = tt
AreUnseen-more x ids crypto host ((k, view) ∷ map) s u h =
    let (grant, e, f) = stored_grant crypto host view k s.0 in
    let named = has_id x view grant e in
    let turned = bytes_eq_sym x (id_of view.grant) in
    ground (arith, AreUnseen-more x ids crypto host map s.1)

IsBefore-next :
    (k : Bytes) (view : ControllerGrantView) (done map : GrantMap)
    → IsSorted ((k, view) ∷ map)
    → AreBelow k done
    → IsBefore (done ++ ((k, view) ∷ [])) map
IsBefore-next k view done [] s b = tt
IsBefore-next k view done ((j, other) ∷ map) s b = AreBelow-append j k view done s.0.0 b

load_each_step :
    (crypto : Crypto) (host : Bytes) (ids : List Bytes) (done : GrantMap) (k : Bytes)
    (view : ControllerGrantView) (views : List ControllerGrantView) (grant : ControllerGrant)
    → validate_stored_grant crypto view host ≡ ok k
    → view.grant ≡ some grant
    → any (bytes_eq grant.grant_id) ids ≡ false
    → get k done ≡ none
    → load_each crypto host ids done (view ∷ views)
      ≡ load_each crypto host (grant.grant_id ∷ ids) (insert k view done) views
unfolding load_each
load_each_step crypto host ids done k view views grant v e unseen fresh = ground arith

load_each-append :
    (crypto : Crypto) (host : Bytes) (ids : List Bytes) (done map : GrantMap)
    → AreStored crypto host map
    → IsSorted map
    → IsBefore done map
    → AreDistinct (values map)
    → AreUnseen ids (values map)
    → load_each crypto host ids done (values map) ≡ ok (done ++ map)
unfolding values load_each
load_each-append crypto host ids done [] v s b d u = ap ok (sym (append-nil done))
load_each-append crypto host ids done ((k, view) ∷ map) v s b d u =
    let (grant, e, f) = stored_grant crypto host view k v.0 in
    let (last, fresh) = insert_last k view done b in
    let named : id_of view.grant ≡ grant.grant_id = ap id_of e in
    let unseen : any (bytes_eq grant.grant_id) ids ≡ false =
      subst (λ t. any (bytes_eq t) ids ≡ false) named u.0 in
    let unused : any_grant_id grant.grant_id (values map) ≡ false =
      subst (λ t. any_grant_id t (values map) ≡ false) named d.0 in
    let rest =
      load_each-append crypto host (grant.grant_id ∷ ids) (done ++ ((k, view) ∷ [])) map v.1 s.1
        (IsBefore-next k view done map s b) d.1
        (AreUnseen-more grant.grant_id ids crypto host map v.1 unused u.1) in
    load_each_step crypto host ids done k view (values map) grant v.0 e unseen fresh
    ∙ ap (λ t. load_each crypto host (grant.grant_id ∷ ids) t (values map)) last
    ∙ rest
    ∙ ap ok (append_assoc done ((k, view) ∷ []) map)

none_unseen : (views : List ControllerGrantView) → AreUnseen [] views
none_unseen [] = tt
none_unseen (view ∷ views) = (refl, none_unseen views)

-- The map that is made again from the list of its grants.
pub load_each-values :
    (crypto : Crypto) (host : Bytes) (map : GrantMap)
    → AreStored crypto host map
    → IsSorted map
    → AreDistinct (values map)
    → load_each crypto host [] [] (values map) ≡ ok map
load_each-values crypto host map v s d =
    load_each-append crypto host [] [] map v s (no_before map) d (none_unseen (values map))
  where
    no_before : (map : GrantMap) → IsBefore [] map
    no_before [] = tt
    no_before ((k, view) ∷ map) = tt

pub record IsGrantMap (crypto : Crypto) (host : Bytes) (map : GrantMap) : Type 0 where
  pub stored : AreStored crypto host map
  pub sorted : IsSorted map
  pub distinct : AreDistinct (values map)

load_each_next :
    (crypto : Crypto) (host : Bytes) (ids : List Bytes) (done map : GrantMap)
    (view : ControllerGrantView) (views : List ControllerGrantView)
    → load_each crypto host ids done (view ∷ views) ≡ ok map
    → (k : Bytes) × (validate_stored_grant crypto view host ≡ ok k)
      × (any (bytes_eq (id_of view.grant)) ids ≡ false)
      × (get k done ≡ none)
      × (load_each crypto host (id_of view.grant ∷ ids) (insert k view done) views ≡ ok map)
unfolding load_each
load_each_next crypto host ids done map view views h =
    elim (Result-cases (validate_stored_grant crypto view host)) [
      | inr (x, e) ↦ absurd (ground arith)
      | inl (k, v) ↦
          let (grant, e, f) = stored_grant crypto host view k v in
          let named : id_of view.grant ≡ grant.grant_id = ap id_of e in
          elim (Bool-cases (any (bytes_eq grant.grant_id) ids)) [
            | inl seen ↦ absurd (ground arith)
            | inr unseen ↦ elim (Option-cases (get k done)) [
              | inr (previous, g) ↦ absurd (ground arith)
              | inl g ↦ (k, v, rw named unseen, g, rw named (ground arith))
            ]
          ]
    ]

-- What is loaded keeps to the rules of the map, and has as many grants as the list.
pub load_each-IsGrantMap :
    (crypto : Crypto) (host : Bytes) (ids : List Bytes) (done map : GrantMap)
    (views : List ControllerGrantView)
    → IsGrantMap crypto host done
    → AreSeen ids (values done)
    → load_each crypto host ids done views ≡ ok map
    → IsGrantMap crypto host map × (length map ≡ length done + length views)
unfolding load_each
load_each-IsGrantMap crypto host ids done map [] m s h =
    let same : done ≡ map = ground arith in
    (subst (IsGrantMap crypto host) same m, omega (arith, ap length same))
load_each-IsGrantMap crypto host ids done map (view ∷ views) m s h =
    let (k, v, unseen, fresh, next) = load_each_next crypto host ids done map view views h in
    let unused = unseen_unused crypto host (id_of view.grant) ids done m.stored s unseen in
    let (made, counted) =
      load_each-IsGrantMap crypto host (id_of view.grant ∷ ids) (insert k view done) map views
        (record {
          stored = insert-AreStored crypto host k view done v m.stored;
          sorted = insert-IsSorted k view done m.sorted;
          distinct = insert-AreDistinct crypto host k view done v m.stored unused m.distinct;
        })
        (insert-AreSeen (id_of view.grant ∷ ids) k view done
          (ground (arith, bytes_eq_refl (id_of view.grant)))
          (AreSeen-more (id_of view.grant) ids (values done) s))
        next in
    (made, omega (arith, length-insert_new k view done fresh))
