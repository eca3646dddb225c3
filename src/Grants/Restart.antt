-- ===== src/Grants/Restart.antt =====
-- A Host that is started again: AuthorizationRegistry of crates/host-agent/src/authorization.rs over
-- any store that keeps what it is given.
use roammand.Base.{
  suc, ◌≤◌, ◌≡◌, refl, ap, sym, subst, ◌∙◌, List, [], ◌∷◌, Bytes, length, Result, ok, err,
  Result-cases, inl, inr, arith,
}
use roammand.Validation.{device_id_bytes}
use roammand.Grants.{
  Crypto, ControllerGrantView, AuthorizationError, GrantStoreError, max_controller_grants,
}
use roammand.Grants.Maps.{values}
use roammand.Grants.Store.{GrantStore}
use roammand.Grants.Views.{GrantMap}
use roammand.Grants.Registry.{AuthorizationRegistry, load, load_each, commit, from_store}
use roammand.Grants.Loaded.{IsGrantMap, load_each-values, load_each-IsGrantMap}

-- A store gives back what was persisted last, and a call that fails leaves it as it was.
pub record IsGrantStore {S : Type 0} (stores : GrantStore S) : Type 0 where
  pub saved :
      (s : S) (host : Bytes) (grants : List ControllerGrantView)
      → (stores.persist s host grants).1 ≡ ok tt
      → stores.load (stores.persist s host grants).0 host ≡ ok grants
  pub kept :
      (s : S) (host : Bytes) (grants : List ControllerGrantView) (e : GrantStoreError)
      → (stores.persist s host grants).1 ≡ err e
      → stores.load (stores.persist s host grants).0 host ≡ stores.load s host

module _ {S : Type 0} (stores : GrantStore S) (crypto : Crypto) where
  -- The registry keeps to the rules of its map, and is what its store would be loaded as.
  pub record IsLoaded (registry : AuthorizationRegistry S) : Type 0 where
    pub host : length registry.host_device_id ≡ device_id_bytes
    pub grants : IsGrantMap crypto registry.host_device_id registry.grants_by_controller
    pub bounded : length registry.grants_by_controller ≤ max_controller_grants
    pub restart : load stores crypto registry.host_device_id registry.store ≡ ok registry

  length-values : (map : GrantMap) → length (values map) ≡ length map
  unfolding values
  length-values [] = refl
  length-values ((k, view) ∷ map) = ap suc (length-values map)

  load-values :
      (host : Bytes) (s : S) (map : GrantMap)
      → length host ≡ device_id_bytes
      → stores.load s host ≡ ok (values map)
      → IsGrantMap crypto host map
      → length map ≤ max_controller_grants
      → load stores crypto host s
        ≡ ok (record { host_device_id = host; store = s; grants_by_controller = map })
  unfolding load from_store
  load-values host s map sized loaded m few =
      let made = load_each-values crypto host map m.stored m.sorted m.distinct in
      ground (arith, length-values map)

  load-same :
      (host : Bytes) (s t : S) (registry : AuthorizationRegistry S)
      → stores.load t host ≡ stores.load s host
      → load stores crypto host s ≡ ok registry
      → load stores crypto host t ≡ ok (record registry { store = t })
  unfolding load from_store
  load-same host s t registry same h = elim (Result-cases (stores.load s host)) [
    | inr (x, e) ↦ absurd (ground arith)
    | inl (loaded, e) ↦ elim (Result-cases (load_each crypto host [] [] loaded)) [
      | inr (x, f) ↦ absurd (ground arith)
      | inl (map, f) ↦ ground arith
    ]
  ]

  pub load-IsLoaded :
      (host : Bytes) (s : S) (registry : AuthorizationRegistry S)
      → load stores crypto host s ≡ ok registry
      → IsLoaded registry
  unfolding load from_store values
  load-IsLoaded host s registry h = elim (Result-cases (stores.load s host)) [
    | inr (x, e) ↦ absurd (ground arith)
    | inl (loaded, e) ↦ elim (Result-cases (load_each crypto host [] [] loaded)) [
      | inr (x, f) ↦ absurd (ground arith)
      | inl (map, f) ↦
          let sized : length host ≡ device_id_bytes = ground arith in
          let few : length loaded ≤ max_controller_grants = ground arith in
          let same : (record { host_device_id = host; store = s; grants_by_controller = map })
              ≡ registry =
            ground arith in
          let empty : IsGrantMap crypto host [] = record {
            stored = tt;
            sorted = tt;
            distinct = tt;
          } in
          let (m, counted) = load_each-IsGrantMap crypto host [] [] map loaded empty tt f in
          subst IsLoaded same (record {
            host = sized;
            grants = m;
            bounded = omega arith;
            restart = h ∙ ap ok (sym same);
          })
    ]
  ]

  module _ (laws : IsGrantStore stores) where
    -- What is persisted before the map is changed.
    pub commit-IsLoaded :
        (registry : AuthorizationRegistry S) (map : GrantMap)
        (result : Result AuthorizationError ControllerGrantView)
        → IsLoaded registry
        → IsGrantMap crypto registry.host_device_id map
        → length map ≤ max_controller_grants
        → IsLoaded (commit stores registry (values map) map result).0
    unfolding commit from_store
    commit-IsLoaded registry map result i m few =
        let host = registry.host_device_id in
        let c = stores.persist registry.store host (values map) in
        elim (Result-cases c.1) [
          | inl (u, e) ↦
              let saved = laws.saved registry.store host (values map) e in
              rw e (record {
                host = i.host;
                grants = m;
                bounded = few;
                restart = load-values host c.0 map i.host saved m few;
              })
          | inr (x, e) ↦
              let kept = laws.kept registry.store host (values map) x e in
              rw e (record {
                host = i.host;
                grants = i.grants;
                bounded = i.bounded;
                restart = load-same host registry.store c.0 registry kept i.restart;
              })
        ]
