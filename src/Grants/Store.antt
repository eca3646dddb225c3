-- ===== src/Grants/Store.antt =====
-- The trait GrantStore of crates/host-agent/src/grant_store.rs: its two operations, on the state of a
-- store.
use roammand.Base.{List, Bytes, Result, Call}
use roammand.Grants.{ControllerGrantView, GrantStoreError}

pub record GrantStore (S : Type 0) : Type 0 where
  pub load : S → Bytes → Result GrantStoreError (List ControllerGrantView)
  pub persist : S → Bytes → List ControllerGrantView → Call S GrantStoreError (Unit {0})
