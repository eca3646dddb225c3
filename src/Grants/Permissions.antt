-- ===== src/Grants/Permissions.antt =====
-- What normalize_stored_permissions of crates/host-agent/src/authorization.rs returns.
use roammand.Base.{
  ℕ, ◌≡◌, ◌⊎◌, inl, inr, false, List, [], ◌∷◌, is_empty, ok, Bool-cases, Result-cases, arith,
}
use roammand.Grants.{insert_value, normalize_each, normalize_stored_permissions, permission_number}

-- The sets of permissions that the loop goes through after its first step.
abbrev IsNormal : List ℕ → Type 0
IsNormal set = (set ≡ 1 ∷ []) ⊎ (set ≡ 2 ∷ []) ⊎ (set ≡ 1 ∷ 2 ∷ [])

normalize_each-IsNormal :
    (set values normalized : List ℕ)
    → IsNormal set
    → normalize_each set values ≡ ok normalized
    → IsNormal normalized
unfolding normalize_each insert_value
normalize_each-IsNormal set [] normalized s h = ground arith
normalize_each-IsNormal set (value ∷ values) normalized s h =
    normalize_each-IsNormal (insert_value value set) values normalized (ground arith) (ground arith)

normalize_first :
    (permissions set : List ℕ)
    → is_empty permissions ≡ false
    → normalize_each [] permissions ≡ ok set
    → IsNormal set
unfolding normalize_each insert_value
normalize_first [] set n h = absurd (ground arith)
normalize_first (value ∷ values) set n h =
    normalize_each-IsNormal (value ∷ []) values set (ground arith) (ground arith)

-- The permissions are these in order, and are not changed by another pass.
pub normalize_again :
    (permissions normalized : List ℕ)
    → normalize_stored_permissions permissions ≡ ok normalized
    → ((normalized ≡ 1 ∷ []) ⊎ (normalized ≡ 1 ∷ 2 ∷ []))
      × (normalize_stored_permissions normalized ≡ ok normalized)
unfolding normalize_stored_permissions normalize_each insert_value permission_number
normalize_again permissions normalized h = elim (Bool-cases (is_empty permissions)) [
  | inl e ↦ absurd (ground arith)
  | inr n ↦ elim (Result-cases (normalize_each [] permissions)) [
    | inr (x, e) ↦ absurd (ground arith)
    | inl (set, e) ↦ let found = normalize_first permissions set n e in ground arith
  ]
]
