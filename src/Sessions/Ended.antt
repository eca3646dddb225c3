-- ===== src/Sessions/Ended.antt =====
-- The sessions of a controller whose grant is revoked (crates/host-agent/src/sessions.rs).
use roammand.Base.{
  ◌≡◌, ◌≢◌, ◌⊎◌, refl, sym, subst, ◌∙◌, Bool, true, false, none, some, List, [], ◌∷◌, Bytes,
  bytes_eq, bytes_eq_iff, bytes_eq_refl, if◌then◌else◌, Bool-cases, Option-cases, ap, inl, inr,
  arith,
}
use roammand.Grants.Maps.{get, remove}
use roammand.Grants.Sorted.{IsSorted, get_above, remove-IsSorted}
use roammand.Grants.Outcomes.{get-remove, get-remove_other}
use roammand.Sessions.{SessionRegistry, terminate_controller, sessions_of, remove_each}

-- A key is one of the identifiers, or none of them.
abbrev IsIn : Bytes → List Bytes → Type 0
IsIn j [] = ⊥
IsIn j (id ∷ ids) = (j ≡ id) ⊎ IsIn j ids

get-remove_each_gone :
    (j : Bytes) (ids : List Bytes) (map : List (Bytes × Bytes))
    → IsSorted map
    → (get j map ≡ none) ⊎ IsIn j ids
    → get j (remove_each ids map) ≡ none
unfolding remove_each
get-remove_each_gone j [] map s (inl gone) = gone
get-remove_each_gone j [] map s (inr never) = absurd never
get-remove_each_gone j (id ∷ ids) map s h =
    let sorted = remove-IsSorted id map s in
    elim (Bool-cases (bytes_eq j id)) [
      | inl same ↦
          let equal = (bytes_eq_iff j id).0 same in
          get-remove_each_gone j ids (remove id map) sorted
            (inl (subst (λ t. get t (remove id map) ≡ none) (sym equal) (get-remove id map s)))
      | inr other ↦ get-remove_each_gone j ids (remove id map) sorted (elim h [
        | inl gone ↦ inl (get-remove_other j id map other ∙ gone)
        | inr (inl same) ↦ absurd (ground (arith, (bytes_eq_iff j id).1 same))
        | inr (inr later) ↦ inr later
      ])
    ]

get-remove_each_kept :
    (j : Bytes) (ids : List Bytes) (map : List (Bytes × Bytes))
    → (IsIn j ids → ⊥)
    → get j (remove_each ids map) ≡ get j map
unfolding remove_each
get-remove_each_kept j [] map n = refl
get-remove_each_kept j (id ∷ ids) map n = elim (Bool-cases (bytes_eq j id)) [
  | inl same ↦ absurd (n (inl ((bytes_eq_iff j id).0 same)))
  | inr other ↦
      get-remove_each_kept j ids (remove id map) (λ i. n (inr i)) ∙ get-remove_other j id map other
]

-- The identifiers are those under which the controller stands.
sessions_of-IsIn :
    (controller j : Bytes) (map : List (Bytes × Bytes))
    → get j map ≡ some controller
    → IsIn j (sessions_of controller map)
unfolding sessions_of get
sessions_of-IsIn controller j [] g = absurd (ground arith)
sessions_of-IsIn controller j ((id, other) ∷ map) g = elim (Bool-cases (bytes_eq j id)) [
  | inl same ↦
      let equal = (bytes_eq_iff j id).0 same in
      let named : other ≡ controller = ground arith in
      let found = (bytes_eq_iff other controller).1 named in rw found (inl equal)
  | inr differ ↦
      let rest = sessions_of-IsIn controller j map (ground arith) in
      elim (Bool-cases (bytes_eq other controller)) [
        | inl found ↦ rw found (inr rest)
        | inr differs ↦ rw differs rest
      ]
]

IsIn-head :
    (b : Bool) (j id : Bytes) (rest : List Bytes)
    → IsIn j (if b then id ∷ rest else rest)
    → ((b ≡ true) × (j ≡ id)) ⊎ IsIn j rest
IsIn-head true j id rest (inl e) = inl (refl, e)
IsIn-head true j id rest (inr r) = inr r
IsIn-head false j id rest i = inr i

IsIn-sessions_of :
    (controller j : Bytes) (map : List (Bytes × Bytes))
    → IsSorted map
    → IsIn j (sessions_of controller map)
    → get j map ≡ some controller
unfolding sessions_of get
IsIn-sessions_of controller j [] s i = absurd i
IsIn-sessions_of controller j ((id, other) ∷ map) s i =
    elim (IsIn-head (bytes_eq other controller) j id (sessions_of controller map) i) [
      | inl (found, same) ↦
          let equal = (bytes_eq_iff j id).1 same in
          let named = (bytes_eq_iff other controller).0 found in rw equal (ap some named)
      | inr later ↦
          let rest = IsIn-sessions_of controller j map s.1 later in
          elim (Bool-cases (bytes_eq j id)) [
            | inl same ↦
                let gone =
                  subst (λ t. get t map ≡ none) (sym ((bytes_eq_iff j id).0 same))
                    (get_above id map s.0) in
                absurd (ground arith)
            | inr differ ↦ rw differ rest
          ]
    ]

-- From a registry whose map is in order: once the sessions of a controller are terminated, each
-- session that was registered for it is gone, and every other one is as it was.
pub get-terminate_controller :
    (r : SessionRegistry) (controller j : Bytes)
    → let after = (terminate_controller r controller).0.sessions in
      IsSorted r.sessions
      → ((get j r.sessions ≡ some controller) × (get j after ≡ none))
        ⊎ ((get j r.sessions ≢ some controller) × (get j after ≡ get j r.sessions))
unfolding terminate_controller
get-terminate_controller r controller j s =
    let ids = sessions_of controller r.sessions in
    elim (Option-cases (get j r.sessions)) [
      | inl gone ↦ inr (
        (λ e. absurd (ground arith)),
        get-remove_each_kept j ids r.sessions
            (λ i. absurd (ground (arith, IsIn-sessions_of controller j r.sessions s i))),
      )
      | inr (other, g) ↦ elim (Bool-cases (bytes_eq other controller)) [
        | inl same ↦
            let named = g ∙ ap some ((bytes_eq_iff other controller).0 same) in
            inl (
              named,
              get-remove_each_gone j ids r.sessions s
                  (inr (sessions_of-IsIn controller j r.sessions named)),
            )
        | inr differ ↦
            let apart : get j r.sessions ≢ some controller =
              λ e. absurd (ground (arith, bytes_eq_refl controller)) in
            inr (
              apart,
              get-remove_each_kept j ids r.sessions
                  (λ i. apart (IsIn-sessions_of controller j r.sessions s i)),
            )
      ]
    ]
