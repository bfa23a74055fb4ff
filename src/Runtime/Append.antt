-- ===== src/Runtime/Append.antt =====
-- The two substrates and the locked append of tools/learning-loop-mastra/core/runtime-state.js. The
-- lock makes `appendLedgerEvent` one step on the substrates.
pub mod Written
use mathlib.Core.Path.{subst}
use learning_loop_template.Base.{
  ℕ, suc, ◌≤◌, ◌<◌, String, ◌≡◌, sym, Bool, true, false, not, ◌&&◌, Option, none, some, List, [],
  ◌∷◌, ◌++◌, arith, inl, inr, ltb, if◌then◌else◌, str_eq, All, Bool-cases,
}
use learning_loop_template.Runtime.Row.{
  RowKind, ledger_event, budget_state, RowStatus, initial, active, paused, stopped, Durability,
  ephemeral, Row, version_of, with_fingerprint,
}

-- The rows that parse, with the number of lines that do not.
pub record Substrate : Type 0 where
  pub rows : List Row
  pub malformed : ℕ

pub record Sidecar : Type 0 where
  pub committed : Substrate
  pub session_local : Substrate

pub data Error : Type 0 where
  kind_status_mismatch kind_unknown budget_tracking_corrupt : Error

pub data Result {ℓ} (A : Type ℓ) : Type ℓ where
  ok : A → Result A
  thrown : Error → Result A

-- Do the row's id and `id` agree? (`r?.id !== id`)
abbrev pub same_id : Option String → Option String → Bool
same_id none none = true
same_id (some a) (some b) = str_eq a b
same_id _ _ = false

-- `maxVersionForId(rows, id) + 1`: one above the versions of the id's rows, and 0 where none is.
unfoldable pub next_version_from : ℕ → Option String → List Row → ℕ
next_version_from next id [] = next
next_version_from next id (r ∷ rs) =
    next_version_from
      (if same_id r.id id && not (ltb (version_of r) next) then suc (version_of r) else next) id rs

abbrev pub next_version : Option String → List Row → ℕ
next_version = next_version_from 0

abbrev is_active : Option RowStatus → Bool
is_active (some active) = true
is_active _ = false

abbrev pub is_lifecycle : Option RowStatus → Bool
is_lifecycle (some initial) = true
is_lifecycle (some active) = true
is_lifecycle (some paused) = true
is_lifecycle (some stopped) = true
is_lifecycle _ = false

-- `assertKindConditionalStatus`: the error thrown, if any.
unfoldable pub assert_kind_conditional_status : Option RowKind → Option RowStatus → Option Error
assert_kind_conditional_status (some ledger_event) st =
    if not (is_active st) then some kind_status_mismatch else none
assert_kind_conditional_status (some budget_state) st =
    if not (is_lifecycle st) then some kind_status_mismatch else none
assert_kind_conditional_status _ st = some kind_unknown

-- `resolveDestinationFilename`: is the session-local substrate the destination?
abbrev pub is_ephemeral : Option Durability → Bool
is_ephemeral (some ephemeral) = true
is_ephemeral _ = false

abbrev pub destination : Row → Sidecar → Substrate
destination r c = if is_ephemeral r.durability then c.session_local else c.committed

abbrev pub add_row : Row → Substrate → Substrate
add_row r s = record s { rows = s.rows ++ r ∷ [] }

-- The row as it is written.
module _ (sha256 : String → String) where
  abbrev pub stamped : Row → Sidecar → Row
  stamped r c =
      with_fingerprint sha256
        (record r { version = some (next_version r.id (destination r c).rows) })

  unfoldable pub append_ledger_event : Row → Sidecar → Result Row × Sidecar
  append_ledger_event r c = elim (assert_kind_conditional_status r.kind r.status) [
    | some e ↦ (thrown e, c)
    | none ↦ (
      ok (stamped r c),
      if is_ephemeral r.durability
          then record c { session_local = add_row (stamped r c) c.session_local }
          else record c { committed = add_row (stamped r c) c.committed },
    )
  ]

-- The next version is above every version of the id.
abbrev pub Above : Option String → ℕ → List Row → Type 0
Above id n = All (λ r. same_id r.id id ≡ true → version_of r < n)

next_version-le : (n : ℕ) (id : Option String) (rs : List Row) → n ≤ next_version_from n id rs
unfolding next_version_from
next_version-le n id [] = omega arith
next_version-le n id (r ∷ rs) = elim (Bool-cases (same_id r.id id && not (ltb (version_of r) n))) [
  | inl up ↦ rw up (
      let above : n ≤ version_of r = ground arith in
      omega (arith, next_version-le (suc (version_of r)) id rs))
  | inr stay ↦ rw stay (next_version-le n id rs)
]

pub next_version-Above :
    (n : ℕ) (id : Option String) (rs : List Row) → Above id (next_version_from n id rs) rs
unfolding next_version_from
next_version-Above n id [] = tt
next_version-Above n id (r ∷ rs) =
    elim (Bool-cases (same_id r.id id && not (ltb (version_of r) n))) [
      | inl up ↦
          let step : next_version_from n id (r ∷ rs)
              ≡ next_version_from (suc (version_of r)) id rs =
            rw (up, next_version_from) in
          subst (λ m. Above id m (r ∷ rs)) (sym step)
            (
              (λ _. next_version-le (suc (version_of r)) id rs),
              next_version-Above (suc (version_of r)) id rs,
            )
      | inr stay ↦
          let step : next_version_from n id (r ∷ rs) ≡ next_version_from n id rs =
            rw (stay, next_version_from) in
          subst (λ m. Above id m (r ∷ rs)) (sym step)
            (
              (λ s.
                  let below : version_of r < n = ground arith in
                  omega (arith, next_version-le n id rs)),
              next_version-Above n id rs,
            )
    ]
