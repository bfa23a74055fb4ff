-- ===== src/Runtime/Row.antt =====
-- A row of the runtime-state sidecar and its fingerprint
-- (tools/learning-loop-mastra/core/runtime-state.js).
use Prim.Native.String.{◌++◌ as str_append}
use learning_loop_template.Base.{
  ℕ, String, Bool, true, false, ◌≡◌, Option, none, some, Text, codes, [], str_eq, eq_refl,
}

pub data RowKind : Type 0 where
  ledger_event budget_state : RowKind
  other_kind : String → RowKind

pub data RowStatus : Type 0 where
  initial active paused stopped : RowStatus
  other_status : String → RowStatus

pub data Durability : Type 0 where
  durable ephemeral : Durability

-- `value`, `delta` and `metadata` are the texts that the fingerprint takes: of the template literal,
-- and of the canonical JSON. A missing or unparseable version is `none`.
pub record Row : Type 0 where
  pub affected_system : String
  pub kind : Option RowKind
  pub id : Option String
  pub source_ref : String
  pub value : String
  pub delta : String
  pub timestamp : Option String
  pub status : Option RowStatus
  pub metadata : String
  pub durability : Option Durability
  pub version : Option ℕ
  pub fingerprint : Option String

-- The parsed version, or 0.
abbrev pub version_of : Row → ℕ
version_of r = elim r.version [ none ↦ 0 | some v ↦ v ]

-- Template literals show a missing value as "undefined".
abbrev kind_text : Option RowKind → String
kind_text none = "undefined"
kind_text (some ledger_event) = "ledger-event"
kind_text (some budget_state) = "budget-state"
kind_text (some (other_kind k)) = k

abbrev text_of : Option String → String
text_of none = "undefined"
text_of (some t) = t

-- `String(row.timestamp ?? "")`, as code units.
abbrev pub timestamp_key : Row → Text
timestamp_key r = elim r.timestamp [ none ↦ [] | some t ↦ codes t ]

-- `${a}|${b}`
infixr 20 ◌bar◌
abbrev ◌bar◌ : String → String → String
a bar b = str_append a (str_append "|" b)

-- `sha256` is the digest of node:crypto.
module _ (sha256 : String → String) where
  unfoldable pub compute_fingerprint : Row → String
  compute_fingerprint r = str_append "sha256:" (
      sha256 (
        r.affected_system
        bar kind_text r.kind
        bar text_of r.id
        bar r.source_ref
        bar r.value
        bar r.delta
        bar text_of r.timestamp
        bar r.metadata))

  unfoldable pub verify_row : Row → Bool
  verify_row r = elim r.fingerprint [ none ↦ false | some f ↦ str_eq (compute_fingerprint r) f ]

  -- The row with the fingerprint filled in.
  abbrev pub with_fingerprint : Row → Row
  with_fingerprint r = record r { fingerprint = some (compute_fingerprint r) }

  -- A row that was given its fingerprint verifies, and goes on to verify when its status, version or
  -- durability is changed afterwards: the fingerprint does not cover these three fields.
  pub verify_row-with_fingerprint :
      (r : Row) (st : Option RowStatus) (v : Option ℕ) (d : Option Durability)
      → verify_row (record (with_fingerprint r) { status = st; version = v; durability = d }) ≡ true
  unfolding verify_row compute_fingerprint
  verify_row-with_fingerprint r st v d = eq_refl _
