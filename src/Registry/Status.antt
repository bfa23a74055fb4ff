-- ===== src/Registry/Status.antt =====
-- The derived status of an entry (tools/learning-loop-mastra/core/constants.js: `isOpen`; core/
-- stale-view.js: `isStaleView`; core/derive-status.js: `deriveStatus`). What the file system, the two
-- maps of hashes at the entry's canonical key, and `Date` answer are arguments.
pub mod Laws
use learning_loop_template.Base.{
  ℕ, ◌+◌, String, Bool, true, false, not, ◌&&◌, ◌||◌, Option, none, some, List, [], ◌∷◌, ltb, leb,
  if◌then◌else◌, str_eq, Text, codes, text_eq, ◌==◌, length,
}
use learning_loop_template.Registry.Entry.{Entry, Status, resolved, accepted, archived, superseded}

unfoldable pub is_open : Option Status → Bool
is_open (some resolved) = false
is_open (some superseded) = false
is_open (some accepted) = false
is_open (some archived) = false
is_open _ = true

-- `TERMINAL_RAW_STATUSES.has(rawStatus)`
unfoldable pub is_terminal_raw : Option Status → Bool
is_terminal_raw (some resolved) = true
is_terminal_raw (some superseded) = true
is_terminal_raw (some accepted) = true
is_terminal_raw _ = false

pub data DerivationKind : Type 0 where
  mechanism_shipped code_only code_missing no_signals : DerivationKind

pub data DerivedStatus : Type 0 where
  resolved_by_mechanism active_no_signal active_uncertain : DerivedStatus

pub data Recommendation : Type 0 where
  no_action resolve investigate re_verify : Recommendation

-- The report, with `none` for the raw status "unknown" and for a signal that is null or missing; the
-- paths and the times in it are left out.
pub record Derived : Type 0 where
  pub id : String
  pub raw_status : Option Status
  pub derived_status : DerivedStatus
  pub kind : DerivationKind
  pub drift : Bool
  pub recommendation : Recommendation
  pub code_ref_exists : Option Bool
  pub test_file_exists : Option Bool
  pub test_passed : Option Bool

-- `entry.last_verified_at || entry.created_at`
abbrev pub reference_text : Entry → Option Text
reference_text e = elim e.last_verified_at [
  | none ↦ e.created_at
  | some t ↦ elim t [ [] ↦ e.created_at | c ∷ cs ↦ some (c ∷ cs) ]
]

-- `get_time` is `new Date(text).getTime()`, `none` for NaN; an empty text is falsy.
unfoldable pub reference_time : (Text → Option ℕ) → Entry → Option ℕ
reference_time get_time e = elim (reference_text e) [
  | none ↦ none
  | some t ↦ elim t [ [] ↦ none | c ∷ cs ↦ get_time (c ∷ cs) ]
]

abbrev is_hex : ℕ → Bool
is_hex c = (leb b'0' c && leb c b'9') || (leb b'a' c && leb c b'f')

unfoldable pub all_hex : Text → Bool
all_hex [] = true
all_hex (c ∷ cs) = is_hex c && all_hex cs

unfoldable pub after_prefix : Text → Text → Option Text
after_prefix [] t = some t
after_prefix (a ∷ as') [] = none
after_prefix (a ∷ as') (c ∷ cs) = if a == c then after_prefix as' cs else none

-- `/^sha256:[a-f0-9]{64}$/`
unfoldable pub is_terminal_hash : String → Bool
unfolding all_hex after_prefix
is_terminal_hash h = elim (after_prefix (codes "sha256:") (codes h)) [
  | none ↦ false
  | some t ↦ length t == 64 && all_hex t
]

abbrev valid_hash : Option String → Option String
valid_hash none = none
valid_hash (some h) = if is_terminal_hash h then some h else none

-- `index` is the hash of the file index at the key of the entry, if there is one.
unfoldable pub stored_hash : Option String → Entry → Option String
stored_hash index e = elim (valid_hash index) [
  | some b ↦ some b
  | none ↦ valid_hash e.code_fingerprint
]

abbrev pub differ : Option String → Option String → Bool
differ (some a) (some b) = not (str_eq a b)
differ _ _ = false

unfoldable pub has_drifted : Option String → Option String → Entry → Bool
has_drifted index current e = elim e.evidence_code_ref [
  | none ↦ false
  | some r ↦ differ current (stored_hash index e)
]

-- What `isStaleView` and `deriveStatus` are given besides the entry. `exists_at` is `none` where the
-- path escapes from the root, at which `deriveStatus` throws.
pub record Context : Type 0 where
  pub window : ℕ
  pub get_time : Text → Option ℕ
  pub index : Option String
  pub current : Option String
  pub exists_at : String → Option Bool
  pub test_passed : Option Bool

unfoldable pub is_stale_view : Context → ℕ → Entry → Bool
is_stale_view x now e = is_open e.status && elim (reference_time x.get_time e) [
  | none ↦ false
  | some t ↦ ltb (t + x.window) now || has_drifted x.index x.current e
]

-- `codeRef ? checkExists(root, codeRef) : null`, with the exception as the outer `none`.
unfoldable pub check_signal : Context → Option String → Option (Option Bool)
check_signal x none = some none
check_signal x (some p) =
    if str_eq p "" then some none else elim (x.exists_at p) [ none ↦ none | some b ↦ some (some b) ]

abbrev is_false : Option Bool → Bool
is_false (some false) = true
is_false _ = false

abbrev is_true : Option Bool → Bool
is_true (some true) = true
is_true _ = false

abbrev is_missing : Option String → Bool
is_missing none = true
is_missing (some p) = false

unfoldable pub compute_kind :
    Option Bool → Option Bool → Option String → Option String → DerivationKind
compute_kind code_ref_exists test_passed code_ref test_path =
    if is_missing code_ref && is_missing test_path
    then no_signals
    else if is_false code_ref_exists
    then code_missing
    else if is_true test_passed
    then mechanism_shipped
    else code_only

unfoldable pub compute_derived_status : DerivationKind → DerivedStatus
compute_derived_status mechanism_shipped = resolved_by_mechanism
compute_derived_status code_only = active_uncertain
compute_derived_status _ = active_no_signal

unfoldable pub compute_recommendation : Bool → Bool → DerivationKind → Recommendation
compute_recommendation is_live stale_view kind = if not is_live then no_action else elim kind [
  | mechanism_shipped ↦ if stale_view then re_verify else resolve
  | code_missing ↦ investigate
  | code_only ↦ investigate
  | no_signals ↦ no_action
]

unfoldable pub compute_drift : DerivedStatus → Option Status → Bool
compute_drift resolved_by_mechanism raw = not (is_terminal_raw raw)
compute_drift _ raw = false

unfoldable pub assemble : Context → ℕ → Entry → Option Bool → Option Bool → Derived
assemble x now e code_ref_exists test_file_exists =
    let kind = compute_kind code_ref_exists x.test_passed e.evidence_code_ref e.evidence_test in
    record {
      id = e.id;
      raw_status = e.status;
      derived_status = compute_derived_status kind;
      kind = kind;
      drift = compute_drift (compute_derived_status kind) e.status;
      recommendation = compute_recommendation (is_open e.status) (is_stale_view x now e) kind;
      code_ref_exists = code_ref_exists;
      test_file_exists = test_file_exists;
      test_passed = x.test_passed;
    }

-- `none`: an exception.
unfoldable pub derive_status : Context → ℕ → Entry → Option Derived
derive_status x now e = elim (check_signal x e.evidence_code_ref) [
  | none ↦ none
  | some c ↦ elim (check_signal x e.evidence_test) [
    | none ↦ none
    | some t ↦ some (assemble x now e c t)
  ]
]
