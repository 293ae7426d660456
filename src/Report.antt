-- ===== src/Report.antt =====
-- crates/netfyr-backend/src/report.rs: errors, and what an execution or a preview reports.
use netfyr.Base.{
  ℕ, String, Bool, true, false, not, ◌&&◌, ◌||◌, Option, none, some, List, map, is_nil, any,
  if◌then◌else◌,
}
use netfyr.Base.Int.{ℤ, pos, same_int}
use netfyr.Base.Text.{◌<>◌, decimal}
use netfyr.Value.{display_int}
use netfyr.Plan.{InterfaceId, Operation, OperationKind, Diagnostic, FieldChange, kind_name}

pub data BackendErrorKind : Type 0 where
  unsupported_entity_type unsupported_operation query_failed apply_failed : BackendErrorKind
  outcome_unknown not_found permission_denied stale_state conflict internal : BackendErrorKind

-- `{:?}`
unfoldable pub error_kind_text : BackendErrorKind → String
error_kind_text unsupported_entity_type = "UnsupportedEntityType"
error_kind_text unsupported_operation = "UnsupportedOperation"
error_kind_text query_failed = "QueryFailed"
error_kind_text apply_failed = "ApplyFailed"
error_kind_text outcome_unknown = "OutcomeUnknown"
error_kind_text not_found = "NotFound"
error_kind_text permission_denied = "PermissionDenied"
error_kind_text stale_state = "StaleState"
error_kind_text conflict = "Conflict"
error_kind_text internal = "Internal"

pub record OperationContext : Type 0 where
  pub index : ℕ
  pub target : InterfaceId
  pub kind : OperationKind

abbrev pub context_of : ℕ → Operation → OperationContext
context_of index op = record { index = index; target = op.target; kind = op.kind }

pub record BackendError : Type 0 where
  pub kind : BackendErrorKind
  pub message : String
  pub errno : Option ℤ
  pub extack : Option String
  pub context : Option OperationContext

-- `BackendError::new`
abbrev pub backend_error : BackendErrorKind → String → BackendError
backend_error kind message = record {
  kind = kind;
  message = message;
  errno = none;
  extack = none;
  context = none;
}

-- The kind that an OS error number stands for on Linux: EPERM 1, EACCES 13; ENODEV 19, ENXIO 6,
-- ENOENT 2.
unfoldable pub errno_kind : BackendErrorKind → Option ℤ → BackendErrorKind
errno_kind fallback none = fallback
errno_kind fallback (some e) =
    if same_int e (pos 1) || same_int e (pos 13)
    then permission_denied
    else if same_int e (pos 19) || same_int e (pos 6) || same_int e (pos 2)
    then not_found
    else fallback

-- `BackendError::from_io`, from the error's `raw_os_error` and its text.
unfoldable pub from_io : BackendErrorKind → Option ℤ → String → BackendError
from_io fallback errno text = record (backend_error (errno_kind fallback errno) text) {
  errno = errno;
}

-- `BackendError::at`
abbrev pub at_context : BackendError → OperationContext → BackendError
at_context e c = record e { context = some c }

abbrev context_text : Option OperationContext → String
context_text none = ""
context_text (some c) =
    "operation " <> decimal c.index <> " (" <> kind_name c.kind <> " on " <> c.target.name <> "): "

abbrev errno_text : Option ℤ → String
errno_text none = ""
errno_text (some e) = " (errno " <> display_int e <> ")"

abbrev extack_text : Option String → String
extack_text none = ""
extack_text (some e) = ": " <> e

-- `impl Display for BackendError`
unfoldable pub backend_error_text : BackendError → String
unfolding error_kind_text
backend_error_text e =
    context_text e.context
    <> error_kind_text e.kind
    <> ": "
    <> e.message
    <> errno_text e.errno
    <> extack_text e.extack

pub data SkipReason : Type 0 where
  already_satisfied read_only : SkipReason
  dependency_failed : (operations : List ℕ) → SkipReason

pub record FailedOperation : Type 0 where
  pub context : OperationContext
  pub error : BackendError

pub record SkippedOperation : Type 0 where
  pub context : OperationContext
  pub reason : SkipReason

pub record ApplyReport : Type 0 where
  pub succeeded : List OperationContext
  pub failed : List FailedOperation
  pub skipped : List SkippedOperation
  pub diagnostics : List Diagnostic

pub data PlannedStatus : Type 0 where
  write fail : PlannedStatus
  skip : SkipReason → PlannedStatus

pub record PlannedOperation : Type 0 where
  pub context : OperationContext
  pub status : PlannedStatus

pub record DryRunReport : Type 0 where
  pub changes : List FieldChange
  pub operations : List PlannedOperation
  pub diagnostics : List Diagnostic
  pub failed : List FailedOperation

abbrev pub is_blocked : Option SkipReason → Bool
is_blocked (some (dependency_failed ops)) = true
is_blocked other = false

unfoldable pub no_failures : List FailedOperation → List (Option SkipReason) → Bool
no_failures failed skips = is_nil failed && not (any is_blocked skips)

-- `ApplyReport::is_success`
unfoldable pub apply_is_success : ApplyReport → Bool
apply_is_success r = no_failures r.failed (map (λ (s : SkippedOperation). some s.reason) r.skipped)

abbrev pub status_skip : PlannedStatus → Option SkipReason
status_skip (skip reason) = some reason
status_skip other = none

-- `DryRunReport::is_success`
unfoldable pub dry_run_is_success : DryRunReport → Bool
dry_run_is_success r =
    no_failures r.failed (map (λ (p : PlannedOperation). status_skip p.status) r.operations)
