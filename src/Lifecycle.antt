-- ===== src/Lifecycle.antt =====
-- lifecycle.go: approvals, spend bounds and the records of both.
use fabricrunner.Prelude.{Bool, ◌||◌, Text, text_eq, message, Check, fail_if, ℤ, is_neg}
use fabricrunner.Domain.{CostMicros}
use fabricrunner.Content.{ContentManifest}
use fabricrunner.Policy.Scope.{PolicyScope}

pub record ApprovalRequest : Type 0 where
  pub scope : PolicyScope
  pub manifest : ContentManifest

pub record ApprovalDecision : Type 0 where
  pub approved : Bool
  pub actor : Text
  pub reason : Text

pub record ApprovalRecord : Type 0 where
  pub request : ApprovalRequest
  pub decision : ApprovalDecision

pub record SpendBound : Type 0 where
  pub input_tokens : ℤ
  pub output_tokens : ℤ
  pub cost : CostMicros

unfoldable pub validate_bound : SpendBound → Check
validate_bound b =
    fail_if (is_neg b.input_tokens || (is_neg b.output_tokens || is_neg b.cost))
      (message "negative spend bound")

pub record BudgetRecord : Type 0 where
  pub reserved : SpendBound
  pub dimension : Text

pub record CleanupRecord : Type 0 where
  pub failed : Bool
  pub resource : Text
