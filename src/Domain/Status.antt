-- ===== src/Domain/Status.antt =====
-- crates/north-domain/src/status.rs: the requirement lifecycle.
use north.Common.{Bool, true, false, String}

pub data RequirementStatus : Type 0 where
  draft discussing ready accepted rejected : RequirementStatus

-- The derived `PartialEq`.
abbrev pub status_eq : RequirementStatus → RequirementStatus → Bool
status_eq draft draft = true
status_eq discussing discussing = true
status_eq ready ready = true
status_eq accepted accepted = true
status_eq rejected rejected = true
status_eq _ _ = false

unfoldable pub as_str : RequirementStatus → String
as_str draft = "draft"
as_str discussing = "discussing"
as_str ready = "ready"
as_str accepted = "accepted"
as_str rejected = "rejected"

unfoldable pub can_transition_to : RequirementStatus → RequirementStatus → Bool
can_transition_to draft discussing = true
can_transition_to discussing ready = true
can_transition_to ready discussing = true
can_transition_to ready accepted = true
can_transition_to ready rejected = true
can_transition_to rejected discussing = true
can_transition_to _ _ = false

pub record InvalidTransition : Type 0 where
  pub source : RequirementStatus
  pub to : RequirementStatus
