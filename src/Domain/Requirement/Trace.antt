-- ===== src/Domain/Requirement/Trace.antt =====
-- Sequences of calls of the operations of requirement.rs.
use north.Common.{suc, ◌≡◌, refl, ◌⊎◌, inl, ◌<◌, List, [], ◌∷◌, Bool, false, is_ok, Result, arith}
use north.Domain.Assessment.{ReadinessAssessment}
use north.Domain.Requirement
use north.Domain.Requirement.{Requirement, RequirementEdit}

pub data Operation : Type 0 where
  begin_discussion accept reject request_changes reopen : Operation
  mark_ready : ReadinessAssessment → Operation
  apply_edit : RequirementEdit → Operation

abbrev outcome {ℓ} : {A E : Type ℓ} → Requirement × Result A E → Requirement × Bool
outcome (r, result) = (r, is_ok result)

-- The requirement that a call leaves, and whether the call succeeded.
unfoldable pub perform : Operation → Requirement → Requirement × Bool
unfolding Requirement.begin_discussion Requirement.accept Requirement.reject
    Requirement.request_changes Requirement.reopen Requirement.mark_ready Requirement.apply_edit
perform begin_discussion r = outcome (Requirement.begin_discussion r)
perform accept r = outcome (Requirement.accept r)
perform reject r = outcome (Requirement.reject r)
perform request_changes r = outcome (Requirement.request_changes r)
perform reopen r = outcome (Requirement.reopen r)
perform (mark_ready a) r = outcome (Requirement.mark_ready a r)
perform (apply_edit e) r = outcome (Requirement.apply_edit e r)

unfoldable pub run : List Operation → Requirement → Requirement
run [] r = r
run (op ∷ ops) r = run ops (perform op r).0

-- A call that fails leaves the requirement as it was.
perform_fails_unchanged :
    (op : Operation) (r : Requirement) → (perform op r).1 ≡ false → (perform op r).0 ≡ r
unfolding perform
perform_fails_unchanged begin_discussion r h = ground arith
perform_fails_unchanged _ r h = ground arith

-- A call leaves the requirement as it was, or takes its state version up by one.
perform-state_version :
    (op : Operation) (r : Requirement)
    → ((perform op r).0 ≡ r) ⊎ ((perform op r).0.state_version ≡ suc r.state_version)
unfolding perform
perform-state_version begin_discussion r = ground arith
perform-state_version _ r = ground arith

run_cases :
    (ops : List Operation) (s r : Requirement)
    → (s ≡ r) ⊎ (s.state_version ≡ suc r.state_version)
    → (run ops s ≡ s) ⊎ (s.state_version < (run ops s).state_version)
    → (run ops s ≡ r) ⊎ (r.state_version < (run ops s).state_version)
run_cases ops s r first later = ground arith

-- After any calls the requirement is as it was, or its state version has grown: the state version
-- identifies the state.
pub run-state_version :
    (ops : List Operation) (r : Requirement)
    → (run ops r ≡ r) ⊎ (r.state_version < (run ops r).state_version)
unfolding run
run-state_version [] r = inl refl
run-state_version (op ∷ ops) r =
    let s = (perform op r).0 in
    run_cases ops s r (perform-state_version op r) (run-state_version ops s)
