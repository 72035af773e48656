-- ===== src/Domain/Requirement/Evidence.antt =====
-- A requirement is ready only on the evidence of an assessment of its present content.
use mathlib.Core.List.{Memᴰ}
use north.Common.{◌∙◌, ◌≡◌, refl, ◌⊎◌, inl, inr, List, [], ◌∷◌, false, String, arith}
use north.Domain.Status.{ready}
use north.Domain.Assessment.{ReadinessAssessment, Verdict}
use north.Domain.Requirement.{Requirement, new, lacks_criteria}
use north.Domain.Requirement.Trace.{Operation, begin_discussion, mark_ready, perform, run}

-- The readiness gates: the assessment is of this very revision, its verdict is ready, it has no
-- blockers, and the requirement has an acceptance criterion that is not blank.
pub record Gates (a : ReadinessAssessment) (r : Requirement) : Type 0 where
  pub current : a.requirement_revision ≡ r.revision
  pub claims : a.verdict ≡ Verdict.ready
  pub unblocked : a.blockers ≡ []
  pub criteria : lacks_criteria r.acceptance_criteria ≡ false

abbrev pub IsBacked : List Operation → Requirement → Type 0
IsBacked ops r = (a : ReadinessAssessment) × Memᴰ (mark_ready a) ops × Gates a r

mark_ready-Gates :
    (a : ReadinessAssessment) (r : Requirement)
    → (perform (mark_ready a) r).0.status ≡ ready
    → ((r.status ≡ ready) × ((perform (mark_ready a) r).0 ≡ r))
      ⊎ Gates a (perform (mark_ready a) r).0
unfolding perform
mark_ready-Gates a r h = ground arith

IsBacked-by :
    (a : ReadinessAssessment) (r s : Requirement)
    → ((r.status ≡ ready) × (s ≡ r)) ⊎ Gates a s
    → ((r.status ≡ ready) × (s ≡ r)) ⊎ IsBacked (mark_ready a ∷ []) s
IsBacked-by a r s (inl same) = inl same
IsBacked-by a r s (inr gates) = inr (a, Memᴰ.head refl, gates)

-- One call that ends in ready: the requirement was ready and is unchanged, or it is backed.
perform-ready :
    (op : Operation) (r : Requirement)
    → (perform op r).0.status ≡ ready
    → ((r.status ≡ ready) × ((perform op r).0 ≡ r)) ⊎ IsBacked (op ∷ []) (perform op r).0
perform-ready (mark_ready a) r h =
    IsBacked-by a r (perform (mark_ready a) r).0 (mark_ready-Gates a r h)
perform-ready begin_discussion r h = unfold perform in ground arith
perform-ready _ r h = unfold perform in ground arith

weaken :
    (op : Operation) (ops : List Operation) (r : Requirement)
    → IsBacked ops r
    → IsBacked (op ∷ ops) r
weaken op ops r (a, m, gates) = (a, Memᴰ.tail m, gates)

in_front :
    (op : Operation) (ops : List Operation) (r : Requirement)
    → IsBacked (op ∷ []) r
    → IsBacked (op ∷ ops) r
in_front op ops r (a, Memᴰ.head e, gates) = (a, Memᴰ.head e, gates)
in_front op ops r (a, Memᴰ.tail m, gates) = elim m [ ]

-- A requirement that is ready after some calls was ready before them and is unchanged, or one of
-- the calls was `mark_ready` with an assessment that passes every gate of the requirement as it is
-- now.
run_ready :
    (ops : List Operation) (r : Requirement)
    → (run ops r).status ≡ ready
    → ((r.status ≡ ready) × (run ops r ≡ r)) ⊎ IsBacked ops (run ops r)
unfolding run
run_ready [] r h = inl (h, refl)
run_ready (op ∷ ops) r h = elim (run_ready ops (perform op r).0 h) [
  | inr later ↦ inr (weaken op ops (run ops (perform op r).0) later)
  | inl (was, same) ↦ elim (perform-ready op r was) [
    | inl (before, kept) ↦ inl (before, same ∙ kept)
    | inr backed ↦ inr (rw same (in_front op ops (perform op r).0 backed))
  ]
]

-- A requirement that was made by `new` and is ready rests on a `mark_ready` call whose assessment
-- is of its present revision, with a ready verdict and no blockers, and it has a criterion.
pub run-new-ready :
    (ops : List Operation) (id title description created_by : String)
    → (run ops (new id title description created_by)).status ≡ ready
    → IsBacked ops (run ops (new id title description created_by))
run-new-ready ops id title description created_by h =
    elim (run_ready ops (new id title description created_by) h) [
      | inl (was, _) ↦ absurd (unfold new in ground arith)
      | inr backed ↦ backed
    ]
