-- ===== src/Domain/Requirement/Edits.antt =====
-- What an edit does to the content and the versions.
use north.Common.{
  ℕ, ap, sym, ◌∙◌, ◌≤◌, if◌then◌else◌, Bool-cases, ◌&&◌, ◌+◌, ◌<◌, ◌≡◌, ◌≢◌, ◌⊎◌, inl, inr, List,
  Bool, true, false, String, ok, err, u64_max, arith, str_eq, strs_eq, strs_eq_sound, strs_eq_refl,
  eq_iff,
}
use north.Domain.Status.{status_eq, discussing, ready}
use north.Domain.Requirement.{
  Requirement, RequirementEdit, refuses_edits, apply_edit, candidate, same_content, unwrap_or,
  version_exhausted,
}

-- The canonical content.
pub record Content : Type 0 where
  pub title : String
  pub description : String
  pub summary : String
  pub acceptance_criteria : List String
  pub assumptions : List String
  pub open_questions : List String

abbrev pub content : Requirement → Content
content r = record {
  title = r.title;
  description = r.description;
  summary = r.summary;
  acceptance_criteria = r.acceptance_criteria;
  assumptions = r.assumptions;
  open_questions = r.open_questions;
}

-- The content that an edit asks for.
abbrev pub overlay : RequirementEdit → Content → Content
overlay e c = record {
  title = unwrap_or e.title c.title;
  description = unwrap_or e.description c.description;
  summary = unwrap_or e.summary c.summary;
  acceptance_criteria = unwrap_or e.acceptance_criteria c.acceptance_criteria;
  assumptions = unwrap_or e.assumptions c.assumptions;
  open_questions = unwrap_or e.open_questions c.open_questions;
}

abbrev contents_eq : Content → Content → Bool
contents_eq c d =
    str_eq c.title d.title
    && str_eq c.description d.description
    && str_eq c.summary d.summary
    && strs_eq c.acceptance_criteria d.acceptance_criteria
    && strs_eq c.assumptions d.assumptions
    && strs_eq c.open_questions d.open_questions

contents_eq_sound : (c d : Content) → contents_eq c d ≡ true → c ≡ d
contents_eq_sound c d h = ground (
  arith,
  eq_iff c.title d.title,
  eq_iff c.description d.description,
  eq_iff c.summary d.summary,
  strs_eq_sound c.acceptance_criteria d.acceptance_criteria,
  strs_eq_sound c.assumptions d.assumptions,
  strs_eq_sound c.open_questions d.open_questions,
)

contents_eq_refl : (c : Content) → contents_eq c c ≡ true
contents_eq_refl c = ground (
  arith,
  eq_iff c.title c.title,
  eq_iff c.description c.description,
  eq_iff c.summary c.summary,
  strs_eq_refl c.acceptance_criteria,
  strs_eq_refl c.assumptions,
  strs_eq_refl c.open_questions,
)

-- The comparison of the code decides whether the edit asks for the content that is there.
same_candidate :
    (e : RequirementEdit) (r : Requirement)
    → overlay e (content r) ≡ content r
    → same_content (candidate e r) r ≡ true
unfolding same_content candidate
same_candidate e r h =
    let f : Content → Bool = λ c. contents_eq c (content r) in ap f h ∙ contents_eq_refl (content r)

other_candidate :
    (e : RequirementEdit) (r : Requirement)
    → overlay e (content r) ≢ content r
    → same_content (candidate e r) r ≡ false
unfolding same_content candidate
other_candidate e r h = elim (Bool-cases (contents_eq (overlay e (content r)) (content r))) [
  | inl same ↦ absurd (h (contents_eq_sound (overlay e (content r)) (content r) same))
  | inr other ↦ other
]

-- An edit that asks for the content that is there is a no-op that returns the revision.
apply_edit_same :
    (e : RequirementEdit) (r : Requirement)
    → refuses_edits r.status ≡ false
    → overlay e (content r) ≡ content r
    → apply_edit e r ≡ (r, ok r.revision)
apply_edit_same e r open_ h = unfold apply_edit in ground (arith, same_candidate e r h)

-- An edit that asks for other content gets exactly that content, takes both versions up by one,
-- returns the new revision, and demotes a ready requirement to discussing; the identity stays.
pub apply_edit_changes :
    (e : RequirementEdit) (r : Requirement)
    → refuses_edits r.status ≡ false
    → overlay e (content r) ≢ content r
    → r.revision < u64_max
    → r.state_version < u64_max
    → let (s, result) = apply_edit e r in
      (result ≡ ok (r.revision + 1))
      × (content s ≡ overlay e (content r))
      × (s.revision ≡ r.revision + 1)
      × (s.state_version ≡ r.state_version + 1)
      × (s.status ≡ (if status_eq r.status ready then discussing else r.status))
      × (s.id ≡ r.id)
      × (s.created_by ≡ r.created_by)
unfolding apply_edit
apply_edit_changes e r open_ h hr hv = ground (arith, other_candidate e r h)

-- An edit that would count a version past the last `u64` is refused and changes nothing.
pub apply_edit_exhausted :
    (e : RequirementEdit) (r : Requirement)
    → refuses_edits r.status ≡ false
    → overlay e (content r) ≢ content r
    → (u64_max ≤ r.revision) ⊎ (u64_max ≤ r.state_version)
    → apply_edit e r ≡ (r, err version_exhausted)
unfolding apply_edit
apply_edit_exhausted e r open_ h full = ground (arith, other_candidate e r h)

same_candidate-eq :
    (e : RequirementEdit) (r : Requirement)
    → same_content (candidate e r) r ≡ true
    → overlay e (content r) ≡ content r
unfolding same_content candidate
same_candidate-eq e r h = contents_eq_sound (overlay e (content r)) (content r) h

apply_edit-content :
    (e : RequirementEdit) (r : Requirement) (s : Requirement) (v : ℕ)
    → apply_edit e r ≡ (s, ok v)
    → (overlay e (content r) ≡ content s) × (refuses_edits s.status ≡ false)
unfolding apply_edit
apply_edit-content e r s v h = elim (Bool-cases (same_content (candidate e r) r)) [
  | inl same ↦ ground (arith, same_candidate-eq e r same)
  | inr other ↦ ground arith
]

overlay_twice : (e : RequirementEdit) (c : Content) → overlay e (overlay e c) ≡ overlay e c
overlay_twice e c = ground arith

-- An edit that went through does nothing the second time.
pub apply_edit_twice :
    (e : RequirementEdit) (r : Requirement) (s : Requirement) (v : ℕ)
    → apply_edit e r ≡ (s, ok v)
    → apply_edit e s ≡ (s, ok s.revision)
apply_edit_twice e r s v h =
    let (asked, editable) = apply_edit-content e r s v h in
    apply_edit_same e s editable (ap (overlay e) (sym asked) ∙ overlay_twice e (content r) ∙ asked)
