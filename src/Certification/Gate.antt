-- ===== src/Certification/Gate.antt =====
-- services/certification_service.py: which reports are certified, and what their trail says.
use bhiv_masterdb_ingestion.Prelude.{
  ◌≡◌, ◌∙◌, ap, sym, subst, refl, inl, inr, Bool, true, not, ◌&&◌, some, List, [], ◌∷◌, ◌++◌, arith,
  Key, if◌then◌else◌, Bool-cases,
}
use bhiv_masterdb_ingestion.Certification.{
  CertificationState, new, validated, verified, certified, rejected, is_certified, is_rejected,
  TransitionRecord, IngestionDecision, Report, passes_verification, is_clean, state_of, decide,
  certify_report, Progress, Reason, transition, recertify, first_certify, second_gate, is_verified,
  validation_score_and_risk_gate, masterdb_certification_gate, meets_verification_gates,
  trusted_and_eligible,
}

decide-state :
    (r : Report)
    → (decide r).state ≡ (
        if not (is_rejected (state_of r)) && passes_verification r && is_clean r
        then certified
        else rejected)
decide-state r = ground arith

-- A report is found eligible exactly if it has not been rejected before and passes the verification
-- and the certification gate now, from whichever other state it comes; and the report then is
-- CERTIFIED, and otherwise REJECTED.
pub certify_report-eligible :
    (r : Report)
    → let passes = not (is_rejected (state_of r)) && passes_verification r && is_clean r in
      ((d : IngestionDecision) × ((certify_report r).ingestion_decision ≡ some d)
        × (d.eligible_for_masterdb ≡ passes)
        × (d.state ≡ (if passes then certified else rejected)))
      × (state_of (certify_report r) ≡ (if passes then certified else rejected))
unfolding certify_report
certify_report-eligible r =
    ((_, refl, rw (decide-state r) (ground arith), decide-state r), decide-state r)

-- Certifying again changes neither the state nor the audit trail.
pub certify_report_again :
    (r : Report)
    → (state_of (certify_report (certify_report r)) ≡ state_of (certify_report r))
      × ((certify_report (certify_report r)).audit_trail ≡ (certify_report r).audit_trail)
unfolding certify_report
certify_report_again r = ground arith

-- From a state, each record goes on from where the one before arrived, and the last arrives here.
abbrev pub Links : CertificationState → List TransitionRecord → CertificationState → Type 0
Links s [] end = s ≡ end
Links s (t ∷ ts) end = (t.from_state ≡ s) × Links t.to_state ts end

Links-append :
    (a b c : CertificationState) (xs ys : List TransitionRecord)
    → Links a xs b
    → Links b ys c
    → Links a (xs ++ ys) c
Links-append a b c [] ys h k = subst (λ s. Links s ys c) (sym h) k
Links-append a b c (x ∷ xs) ys (link, h) k = (link, Links-append x.to_state b c xs ys h k)

-- What takes one progress to another has added linked records to its trail.
abbrev Adds : Progress → Progress → Type 0
Adds p q =
    (added : List TransitionRecord) × (q.audit ≡ p.audit ++ added) × Links p.state added q.state

append_nil : (xs : List TransitionRecord) → xs ≡ xs ++ []
append_nil [] = refl
append_nil (x ∷ xs) = ap (λ ys. x ∷ ys) (append_nil xs)

Adds-refl : (p : Progress) → Adds p p
Adds-refl p = ([], append_nil p.audit, refl)

append_assoc : (xs ys zs : List TransitionRecord) → (xs ++ ys) ++ zs ≡ xs ++ (ys ++ zs)
append_assoc [] ys zs = refl
append_assoc (x ∷ xs) ys zs = ap (λ us. x ∷ us) (append_assoc xs ys zs)

Adds-trans : (p q r : Progress) → Adds p q → Adds q r → Adds p r
Adds-trans p q r (xs, a, h) (ys, b, k) = (
  xs ++ ys,
  b ∙ ap (λ us. us ++ ys) a ∙ append_assoc p.audit xs ys,
  Links-append p.state q.state r.state xs ys h k,
)

transition-Adds :
    (success : CertificationState) (rule : Key) (passed : Bool) (reason : Reason) (p : Progress)
    → Adds p (transition success rule passed reason p)
transition-Adds success rule passed reason p = elim (Bool-cases (is_rejected p.state)) [
  | inl stays ↦ rw (stays, if◌then◌else◌) (Adds-refl p)
  | inr moves ↦ rw (moves, if◌then◌else◌) (_, refl, (refl, refl))
]

recertify-Adds : (r : Report) (p : Progress) → p.state ≡ certified → Adds p (recertify r p)
recertify-Adds r p h = elim (Bool-cases (passes_verification r && is_clean r)) [
  | inl stays ↦ rw (stays, if◌then◌else◌) (Adds-refl p)
  | inr falls ↦ rw (falls, if◌then◌else◌) (_, refl, (sym h, refl))
]

is_certified→certified : (s : CertificationState) → is_certified s ≡ true → s ≡ certified
is_certified→certified new h = cc
is_certified→certified validated h = cc
is_certified→certified verified h = cc
is_certified→certified certified h = refl
is_certified→certified rejected h = cc

-- The audit trail is never rewritten: `certify` adds records that lead from the state of the report
-- to its new state.
pub certify_report-Links :
    (r : Report)
    → (added : List TransitionRecord) × ((certify_report r).audit_trail ≡ r.audit_trail ++ added)
      × Links (state_of r) added (state_of (certify_report r))
unfolding certify_report
certify_report-Links r =
    let p : Progress = record {
      state = state_of r;
      audit = r.audit_trail;
      rejection_reasons = [];
    } in
    elim (Bool-cases (is_certified (state_of r))) [
      | inl was_certified ↦
          let shape : decide r ≡ recertify r p = ground arith in
          rw shape (recertify-Adds r p (is_certified→certified (state_of r) was_certified))
      | inr not_yet ↦ elim (Bool-cases (is_rejected (state_of r))) [
        | inl out ↦ let shape : decide r ≡ p = ground arith in rw shape (Adds-refl p)
        | inr goes_on ↦
            let shape : decide r ≡ first_certify r p = ground arith in
            let middle : Progress =
              transition verified validation_score_and_risk_gate (passes_verification r)
                meets_verification_gates p in
            rw shape (
              Adds-trans p middle (second_gate r middle)
                (transition-Adds verified validation_score_and_risk_gate (passes_verification r)
                  meets_verification_gates p)
                (transition-Adds certified masterdb_certification_gate
                  (is_verified middle.state && is_clean r) trusted_and_eligible middle))
      ]
    ]
