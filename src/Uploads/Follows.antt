-- ===== src/Uploads/Follows.antt =====
-- upload/models.py: ways along `UPLOAD_LIFECYCLE_GRAPH`, and stores whose jobs take such ways.
use bhiv_masterdb_ingestion.Prelude.{
  ◌≡◌, refl, ◌∙◌, sym, ap, subst, ◌⊎◌, inl, inr, Bool, true, false, some, List, [], ◌∷◌, Key, arith,
  ◌||◌, ◌==◌, Bool-cases, ==→eq,
}
use bhiv_masterdb_ingestion.Prelude.Dict.{get, put, get-put}
use bhiv_masterdb_ingestion.Uploads.Models.{
  UploadStatus, uploaded, received, validating, validated, rejected, registered, ingested,
  available, same_status, upload_lifecycle_graph, UploadJob,
}
use bhiv_masterdb_ingestion.Uploads.{UploadService}

abbrev pub elem_status : UploadStatus → List UploadStatus → Bool
elem_status t [] = false
elem_status t (u ∷ us) = same_status t u || elem_status t us

-- A way along the edges of the graph.
pub data Leads : UploadStatus → UploadStatus → Type 0 where
  stay : {a : UploadStatus} → Leads a a
  along :
      {a b c : UploadStatus}
      → Leads a b
      → elem_status c (upload_lifecycle_graph b) ≡ true
      → Leads a c

Leads_trans : {a b c : UploadStatus} → Leads a b → Leads b c → Leads a c
Leads_trans h stay = h
Leads_trans h (along k e) = along (Leads_trans h k) e

pub edge : (a b : UploadStatus) → elem_status b (upload_lifecycle_graph a) ≡ true → Leads a b
edge a b e = along stay e

pub same_status→eq : (a b : UploadStatus) → same_status a b ≡ true → a ≡ b
same_status→eq a b h = ground arith

-- Every job that is not rejected can be rejected.
pub to_rejected : (a : UploadStatus) → same_status a rejected ≡ false → Leads a rejected
to_rejected uploaded h = edge uploaded rejected refl
to_rejected received h = edge received rejected refl
to_rejected validating h = edge validating rejected refl
to_rejected validated h = edge validated rejected refl
to_rejected rejected h = stay
to_rejected registered h = edge registered rejected refl
to_rejected ingested h = edge ingested rejected refl
to_rejected available h = edge available rejected refl

-- Each job is stored under its own id.
abbrev pub IsKeyed : UploadService → Type 0
IsKeyed s = (k : Key) (job : UploadJob) → get k s.jobs ≡ some job → job.upload_id ≡ k

-- The jobs are as before, or one of them is replaced by one that its status leads to.
abbrev pub Moves : UploadService → UploadService → Type 0
Moves s s' =
    (s'.jobs ≡ s.jobs)
    ⊎ (job : UploadJob) × (job' : UploadJob) × (get job.upload_id s.jobs ≡ some job)
      × (s'.jobs ≡ put job'.upload_id job' s.jobs)
      × (job'.upload_id ≡ job.upload_id)
      × Leads job.status job'.status

-- What every change keeps: the jobs stay, under their ids, and move along the graph.
pub record Follows (s s' : UploadService) : Type 0 where
  pub keyed : IsKeyed s'
  pub led :
      (k : Key) (job : UploadJob)
      → get k s.jobs ≡ some job
      → (job' : UploadJob) × (get k s'.jobs ≡ some job') × Leads job.status job'.status

pub Follows-refl : (s s' : UploadService) → s'.jobs ≡ s.jobs → IsKeyed s → Follows s s'
Follows-refl s s' e h = record {
  keyed = λ k job found. h k job (ap (get k) (sym e) ∙ found);
  led = λ k job found. (job, ap (get k) e ∙ found, stay);
}

pub Follows-trans : {s s' s'' : UploadService} → Follows s s' → Follows s' s'' → Follows s s''
Follows-trans a b = record {
  keyed = b.keyed;
  led = λ k job found.
      let (job', found', lead) = a.led k job found in
      let (job'', found'', lead') = b.led k job' found' in (job'', found'', Leads_trans lead lead');
}

pub Moves-Follows : (s s' : UploadService) → IsKeyed s → Moves s s' → Follows s s'
Moves-Follows s s' h (inl same) = Follows-refl s s' same h
Moves-Follows s s' h (inr (job, job', found, wrote, own, lead)) = record {
  keyed = λ k j e.
      let at_k = get-put job'.upload_id k job' s.jobs in
      let there : get k (put job'.upload_id job' s.jobs) ≡ some j = ap (get k) (sym wrote) ∙ e in
      elim (Bool-cases (job'.upload_id == k)) [
        | inl self ↦
            let same : job' ≡ j = ground arith in
            ap (λ (q : UploadJob). q.upload_id) (sym same) ∙ ==→eq job'.upload_id k self
        | inr other ↦ h k j (ground arith)
      ];
  led = λ k j e.
      let at_k = get-put job'.upload_id k job' s.jobs in
      let written = ap (get k) wrote in
      elim (Bool-cases (job'.upload_id == k)) [
        | inl self ↦
            let key : k ≡ job.upload_id = sym (==→eq job'.upload_id k self) ∙ own in
            let same : some j ≡ some job = sym e ∙ ap (λ i. get i s.jobs) key ∙ found in
            let eq : j ≡ job = cc in
            (
              job',
              written ∙ ground arith,
              subst (λ (q : UploadJob). Leads q.status job'.status) (sym eq) lead,
            )
        | inr other ↦ (j, written ∙ ground arith, stay)
      ];
}
