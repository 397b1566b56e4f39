-- ===== src/Bcaes/Convergence/Merge.antt =====
-- bcaes_registry/convergence_store.py: the merge of an update into a declared state.
use bhiv_masterdb_ingestion.Prelude.{
  ◌≡◌, refl, ◌∙◌, sym, ◌⊎◌, inl, inr, Option, none, some, Key, ◌==◌, ok, arith, if◌then◌else◌,
  Option-cases, Result-cases, err, [], ap,
}
use bhiv_masterdb_ingestion.Prelude.Dict.{get, put, get-put}
use bhiv_masterdb_ingestion.Bcaes.Models.{RegistryObject}
use bhiv_masterdb_ingestion.Bcaes.Store.{CanonicalRegistryStore, RegistryError, get_by_id}
use bhiv_masterdb_ingestion.Bcaes.Convergence.{
  ConvergenceStatus, not_started, ConvergenceUpdateRequest, ConvergenceRecord, blank, set_or, merge,
  Records, upsert,
}

-- The seven dimensions.
pub data Dimension : Type 0 where
  integration sdk replay observability evidence governance production : Dimension

abbrev pub declared : Dimension → ConvergenceRecord → ConvergenceStatus
declared integration r = r.integration_status
declared sdk r = r.sdk_adoption
declared replay r = r.replay_status
declared observability r = r.observability_status
declared evidence r = r.evidence_status
declared governance r = r.governance_status
declared production r = r.production_readiness

abbrev pub requested : Dimension → ConvergenceUpdateRequest → Option ConvergenceStatus
requested integration r = r.integration_status
requested sdk r = r.sdk_adoption
requested replay r = r.replay_status
requested observability r = r.observability_status
requested evidence r = r.evidence_status
requested governance r = r.governance_status
requested production r = r.production_readiness

declared-merge :
    (d : Dimension) (id : Key) (request : ConvergenceUpdateRequest) (now : Key)
    (old : ConvergenceRecord)
    → declared d (merge id request now old) ≡ set_or (requested d request) (declared d old)
unfolding merge
declared-merge integration id request now old = refl
declared-merge sdk id request now old = refl
declared-merge replay id request now old = refl
declared-merge observability id request now old = refl
declared-merge evidence id request now old = refl
declared-merge governance id request now old = refl
declared-merge production id request now old = refl

-- What the records say of an object: nothing declared reads as not started.
abbrev pub status_of : Records → Key → Dimension → ConvergenceStatus
status_of records id d = elim (get id records) [ none ↦ not_started | some r ↦ declared d r ]

declared-blank : (d : Dimension) (id now : Key) → declared d (blank id now) ≡ not_started
declared-blank integration id now = refl
declared-blank sdk id now = refl
declared-blank replay id now = refl
declared-blank observability id now = refl
declared-blank evidence id now = refl
declared-blank governance id now = refl
declared-blank production id now = refl

-- How a request patches a record: the dimensions, the remaining work and the note that it names are
-- set, the others are those of the record before, which has nothing started where there is none.
pub record IsPatch (before : Option ConvergenceRecord) (id : Key)
    (request : ConvergenceUpdateRequest) (now : Key) (new : ConvergenceRecord) : Type 0 where
  pub of_object : new.object_id ≡ id
  pub at_time : new.updated_at ≡ now
  pub dimensions :
      (d : Dimension)
      → declared d new ≡ elim (requested d request) [
        | none ↦ elim before [ none ↦ not_started | some r ↦ declared d r ]
        | some status ↦ status
      ]
  pub work : new.remaining_work ≡ elim request.remaining_work [
    | none ↦ elim before [ none ↦ [] | some r ↦ r.remaining_work ]
    | some w ↦ w
  ]
  pub noted :
      new.note
      ≡ elim request.note [ none ↦ elim before [ none ↦ none | some r ↦ r.note ] | some n ↦ n ]

merge-IsPatch :
    (before : Option ConvergenceRecord) (id : Key) (request : ConvergenceUpdateRequest) (now : Key)
    → IsPatch before id request now (merge id request now (set_or before (blank id now)))
unfolding merge
merge-IsPatch before id request now =
    let old = set_or before (blank id now) in
    record {
      of_object = refl;
      at_time = refl;
      dimensions = λ d.
          let merged = declared-merge d id request now old in
          let default = declared-blank d id now in ground arith;
      work = ground arith;
      noted = ground arith;
    }

-- An update of an object that is not registered raises the error of the lookup and changes no record.
-- An update of a registered one answers the patched record, files it under the id of the object, and
-- leaves every other record as it was.
pub upsert_branches :
    (s : CanonicalRegistryStore) (records : Records) (id : Key) (request : ConvergenceUpdateRequest)
    (now j : Key)
    → let call = upsert s records id request now in
      ((e : RegistryError) × (get_by_id s id ≡ err e) × (call ≡ (err e, records)))
      ⊎ ((o : RegistryObject) × (new : ConvergenceRecord) × (get_by_id s id ≡ ok o)
          × (call.0 ≡ ok new)
          × IsPatch (get id records) id request now new
          × (get j call.1 ≡ (if id == j then some new else get j records)))
unfolding upsert
upsert_branches s records id request now j =
    let new = merge id request now (set_or (get id records) (blank id now)) in
    let patched = merge-IsPatch (get id records) id request now in
    let written = get-put id j new records in
    elim (Result-cases (get_by_id s id)) [
      | inl (o, found) ↦
          let shape : upsert s records id request now ≡ (ok new, put id new records) =
            ground arith in
          inr (o, new, found, ap (λ c. c.0) shape, patched, ap (λ c. get j c.1) shape ∙ written)
      | inr (e, missing) ↦ inl (e, missing, ground arith)
    ]

-- For a registered object the update sets the dimensions that the request names, and leaves its other
-- dimensions and those of every other object as they were.
pub status_of-upsert :
    (s : CanonicalRegistryStore) (records : Records) (id : Key) (request : ConvergenceUpdateRequest)
    (now : Key) (o : RegistryObject)
    → get_by_id s id ≡ ok o
    → (j : Key) (d : Dimension)
    → status_of (upsert s records id request now).1 j d ≡ (
        if id == j
        then set_or (requested d request) (status_of records id d)
        else status_of records j d)
unfolding upsert
status_of-upsert s records id request now o found j d =
    let old = set_or (get id records) (blank id now) in
    let new = merge id request now old in
    let shape : (upsert s records id request now).1 ≡ put id new records = ground arith in
    let written = get-put id j new records in
    let merged = declared-merge d id request now old in
    let default = declared-blank d id now in
    elim (Option-cases (get id records)) [
      | inl absent ↦ ground arith
      | inr (r, present) ↦ ground arith
    ]

-- Two requests that set no dimension in common.
abbrev pub AreDisjoint : ConvergenceUpdateRequest → ConvergenceUpdateRequest → Type 0
AreDisjoint p q = (d : Dimension) → (requested d p ≡ none) ⊎ (requested d q ≡ none)

set_or_comm :
    (a b : Option ConvergenceStatus) (old : ConvergenceStatus)
    → (a ≡ none) ⊎ (b ≡ none)
    → set_or a (set_or b old) ≡ set_or b (set_or a old)
set_or_comm a b old h = ground arith

-- Two updates of one registered object that set no dimension in common give the same statuses in
-- either order.
pub upsert_comm :
    (s : CanonicalRegistryStore) (records : Records) (id : Key) (p q : ConvergenceUpdateRequest)
    (t u : Key) (o : RegistryObject)
    → get_by_id s id ≡ ok o
    → AreDisjoint p q
    → (j : Key) (d : Dimension)
    → status_of (upsert s (upsert s records id p t).1 id q u).1 j d
      ≡ status_of (upsert s (upsert s records id q u).1 id p t).1 j d
upsert_comm s records id p q t u o found apart j d =
    let left = status_of-upsert s (upsert s records id p t).1 id q u o found j d in
    let right = status_of-upsert s (upsert s records id q u).1 id p t o found j d in
    let left_before = status_of-upsert s records id p t o found in
    let right_before = status_of-upsert s records id q u o found in
    let at_j = left_before j d in
    let at_id = left_before id d in
    let at_j' = right_before j d in
    let at_id' = right_before id d in
    let swap = set_or_comm (requested d p) (requested d q) (status_of records id d) (apart d) in
    left ∙ ground arith ∙ sym right
