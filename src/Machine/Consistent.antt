-- ===== src/Machine/Consistent.antt =====
-- services/state_machine.py: how the fields of an `EntityState` account for one another.
use bhiv_masterdb_ingestion.Prelude.{
  ℕ, ◌+◌, ◌≡◌, refl, false, List, [], ◌∷◌, ◌++◌, arith, Key, elem, elem-append, length, map,
}
use bhiv_masterdb_ingestion.Lifecycle.{PackageStatus}
use bhiv_masterdb_ingestion.Machine.{EntityState, LogEntry}

-- No key stands twice.
abbrev pub IsDistinct : List Key → Type 0
IsDistinct [] = Unit
IsDistinct (k ∷ ks) = (elem k ks ≡ false) × IsDistinct ks

pub IsDistinct-append_one :
    (ks : List Key) (k : Key) → IsDistinct ks → elem k ks ≡ false → IsDistinct (ks ++ k ∷ [])
IsDistinct-append_one [] k h new = (refl, tt)
IsDistinct-append_one (j ∷ ks) k h new =
    (ground (arith, elem-append j ks (k ∷ [])), IsDistinct-append_one ks k h.1 (ground arith))

-- The entries lead from one status to another, each from where the last one ended, with versions
-- that count up from `n + 1`.
abbrev pub Leads : PackageStatus → ℕ → List LogEntry → PackageStatus → Type 0
Leads s n [] t = s ≡ t
Leads s n (e ∷ log) t = (s ≡ e.from_status) × (e.version ≡ n + 1) × Leads e.to_status (n + 1) log t

pub Leads-append_one :
    (s : PackageStatus) (n : ℕ) (log : List LogEntry) (t : PackageStatus) (e : LogEntry)
    → Leads s n log t
    → t ≡ e.from_status
    → e.version ≡ n + length log + 1
    → Leads s n (log ++ e ∷ []) e.to_status
Leads-append_one s n [] t e h from version = (ground arith, omega arith, refl)
Leads-append_one s n (x ∷ log) t e h from version =
    (h.0, h.1, Leads-append_one x.to_status (n + 1) log t e h.2 from (omega arith))

abbrev pub event_of : LogEntry → Key
event_of e = e.event_id

pub map-event_of-append_one :
    (log : List LogEntry) (e : LogEntry)
    → map event_of (log ++ e ∷ []) ≡ map event_of log ++ e.event_id ∷ []
map-event_of-append_one [] e = refl
map-event_of-append_one (x ∷ log) e = ground (arith, map-event_of-append_one log e)

-- The version counts the applied events, none of which was applied twice; the log lists exactly
-- these events and leads from the initial status to the current one.
pub record IsConsistent {V : Type 0} (initial : PackageStatus) (s : EntityState V) : Type 0 where
  pub counted : s.version ≡ length s.applied_events + 1
  pub distinct : IsDistinct s.applied_events
  pub logged : map event_of s.transition_log ≡ s.applied_events
  pub log_length : length s.transition_log ≡ length s.applied_events
  pub leads : Leads initial 1 s.transition_log s.current_status
