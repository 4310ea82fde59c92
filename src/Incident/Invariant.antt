-- ===== src/Incident/Invariant.antt =====
-- What holds of the engine's database between two calls.
pub mod Writes
pub mod Operations
pub mod Timers
pub mod Scanning
use critalarm_server.Prelude.{
  ℕ, zero, suc, ◌+◌, ◌≤◌, ◌==◌, if◌then◌else◌, Bool, true, false, ◌&&◌, ◌≡◌, refl, ◌≢◌, ◌⊎◌, inl,
  inr, Option, none, some, List, [], ◌∷◌, ◌++◌, arith, All, select, delete_where, update_where,
  find_row, count_where, Bool-cases, ==_refl, ==_iff,
}
use mathlib.Core.Option
use critalarm_server.Incident.Types.{
  IncidentState, opened, acked, closed, expired, TimerKind, repeat, expire, desk, IncidentRow,
  TimerRow, Store, IdGenerator,
}
use critalarm_server.Incident.Statements.{is_active}

-- The timers of one incident, by kind, in the order of their insertion.
unfoldable pub kinds_of : ℕ → List TimerRow → List TimerKind
kinds_of i [] = []
kinds_of i (t ∷ ts) = let rest = kinds_of i ts in if t.incident_id == i then t.kind ∷ rest else rest

unfoldable pub state_of : ℕ → List IncidentRow → Option IncidentState
state_of i rows = Option.map (λ (r : IncidentRow). r.state) (find_row (λ r. r.id == i) rows)

-- The timers that an incident has in each state; `none` is an id with no incident.
unfoldable pub kinds_for : Option IncidentState → List TimerKind
kinds_for none = []
kinds_for (some opened) = repeat ∷ expire ∷ []
kinds_for (some acked) = desk ∷ []
kinds_for (some closed) = []
kinds_for (some expired) = []

unfoldable pub active_in : ℕ → IncidentRow → Bool
active_in topic i = (i.topic_id == topic) && is_active i.state

abbrev pub IsInjective : (ℕ → ℕ) → Type 0
IsInjective f = (a b : ℕ) → f a ≡ f b → a ≡ b

-- The documented promise of the id generator, random UUIDs in production: no id comes twice.
pub record IsFresh (g : IdGenerator) : Type 0 where
  pub incident : IsInjective g.incident
  pub timer : IsInjective g.timer

-- No id from the n-th draw on is this one.
abbrev pub Unissued : (ℕ → ℕ) → ℕ → ℕ → Type 0
Unissued gen n id = (k : ℕ) → n ≤ k → id ≢ gen k

-- Rows with the id of this timer are this timer.
abbrev pub Agrees : TimerRow → List TimerRow → Type 0
Agrees d = All (λ t. t.id ≡ d.id → (t.incident_id ≡ d.incident_id) × (t.kind ≡ d.kind))

-- The part that speaks of ids and of the topics.
pub record IsSound (g : IdGenerator) (s : Store) : Type 0 where
  pub one_active : (topic : ℕ) → count_where (active_in topic) s.incidents ≤ 1
  pub unique_ids : (i : ℕ) → count_where (λ r. r.id == i) s.incidents ≤ 1
  pub incidents_issued : All (λ r. Unissued g.incident s.drawn r.id) s.incidents
  pub timers_issued : All (λ t. Unissued g.timer s.drawn t.id) s.timers
  pub timers_agree : All (λ t. Agrees t s.timers) s.timers

pub record Inv (g : IdGenerator) (s : Store) : Type 0 where
  -- Each incident has exactly the timers of its state.
  pub timers_match : (i : ℕ) → kinds_of i s.timers ≡ kinds_for (state_of i s.incidents)
  pub sound : IsSound g s
  pub open sound use *

-- The same while the timers `ks` of incident `id` are still to be inserted.
pub record Pending (g : IdGenerator) (id : ℕ) (ks : List TimerKind) (s : Store) : Type 0 where
  pub pending_match :
      (i : ℕ)
      → kinds_of i s.timers ++ (if i == id then ks else []) ≡ kinds_for (state_of i s.incidents)
  pub sound : IsSound g s
  pub open sound use *
