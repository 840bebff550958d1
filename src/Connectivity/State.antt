-- ===== src/Connectivity/State.antt =====
-- The state of the `Connector` of controller.py, with its operations, connections and tasks. An operation and a task
-- are known by a number, a connection by its `id`.
use peer_application_runtime.Base.{
  ◌&&◌, ℕ, suc, ◌+◌, List, [], ◌∷◌, Bool, true, false, not, ◌||◌, Option, none, some, ltb, ◌==◌,
  length, if◌then◌else◌,
}
use peer_application_runtime.Base.Text.{Str}
use peer_application_runtime.Base.Fallible.{done, failed, demand, ◌>>◌}
use peer_application_runtime.Connectivity.Model.{
  closed, connection_not_current, stale_generation, cancelled, deadline, Outcome, Policy,
}

pub record Connection : Type 0 where
  pub key : ℕ
  pub observed_path : Option Str

-- `_Operation`; `caller` is the state of the caller's event, if it gave one.
pub record Operation : Type 0 where
  pub number : ℕ
  pub op_generation : ℕ
  pub op_deadline : ℕ
  pub stop : Bool
  pub caller : Option Bool

pub record Connector : Type 0 where
  pub policy : Policy
  pub scope : Str
  pub metered : Bool
  pub generation : ℕ
  pub is_closed : Bool
  pub operations : List Operation
  pub active : List (ℕ × Connection)
  pub closing : List Connection
  pub lingering : List (ℕ × Bool)
  pub cleanup_failures : ℕ
  pub failed_resources : List Connection
  pub next_id : ℕ
  pub next_number : ℕ

pub record Diagnostics : Type 0 where
  pub at_generation : ℕ
  pub shut : Bool
  pub inflight : ℕ
  pub connections : ℕ
  pub retiring : ℕ
  pub abandoned : ℕ
  pub failures : ℕ
  pub cleanup_complete : Bool

unfoldable pub create : Policy → Str → Bool → Connector
create p scope metered = record {
  policy = p;
  scope = scope;
  metered = metered;
  generation = 0;
  is_closed = false;
  operations = [];
  active = [];
  closing = [];
  lingering = [];
  cleanup_failures = 0;
  failed_resources = [];
  next_id = 1;
  next_number = 0;
}

unfoldable pub diagnostics : Connector → Diagnostics
diagnostics s = record {
  at_generation = s.generation;
  shut = s.is_closed;
  inflight = length s.operations;
  connections = length s.active;
  retiring = length s.closing;
  abandoned = length s.lingering;
  failures = s.cleanup_failures;
  cleanup_complete =
      length s.active
        + length s.operations
        + length s.closing
        + length s.lingering
        + s.cleanup_failures
      == 0;
}

unfoldable pub find_active : ℕ → List (ℕ × Connection) → Option Connection
find_active i [] = none
find_active i ((j, c) ∷ rows) = if j == i then some c else find_active i rows

unfoldable pub remove_active : ℕ → List (ℕ × Connection) → List (ℕ × Connection)
remove_active i [] = []
remove_active i ((j, c) ∷ rows) =
    let rest = remove_active i rows in if j == i then rest else (j, c) ∷ rest

unfoldable pub connection : ℕ → Connector → Outcome Connection
connection i s = elim (find_active i s.active) [
  | none ↦ failed connection_not_current
  | some c ↦ done c
]

-- Whether the second is the first as it was: its number and its generation do not change.
abbrev pub is_same : Operation → Operation → Bool
is_same o op = o.number == op.number && o.op_generation == op.op_generation

unfoldable pub find_op : Operation → List Operation → Option Operation
find_op op [] = none
find_op op (o ∷ os) = if is_same o op then some o else find_op op os

unfoldable pub update_op : ℕ → (Operation → Operation) → List Operation → List Operation
update_op n f [] = []
update_op n f (o ∷ os) = let rest = update_op n f os in if o.number == n then f o ∷ os else o ∷ rest

unfoldable pub discard : Operation → List Operation → List Operation
discard op [] = []
discard op (o ∷ os) = let rest = discard op os in if is_same o op then os else o ∷ rest

abbrev pub is_set : Option Bool → Bool
is_set none = false
is_set (some b) = b

unfoldable pub check_fence : Option Operation → ℕ → Connector → Outcome (Unit {0})
check_fence none now s = failed cancelled
check_fence (some o) now s = do
  demand (not s.is_closed) closed
  demand (o.op_generation == s.generation) stale_generation
  demand (not (is_set o.caller)) cancelled
  demand (ltb now o.op_deadline) deadline
  demand (not o.stop) cancelled

-- `_fence`, of an operation as it is now; one that has ended calls no fence, and would not pass.
unfoldable pub fence : Operation → ℕ → Connector → Outcome (Unit {0})
fence op now s = check_fence (find_op op s.operations) now s

unfoldable pub is_closing : ℕ → List Connection → Bool
is_closing k [] = false
is_closing k (c ∷ cs) = c.key == k || is_closing k cs

unfoldable pub without_key : ℕ → List Connection → List Connection
without_key k [] = []
without_key k (c ∷ cs) = let rest = without_key k cs in if c.key == k then rest else c ∷ rest

-- `_schedule_close`, and the end of the task it starts.
unfoldable pub schedule_close : Connection → Connector → Connector
schedule_close c s = if is_closing c.key s.closing then s else record s { closing = c ∷ s.closing }

unfoldable pub close_ended : Connection → Bool → Connector → Connector
close_ended c ok s =
    let popped = record s { closing = without_key c.key s.closing } in
    if ok then popped else record popped {
      cleanup_failures = suc s.cleanup_failures;
      failed_resources = c ∷ without_key c.key s.failed_resources;
    }

unfoldable pub set_stop : Bool → Operation → Connector → Connector
set_stop b op s = record s {
  operations = update_op op.number (λ o. record o { stop = b }) s.operations;
}

-- `op.stop.set()` and `_abandon`, and the end of the task abandoned: its value, if it returned one.
unfoldable pub abandon : Bool → Operation → Connector → Connector
abandon dispose op s = record (set_stop true op s) {
  lingering = (s.next_number, dispose) ∷ s.lingering;
  next_number = suc s.next_number;
}

unfoldable pub without_task : ℕ → List (ℕ × Bool) → List (ℕ × Bool)
without_task n [] = []
without_task n ((m, d) ∷ ts) =
    let rest = without_task n ts in if m == n then rest else (m, d) ∷ rest

abbrev pub disposes : ℕ → List (ℕ × Bool) → Bool
disposes n [] = false
disposes n ((m, d) ∷ ts) = if m == n then d else disposes n ts

unfoldable pub task_ended : ℕ → Option Connection → Connector → Connector
task_ended n value s =
    let left = record s { lingering = without_task n s.lingering } in
    elim value [
      | none ↦ left
      | some c ↦ if disposes n s.lingering then schedule_close c left else left
    ]
