-- ===== src/Overlap.antt =====
-- The update of the proxies in src/interfaces.rs while the daemons of src/acp_interface.rs add
-- registrars: the steps that a task takes with another between, as the mutexes allow them. The main
-- loop keeps the flag from its look at the first table to the last; a daemon keeps its table through
-- a flood, and takes the flag anew for each registrar that it has added. The listener handles a
-- message in one step, under the mutex of `AllInterfaces`; the pledges change nothing. What waits is
-- in Locks.
pub mod Steps
pub mod Coherence
pub mod Serial
mod Tests
use rooster.Base.{
  ℕ, Bool, true, false, ◌≡◌, List, Option, none, some, ◌==◌, equality_nat, if◌then◌else◌,
}
use rooster.Grasp.{GraspObjective, GraspMessage}
use rooster.Acp.{Millis, Available, is_flood}
use rooster.Interface.{Ref, World, initial_world}

-- The main loop: not in an update, or in one that has found the flag set, with what the tables so far
-- have given, and the interfaces that are left.
pub data UpdateAt : Type 0 where
  outside : UpdateAt
  looks : Available → List Ref → UpdateAt

-- A daemon: waiting for a datagram; in the loop over the objectives, with its clock, the ttl, the
-- number of the objective and those left; or with a registrar added and the flag not yet set.
pub data AddingAt : Type 0 where
  listens : AddingAt
  hears has_added : (ℕ → Millis) → Millis → ℕ → List GraspObjective → AddingAt

pub record Running : Type 0 where
  pub world : World
  pub main : UpdateAt
  pub daemons : Ref → AddingAt

abbrev pub initial_running : Running
initial_running = record { world = initial_world; main = outside; daemons = λ a. listens }

-- The daemon of a table is somewhere else.
abbrev pub goes_to : Ref → AddingAt → (Ref → AddingAt) → Ref → AddingAt
goes_to a d daemons b = if b == a then d else daemons b

-- Nobody holds the table that an interface has, if it has one.
abbrev pub IsFree : Option Ref → Running → Type 0
IsFree none s = Unit
IsFree (some a) s = s.daemons a ≡ listens

-- Where `announce` begins: only a flood is looked at.
abbrev pub begins : (ℕ → Millis) → GraspMessage → AddingAt
begins clock msg = if is_flood msg.mtype then hears clock msg.ttl 1 msg.objectives else listens
