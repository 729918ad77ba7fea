-- ===== src/System.antt =====
-- The tasks of src/main.rs, src/interfaces.rs and src/acp_interface.rs together: the main loop, the
-- listener for netlink messages, and one daemon for each ACP interface, which take their steps in
-- any order. A step is what a task does while it holds the mutexes. The CBOR crate, the sockets, the
-- order of `HashMap::values` and what arrives are parameters.
pub mod Steps
pub mod Sources
pub mod Invariant
pub mod Loop
pub mod Coherence
pub mod Service
pub mod Persistence
pub mod Sample
mod Tests
use rooster.Base.{
  ℕ, Bool, true, false, not, ◌≡◌, ◌<◌, List, [], ◌∷◌, ◌++◌, Option, if◌then◌else◌, length, set,
  ◌==◌, equality_nat,
}
use rooster.Cbor.{Cbor}
use rooster.Args.{RoosterOptions}
use rooster.Acp.{Millis}
use rooster.Acp.Daemon.{Received, datagram, read_error, Daemon, daemon_step}
use rooster.Interface.{Ref, Map, World, initial_world}
use rooster.Interfaces.{Ending, done, panicked, Message, handle_message}
use rooster.Interfaces.Registrars.{acp}
use rooster.Join.{ErrorKind, IoResult, io_ok, Transmission}
use rooster.Main.{main_round}

-- The counter of the task of a daemon, and whether the task still runs.
pub record Task : Type 0 where
  pub cnt : ℕ
  pub running : Bool

-- The task as `AcpInterface::start_daemon` spawns it.
abbrev pub new_task : Task
new_task = record { cnt = 0; running = true }

-- What the tasks share, the task of each table, whether the listener still runs, and whether the
-- program does: it ends when the main loop does.
pub record Program : Type 0 where
  pub world : World
  pub tasks : Ref → Task
  pub listening : Bool
  pub looping : Bool

-- The program when `main` enters its loop.
abbrev pub initial_program : Program
initial_program = record {
  world = initial_world;
  tasks = λ a. new_task;
  listening = true;
  looping = true;
}

abbrev pub goes_on : Ending → Bool
goes_on done = true
goes_on panicked = false

-- The listener handles a message, and runs on unless that panics.
unfoldable pub told_by : RoosterOptions → Message → Program → Program
told_by options m s =
    let (w, ending) = handle_message options m s.world in
    record s { world = w; listening = goes_on ending }

-- `while !done`: the loop goes on unless `exitnow` was set, or the round panicked.
abbrev pub loops_on : IoResult → Bool → Bool
loops_on io_ok exitnow = not exitnow
loops_on _ exitnow = false

module _ ⦃cbor : Cbor⦄ where
  open cbor use {CborType}

  -- The daemon of a table, as its task and what it shares.
  abbrev pub daemon_of : Ref → Program → Daemon
  daemon_of a s = record {
    heard = (acp s.world a, s.world.all.invalidate_avail);
    cnt = (s.tasks a).cnt;
    running = (s.tasks a).running;
  }

  module _ (cbor_decode : List ℕ → Option CborType) where
    -- The task of a table goes through one round of its loop, if it still runs.
    pub read_by : Ref → (ℕ → Millis) → Received → Program → Program
    read_by a clock event s =
        let d = daemon_step cbor_decode (daemon_of a s) (clock, event) in
        record s {
          world = record s.world {
            acps = set s.world.acps a d.heard.0;
            all = record s.world.all { invalidate_avail = d.heard.1 };
          };
          tasks = λ b. if b == a then record { cnt = d.cnt; running = d.running } else s.tasks b;
        }

  -- The main loop wakes and goes through a round.
  unfoldable pub woken_by :
      (CborType → List ℕ)
      → (Transmission → Option ErrorKind)
      → (Map → List Ref)
      → (ℕ → ℕ)
      → Program
      → Program
  woken_by serialize send_to values id s =
      let (w, sent, result) = main_round serialize send_to values id s.world in
      record s { world = w; looping = loops_on result w.all.exitnow }
