-- ===== src/Overlap/Serial.antt =====
-- Steps of src/interfaces.rs and src/acp_interface.rs that overlap have done, once no task is within
-- a handler, what the handlers do one after the other. Here: what the tasks have done so far, against
-- the world in which each flood counts when its daemon is done with it, and each update when it ends.
pub mod Tables
pub mod Moves
pub mod Rounds
pub mod Objectives
pub mod Messages
pub mod Order
use rooster.Base.{
  ℕ, Bool, true, false, ◌≡◌, ◌↔◌, ◌⊎◌, ◌<◌, List, [], ◌∷◌, ◌++◌, Option, some, In, length,
}
use rooster.Grasp.{GraspMessage}
use rooster.Args.{RoosterOptions}
use rooster.Acp.{Millis, AcpInterface, none_available, announce, announce_objectives}
use rooster.Interface.{Ref, World, Map, initial_world}
use rooster.Interfaces.{cell, Message, handle_message}
use rooster.Interfaces.Invariant.{WellFormed}
use rooster.Interfaces.Registrars.Listing.{Lists}
use rooster.Interfaces.Registrars.{acp, hear, available_among, update_available_registrars}
use rooster.Overlap.{UpdateAt, outside, looks, AddingAt, listens, hears, has_added, Running}

-- One table: with the registrars that its daemon has added so far, and with those of the floods that it
-- is done with; and whether it has set the flag for the one that it is at.
abbrev pub At : Bool → AddingAt → AcpInterface → AcpInterface → Type 0
At b listens t u = (b ≡ false) × (t ≡ u)
At b (hears clock ttl n os) t u =
    (msg : GraspMessage) × (announce clock msg (u, false)
      ≡ announce_objectives clock ttl n os (t, b))
    × (b ≡ false → t ≡ u)
At b (has_added clock ttl n os) t u =
    (msg : GraspMessage) × (announce clock msg (u, false)
      ≡ announce_objectives clock ttl n os (t, true))

-- The handlers, one after the other.
pub data Handled (options : RoosterOptions) (values : Map → List Ref) : World → Type 0 where
  untouched : Handled options values initial_world
  then_handles :
      {v : World} (m : Message)
      → Handled options values v
      → Handled options values (handle_message options m v).0
  then_hears :
      {v : World} (a : Ref) (clock : ℕ → Millis) (msg : GraspMessage)
      → Handled options values v
      → a < length v.acps
      → Handled options values (hear a clock msg v)
  then_updates :
      {v : World}
      → Handled options values v
      → Handled options values (update_available_registrars values v)

-- No task is within a handler.
abbrev pub IsIdle : Running → Type 0
IsIdle s = (s.main ≡ outside) × ((a : Ref) → s.daemons a ≡ listens)

-- The tables are well formed, and each is that of an interface of the ACP map.
abbrev pub IsRegular : World → Type 0
IsRegular w = WellFormed w × ((a : Ref) → a < length w.acps → Lists w a)

module _ (values : Map → List Ref) where
  -- An update so far has looked at tables whose floods all count.
  abbrev pub SeenBy : (Ref → Bool) → World → UpdateAt → Type 0
  SeenBy set v outside = Unit
  SeenBy set v (looks av rs) =
      (seen : List Ref) × (seen ++ rs ≡ values v.all.acp_interfaces)
      × (av ≡ available_among v none_available seen)
      × ((r : Ref) (a : Ref) → In r seen → (cell v r).acp_daemon ≡ some a → set a ≡ false)

  abbrev pub IsLooking : UpdateAt → Bool → Type 0
  IsLooking outside flag = Unit
  IsLooking (looks av rs) flag = flag ≡ true

  -- The tasks so far, against the handlers that are done; `set` says which daemons have set the flag
  -- for a flood that does not count yet.
  pub record Follows (set : Ref → Bool) (s : Running) (v : World) : Type 0 where
    pub rest : s.world ≡ record v {
      acps = s.world.acps;
      all = record v.all { invalidate_avail = s.world.all.invalidate_avail };
    }
    pub sizes : length s.world.acps ≡ length v.acps
    pub tables : (a : Ref) → At (set a) (s.daemons a) (acp s.world a) (acp v a)
    pub there : (a : Ref) → (s.daemons a ≡ listens) ⊎ (a < length v.acps)
    pub flag :
        (s.world.all.invalidate_avail ≡ true)
        ↔ ((v.all.invalidate_avail ≡ true) ⊎ ((a : Ref) × (set a ≡ true)))
    pub seen : SeenBy set v s.main
    pub looking : IsLooking s.main s.world.all.invalidate_avail
