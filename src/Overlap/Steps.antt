-- ===== src/Overlap/Steps.antt =====
-- The steps of src/interfaces.rs and src/acp_interface.rs between which another task can come.
use rooster.Base.{ℕ, suc, true, false, ◌≡◌, ◌<◌, List, [], ◌∷◌, length, set}
use rooster.Net.{Ipv6Addr}
use rooster.Grasp.{GraspObjective, GraspMessage}
use rooster.Args.{RoosterOptions}
use rooster.Acp.{
  Millis, RegistrarType, Available, none_available, no_locator, not_understood, heard, hearing,
  add_registrar,
}
use rooster.Interface.{Ref, World, Map}
use rooster.Interfaces.{cell, Message, handle_message}
use rooster.Interfaces.Registrars.{acp, interface_available, or_available, proxies_of}
use rooster.Overlap.{outside, looks, listens, hears, has_added, Running, goes_to, IsFree, begins}

-- `*invalidated = …` under the mutex of the flag.
abbrev pub set_flag : World → World
set_flag w = record w { all = record w.all { invalidate_avail = true } }

abbrev pub clear_flag : World → World
clear_flag w = record w { all = record w.all { invalidate_avail = false } }

-- `self.add_registrar(…)` on the table of a daemon.
abbrev pub add_at : Ref → RegistrarType → Ipv6Addr → Millis → Millis → World → World
add_at a rtype v6addr ttl now w = record w {
  acps = set w.acps a (add_registrar rtype v6addr ttl now (acp w a));
}

-- The end of an update that has looked at every table.
abbrev pub finish : Available → World → World
finish av w = record w { all = record w.all { proxies = proxies_of av; invalidate_avail = false } }

module _ (options : RoosterOptions) (values : Map → List Ref) where
  pub data Turn : Running → Running → Type 0 where
    told :
        (s : Running) (m : Message)
        → s.main ≡ outside
        → Turn s (record s { world = (handle_message options m s.world).0 })
    finds_clear :
        (s : Running)
        → s.main ≡ outside
        → s.world.all.invalidate_avail ≡ false
        → Turn s (record s { world = clear_flag s.world })
    finds_set :
        (s : Running)
        → s.main ≡ outside
        → s.world.all.invalidate_avail ≡ true
        → Turn s (record s { main = looks none_available (values s.world.all.acp_interfaces) })
    looks_at :
        (s : Running) (av : Available) (r : Ref) (rs : List Ref)
        → s.main ≡ looks av (r ∷ rs)
        → IsFree (cell s.world r).acp_daemon s
        → Turn s (record s {
          main = looks (or_available av (interface_available s.world (cell s.world r))) rs;
        })
    finishes :
        (s : Running) (av : Available)
        → s.main ≡ looks av []
        → Turn s (record s { world = finish av s.world; main = outside })
    receives :
        (s : Running) (a : Ref) (clock : ℕ → Millis) (msg : GraspMessage)
        → a < length s.world.acps
        → s.daemons a ≡ listens
        → Turn s (record s { daemons = goes_to a (begins clock msg) s.daemons })
    passes :
        (s : Running) (a : Ref) (clock : ℕ → Millis) (ttl : Millis) (n : ℕ) (o : GraspObjective)
        (os : List GraspObjective)
        → s.daemons a ≡ hears clock ttl n (o ∷ os)
        → hearing o ≡ no_locator
        → Turn s (record s { daemons = goes_to a (hears clock ttl (suc n) os) s.daemons })
    gives_up :
        (s : Running) (a : Ref) (clock : ℕ → Millis) (ttl : Millis) (n : ℕ) (o : GraspObjective)
        (os : List GraspObjective)
        → s.daemons a ≡ hears clock ttl n (o ∷ os)
        → hearing o ≡ not_understood
        → Turn s (record s { daemons = goes_to a listens s.daemons })
    adds :
        (s : Running) (a : Ref) (clock : ℕ → Millis) (ttl : Millis) (n : ℕ) (o : GraspObjective)
        (os : List GraspObjective) (rtype : RegistrarType) (v6addr : Ipv6Addr)
        → s.daemons a ≡ hears clock ttl n (o ∷ os)
        → hearing o ≡ heard rtype v6addr
        → Turn s (record s {
          world = add_at a rtype v6addr ttl (clock n) s.world;
          daemons = goes_to a (has_added clock ttl (suc n) os) s.daemons;
        })
    sets_flag :
        (s : Running) (a : Ref) (clock : ℕ → Millis) (ttl : Millis) (n : ℕ)
        (os : List GraspObjective)
        → s.daemons a ≡ has_added clock ttl n os
        → s.main ≡ outside
        → Turn s (record s {
          world = set_flag s.world;
          daemons = goes_to a (hears clock ttl n os) s.daemons;
        })
    ends :
        (s : Running) (a : Ref) (clock : ℕ → Millis) (ttl : Millis) (n : ℕ)
        → s.daemons a ≡ hears clock ttl n []
        → Turn s (record s { daemons = goes_to a listens s.daemons })

  -- Any number of steps, the last one last.
  pub data Runs (s : Running) : Running → Type 0 where
    rests : Runs s s
    then_step : {t u : Running} → Runs s t → Turn t u → Runs s u
