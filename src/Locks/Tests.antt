-- ===== src/Locks/Tests.antt =====
-- Examples for the locks of src/main.rs, src/interfaces.rs and src/acp_interface.rs.
use rooster.Base.{
  ℕ, ◌+◌, ◌≤◌, false, ◌≡◌, ◌↔◌, ◌⊎◌, inl, refl, List, [], ◌∷◌, none, some, equality_nat, arith,
}
use rooster.Locks.{
  Entry, main_has_all, main_has_flag, main_has_link, main_wants_map, main_has_map, daemon_listens,
  daemon_has_acp, daemon_sets, link_stores, link_rises, listener_has_all, listener_has_link,
  listener_wants_map, Tasks, daemon_at, start, pledge_holds_all, listener_holds_all,
}
use rooster.Locks.Steps.{
  Step, main_locks_all, main_locks_flag, main_locks_link, main_updates, main_locks_map,
  daemon_locks_acp, daemon_locks_flag, daemon_unlocks_flag, listener_locks_all, listener_locks_link,
  listener_unlocks_link, listener_locks_again, listener_joins, Reaches, here, further,
}
use rooster.Locks.Exclusion.{IsExclusive}
use rooster.Locks.Exclusion.Runs.{Reaches-IsExclusive}
use rooster.Locks.Deadlock.{IsDeadlock, IsDeadlock-reachable, IsDeadlock-stays}
use rooster.Locks.Crossing.{IsCrossed, IsCrossed-reachable, IsCrossed-stays}
use rooster.Locks.Stuck.{AllStuck, LinksStuck, AllStuck-Step_iff}
use rooster.Locks.Work.{work, Works, rests, works_on, Works-bounded}
use rooster.Locks.Progress.{AnyDeadlock}
use rooster.Locks.Release.{work-released}

-- Of two ACP interfaces the second hears a flood with two objectives, and the main loop wakes; there
-- is a join interface, with index 7.
abbrev begun : Tasks
begun = start 2 (7 ∷ [])

abbrev hearing : Tasks
hearing = record begun { daemons = daemon_listens ∷ daemon_has_acp 2 ∷ [] }

abbrev entries : List Entry
entries = (4, some 1) ∷ []

abbrev both : Tasks
both = record hearing { main = main_has_all entries }

Reaches-hearing : Reaches begun hearing
Reaches-hearing = further here (daemon_locks_acp begun 1 2 (omega arith) refl refl refl)

Reaches-both : Reaches begun both
Reaches-both = further Reaches-hearing (main_locks_all hearing entries refl refl refl)

Reaches-IsExclusive_test : IsExclusive both
Reaches-IsExclusive_test = Reaches-IsExclusive 2 (7 ∷ []) both Reaches-both

IsDeadlock-reachable_example : (s : Tasks) × Reaches begun s × IsDeadlock 1 s
IsDeadlock-reachable_example = IsDeadlock-reachable 2 (7 ∷ []) 4 1 0 (omega arith)

AllStuck-Step_iff_example : (AllStuck both ⊎ LinksStuck both) ↔ ((t : Tasks) → ¬ Step both t)
AllStuck-Step_iff_example = AllStuck-Step_iff 2 (7 ∷ []) both Reaches-both

-- The main loop waits for the second table; then the first daemon hears a flood.
abbrev flagged : Tasks
flagged = record hearing { main = main_has_flag entries }

abbrev waiting : Tasks
waiting = record hearing { main = main_has_link 4 (some 1) [] }

abbrev later : Tasks
later = record waiting { daemons = daemon_has_acp 1 ∷ daemon_has_acp 2 ∷ [] }

Reaches-waiting : Reaches begun waiting
Reaches-waiting =
    further (further Reaches-both (main_locks_flag both entries refl refl))
      (main_locks_link flagged 4 (some 1) [] refl refl refl refl)

waiting-IsDeadlock : IsDeadlock 1 waiting
waiting-IsDeadlock = record {
  interface = 4;
  later = [];
  left = 1;
  main_waits = refl;
  daemon_waits = refl;
}

goes_later : Reaches waiting later
goes_later = further here (daemon_locks_acp waiting 0 1 (omega arith) refl refl refl)

IsDeadlock-stays_example :
    IsDeadlock 1 later
    × (later.main ≡ waiting.main)
    × (daemon_at later 1 ≡ daemon_at waiting 1)
    × (pledge_holds_all later.pledge ≡ false)
    × (listener_holds_all later.listener ≡ false)
IsDeadlock-stays_example =
    IsDeadlock-stays 2 (7 ∷ []) 1 waiting later Reaches-waiting waiting-IsDeadlock goes_later

IsCrossed-reachable_example : (s : Tasks) × Reaches begun s × IsCrossed 7 s
IsCrossed-reachable_example = IsCrossed-reachable 2 (7 ∷ []) 7 (inl refl)

-- The main loop has updated the proxies and has come to the join interface, which comes up again.
abbrev announcing : Tasks
announcing = record begun { main = main_has_map (7 ∷ []); flag = false }

abbrev crossed : Tasks
crossed = record announcing { listener = listener_wants_map 7 }

Reaches-announcing : Reaches begun announcing
Reaches-announcing =
    further
      (further
        (further (further here (main_locks_all begun [] refl refl refl))
          (main_locks_flag (record begun { main = main_has_all [] }) [] refl refl))
        (main_updates (record begun { main = main_has_flag [] }) refl refl))
      (main_locks_map (record begun { main = main_wants_map; flag = false }) (7 ∷ []) refl refl
        (λ r. ((λ i. i), (λ i. i))) ((λ i. i), tt))

Reaches-crossed : Reaches begun crossed
Reaches-crossed =
    further
      (further
        (further
          (further (further Reaches-announcing (listener_locks_all announcing refl refl refl)) (
            listener_locks_link (record announcing { listener = listener_has_all none }) 7 refl refl
              refl))
          (listener_unlocks_link (record announcing { listener = listener_has_link link_stores 7 })
            7 refl))
        (listener_locks_again (record announcing { listener = listener_has_all (some 7) }) 7 refl
          refl refl))
      (listener_joins (record announcing { listener = listener_has_link link_rises 7 }) link_rises 7
        refl refl)

crossed-IsCrossed : IsCrossed 7 crossed
crossed-IsCrossed = record { later = []; main_waits = refl; listener_waits = refl }

IsCrossed-stays_example :
    IsCrossed 7 (record crossed { daemons = daemon_has_acp 0 ∷ daemon_listens ∷ [] })
    × (crossed.main ≡ crossed.main)
    × (crossed.listener ≡ crossed.listener)
    × (pledge_holds_all crossed.pledge ≡ false)
IsCrossed-stays_example =
    IsCrossed-stays 2 (7 ∷ []) 7 crossed
      (record crossed { daemons = daemon_has_acp 0 ∷ daemon_listens ∷ [] }) Reaches-crossed
      crossed-IsCrossed (further here (daemon_locks_acp crossed 0 0 (omega arith) refl refl refl))

-- A daemon with one registrar left to add.
abbrev adding : Tasks
adding = record begun { daemons = daemon_has_acp 1 ∷ daemon_listens ∷ [] }

abbrev added : Tasks
added = record begun { daemons = daemon_has_acp 0 ∷ daemon_listens ∷ [] }

adds : Works 2 adding added
adds =
    works_on (works_on rests (daemon_locks_flag adding 0 0 refl refl refl) tt)
      (daemon_unlocks_flag (record adding { daemons = daemon_sets 0 ∷ daemon_listens ∷ [] }) 0 0
        refl)
      tt

Works-bounded_example : 2 + work added ≤ work adding
Works-bounded_example = Works-bounded 2 adding added adds

work-released_example : (n : ℕ) × (t : Tasks) × Works n both t × ((work t ≡ 0) ⊎ AnyDeadlock t)
work-released_example = work-released 2 (7 ∷ []) both Reaches-both
