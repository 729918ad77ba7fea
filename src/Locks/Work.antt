-- ===== src/Locks/Work.antt =====
-- How long the tasks of src/main.rs, src/interfaces.rs and src/acp_interface.rs can keep their
-- mutexes.
use rooster.Base.{
  ℕ, zero, suc, ◌+◌, ◌*◌, ◌≤◌, ◌<◌, ◌≡◌, List, [], ◌∷◌, ◌++◌, length, none, some, get_or, set,
  arith,
}
use rooster.Interface.{Ref}
use rooster.Locks.{
  MainAt, main_has_all, main_has_flag, main_has_link, main_reads, main_has_map, main_sends,
  DaemonAt, daemon_listens, daemon_has_acp, daemon_sets, PledgeAt, pledge_away, pledge_has_all,
  pledge_has_link, pledge_reads, ListenerAt, listener_away, link_stores, link_rises, link_served,
  listener_has_all, listener_has_link, listener_wants_map, listener_has_map, Tasks,
}
use rooster.Locks.Steps.{
  Step, main_locks_all, main_locks_flag, main_skips, main_locks_link, main_passes, main_locks_acp,
  main_has_read, main_updates, main_locks_map, main_locks_joinlink, main_has_sent, main_ends,
  daemon_locks_acp, daemon_locks_flag, daemon_unlocks_flag, daemon_ends, pledge_locks_all,
  pledge_locks_link, pledge_passes, pledge_locks_acp, pledge_has_read, pledge_finds, pledge_ends,
  listener_locks_all, listener_locks_link, listener_unlocks_link, listener_locks_again,
  listener_leaves, listener_starts_acp, listener_joins, listener_locks_map, listener_lists,
  listener_ends,
}

-- The steps that a task has left, at most, until it holds no lock.
abbrev pub main_work : MainAt → ℕ
main_work (main_has_all entries) = 3 * length entries + 3
main_work (main_has_flag entries) = 3 * length entries + 2
main_work (main_has_link i table entries) = 3 * length entries + 4
main_work (main_reads i a entries) = 3 * length entries + 3
main_work (main_has_map links) = 2 * length links + 1
main_work (main_sends r links) = 2 * length links + 2
main_work _ = 0

abbrev pub daemon_work : DaemonAt → ℕ
daemon_work daemon_listens = 0
daemon_work (daemon_has_acp n) = 2 * n + 1
daemon_work (daemon_sets n) = 2 * n + 2

abbrev pub daemons_work : List DaemonAt → ℕ
daemons_work [] = 0
daemons_work (d ∷ ds) = daemon_work d + daemons_work ds

abbrev pub pledge_work : PledgeAt → ℕ
pledge_work pledge_away = 0
pledge_work (pledge_has_all entries) = 3 * length entries + 1
pledge_work (pledge_has_link i table entries) = 3 * length entries + 3
pledge_work (pledge_reads i a entries) = 3 * length entries + 2

abbrev pub listener_work : ListenerAt → ℕ
listener_work listener_away = 0
listener_work (listener_has_all none) = 7
listener_work (listener_has_link link_stores r) = 6
listener_work (listener_has_all (some r)) = 5
listener_work (listener_has_link link_rises r) = 4
listener_work (listener_has_link link_served r) = 3
listener_work (listener_wants_map r) = 2
listener_work (listener_has_map r) = 1

abbrev pub work : Tasks → ℕ
work s = main_work s.main + daemons_work s.daemons + pledge_work s.pledge + listener_work s.listener

-- A daemon that goes on to where it has less left makes the sum less.
daemons_work-set :
    (ds : List DaemonAt) (a : Ref) (d : DaemonAt)
    → daemon_work d < daemon_work (get_or ds a daemon_listens)
    → daemons_work (set ds a d) < daemons_work ds
daemons_work-set [] a d h = omega arith
daemons_work-set (x ∷ ds) zero d h = omega arith
daemons_work-set (x ∷ ds) (suc a) d h = let less = daemons_work-set ds a d h in omega arith

daemons_work-grown :
    (ds : List DaemonAt) → daemons_work (ds ++ (daemon_listens ∷ [])) ≡ daemons_work ds
daemons_work-grown [] = omega arith
daemons_work-grown (d ∷ ds) = omega (arith, daemons_work-grown ds)

-- The step is not one with which a task takes its first lock.
abbrev pub IsInside : {s t : Tasks} → Step s t → Type 0
IsInside (main_locks_all _ _ _ _ _) = ⊥
IsInside (main_locks_map _ _ _ _ _ _) = ⊥
IsInside (daemon_locks_acp _ _ _ _ _ _ _) = ⊥
IsInside (pledge_locks_all _ _ _ _ _) = ⊥
IsInside (listener_locks_all _ _ _ _) = ⊥
IsInside _ = Unit

-- So many such steps, one after the other.
pub data Works : ℕ → Tasks → Tasks → Type 0 where
  rests : {s : Tasks} → Works 0 s s
  works_on :
      {n : ℕ} {s t u : Tasks} → Works n s t → (step : Step t u) → IsInside step → Works (suc n) s u

pub Step-work : (s t : Tasks) (step : Step s t) → IsInside step → suc (work t) ≤ work s
Step-work s _ (main_locks_all _ es e p l) h = absurd h
Step-work s _ (main_locks_flag _ es e f) h = ground arith
Step-work s _ (main_skips _ es e f) h = ground arith
Step-work s _ (main_locks_link _ i t es e f p l) h = ground arith
Step-work s _ (main_passes _ i es e) h = ground arith
Step-work s _ (main_locks_acp _ i a es e d p) h = ground arith
Step-work s _ (main_has_read _ i a es e) h = ground arith
Step-work s _ (main_updates _ e f) h = ground arith
Step-work s _ (main_locks_map _ rs e l v u) h = absurd h
Step-work s _ (main_locks_joinlink _ r rs e p l) h = ground arith
Step-work s _ (main_has_sent _ r rs e) h = ground arith
Step-work s _ (main_ends _ e) h = ground arith
Step-work s _ (daemon_locks_acp _ a n i e m p) h = absurd h
Step-work s _ (daemon_locks_flag _ a n e m f) h =
    let less = daemons_work-set s.daemons a (daemon_sets n) (ground arith) in omega arith
Step-work s _ (daemon_unlocks_flag _ a n e) h =
    let less = daemons_work-set s.daemons a (daemon_has_acp n) (ground arith) in omega arith
Step-work s _ (daemon_ends _ a e) h =
    let less = daemons_work-set s.daemons a daemon_listens (ground arith) in omega arith
Step-work s _ (pledge_locks_all _ es e m l) h = absurd h
Step-work s _ (pledge_locks_link _ i t es e m l) h = ground arith
Step-work s _ (pledge_passes _ i es e) h = ground arith
Step-work s _ (pledge_locks_acp _ i a es e m d) h = ground arith
Step-work s _ (pledge_has_read _ i a es e) h = ground arith
Step-work s _ (pledge_finds _ i a es e) h = ground arith
Step-work s _ (pledge_ends _ e) h = ground arith
Step-work s _ (listener_locks_all _ e m p) h = absurd h
Step-work s _ (listener_locks_link _ r e m p) h = ground arith
Step-work s _ (listener_locks_again _ r e m p) h = ground arith
Step-work s _ (listener_unlocks_link _ r e) h = ground arith
Step-work s _ (listener_leaves _ k r e g) h = ground arith
Step-work s _ (listener_starts_acp _ r e) h = ground (arith, daemons_work-grown s.daemons)
Step-work s _ (listener_joins _ k r e g) h = ground arith
Step-work s _ (listener_locks_map _ r e m) h = ground arith
Step-work s _ (listener_lists _ r e) h = ground arith
Step-work s _ (listener_ends _ r e) h = ground arith

-- However the tasks take turns, those that hold locks take together no more steps than `work` counts
-- before a task must take its first lock again: three for each interface that the main loop or a
-- pledge has still to visit, two for each registrar that a daemon has still to add, and so on.
pub Works-bounded : (n : ℕ) (s t : Tasks) → Works n s t → n + work t ≤ work s
Works-bounded _ s _ rests = omega arith
Works-bounded _ s u (works_on {n = n} {t = t} run step inside) =
    let before = Works-bounded n s t run in let last = Step-work t u step inside in omega arith
