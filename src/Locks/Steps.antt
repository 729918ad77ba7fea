-- ===== src/Locks/Steps.antt =====
-- How the tasks of src/main.rs, src/interfaces.rs and src/acp_interface.rs take and release their
-- mutexes, one at a time.
use rooster.Base.{
  ℕ, suc, true, false, ◌≡◌, ◌↔◌, ◌<◌, List, [], ◌∷◌, ◌++◌, Option, none, some, In, contains, length,
  set, equality_nat, if◌then◌else◌,
}
use rooster.Interface.{Ref}
use rooster.Locks.{
  Entry, main_sleeps, main_has_all, main_has_flag, main_has_link, main_reads, main_wants_map,
  main_has_map, main_sends, daemon_listens, daemon_has_acp, daemon_sets, pledge_away,
  pledge_has_all, pledge_has_link, pledge_reads, LinkAt, link_stores, link_rises, link_served,
  is_again, listener_away, listener_has_all, listener_has_link, listener_wants_map,
  listener_has_map, Tasks, daemon_at, main_holds_all, main_holds_flag, main_holds_link,
  main_holds_acp, main_holds_map, daemon_holds_acp, some_daemon_holds_flag, pledge_holds_all,
  pledge_holds_link, pledge_holds_acp, listener_holds_all, listener_holds_link, listener_holds_map,
}

-- `ji_hash.entry(ifindex).or_insert_with(…)`, on the values of the map.
abbrev pub list_link : Ref → List Ref → List Ref
list_link r rs = if contains rs r then rs else r ∷ rs

-- `HashMap::values` yields each interface once.
abbrev pub IsDistinct : List Ref → Type 0
IsDistinct [] = Unit
IsDistinct (r ∷ rs) = (In r rs → ⊥) × IsDistinct rs

-- A task goes on when no other holds the lock that it waits for. Maps are visited in any order, and
-- a pledge is content with the first registrar.
pub data Step : Tasks → Tasks → Type 0 where
  main_locks_all :
      (s : Tasks) (entries : List Entry)
      → s.main ≡ main_sleeps
      → pledge_holds_all s.pledge ≡ false
      → listener_holds_all s.listener ≡ false
      → Step s (record s { main = main_has_all entries })
  main_locks_flag :
      (s : Tasks) (entries : List Entry)
      → s.main ≡ main_has_all entries
      → some_daemon_holds_flag s.daemons ≡ false
      → Step s (record s { main = main_has_flag entries })
  main_skips :
      (s : Tasks) (entries : List Entry)
      → s.main ≡ main_has_flag entries
      → s.flag ≡ false
      → Step s (record s { main = main_wants_map })
  main_locks_link :
      (s : Tasks) (i : Ref) (table : Option Ref) (entries : List Entry)
      → s.main ≡ main_has_flag ((i, table) ∷ entries)
      → s.flag ≡ true
      → pledge_holds_link i s.pledge ≡ false
      → listener_holds_link i s.listener ≡ false
      → Step s (record s { main = main_has_link i table entries })
  main_passes :
      (s : Tasks) (i : Ref) (entries : List Entry)
      → s.main ≡ main_has_link i none entries
      → Step s (record s { main = main_has_flag entries })
  main_locks_acp :
      (s : Tasks) (i a : Ref) (entries : List Entry)
      → s.main ≡ main_has_link i (some a) entries
      → daemon_holds_acp (daemon_at s a) ≡ false
      → pledge_holds_acp a s.pledge ≡ false
      → Step s (record s { main = main_reads i a entries })
  main_has_read :
      (s : Tasks) (i a : Ref) (entries : List Entry)
      → s.main ≡ main_reads i a entries
      → Step s (record s { main = main_has_flag entries })
  main_updates :
      (s : Tasks)
      → s.main ≡ main_has_flag []
      → s.flag ≡ true
      → Step s (record s { main = main_wants_map; flag = false })
  main_locks_map :
      (s : Tasks) (links : List Ref)
      → s.main ≡ main_wants_map
      → listener_holds_map s.listener ≡ false
      → ((r : Ref) → In r links ↔ In r s.joinlinks)
      → IsDistinct links
      → Step s (record s { main = main_has_map links })
  main_locks_joinlink :
      (s : Tasks) (r : Ref) (links : List Ref)
      → s.main ≡ main_has_map (r ∷ links)
      → pledge_holds_link r s.pledge ≡ false
      → listener_holds_link r s.listener ≡ false
      → Step s (record s { main = main_sends r links })
  main_has_sent :
      (s : Tasks) (r : Ref) (links : List Ref)
      → s.main ≡ main_sends r links
      → Step s (record s { main = main_has_map links })
  main_ends : (s : Tasks) → s.main ≡ main_has_map [] → Step s (record s { main = main_sleeps })
  daemon_locks_acp :
      (s : Tasks) (a : Ref) (n : ℕ)
      → a < length s.daemons
      → daemon_at s a ≡ daemon_listens
      → main_holds_acp a s.main ≡ false
      → pledge_holds_acp a s.pledge ≡ false
      → Step s (record s { daemons = set s.daemons a (daemon_has_acp n) })
  daemon_locks_flag :
      (s : Tasks) (a : Ref) (n : ℕ)
      → daemon_at s a ≡ daemon_has_acp (suc n)
      → main_holds_flag s.main ≡ false
      → some_daemon_holds_flag s.daemons ≡ false
      → Step s (record s { daemons = set s.daemons a (daemon_sets n) })
  daemon_unlocks_flag :
      (s : Tasks) (a : Ref) (n : ℕ)
      → daemon_at s a ≡ daemon_sets n
      → Step s (record s { daemons = set s.daemons a (daemon_has_acp n); flag = true })
  daemon_ends :
      (s : Tasks) (a : Ref)
      → daemon_at s a ≡ daemon_has_acp 0
      → Step s (record s { daemons = set s.daemons a daemon_listens })
  pledge_locks_all :
      (s : Tasks) (entries : List Entry)
      → s.pledge ≡ pledge_away
      → main_holds_all s.main ≡ false
      → listener_holds_all s.listener ≡ false
      → Step s (record s { pledge = pledge_has_all entries })
  pledge_locks_link :
      (s : Tasks) (i : Ref) (table : Option Ref) (entries : List Entry)
      → s.pledge ≡ pledge_has_all ((i, table) ∷ entries)
      → main_holds_link i s.main ≡ false
      → listener_holds_link i s.listener ≡ false
      → Step s (record s { pledge = pledge_has_link i table entries })
  pledge_passes :
      (s : Tasks) (i : Ref) (entries : List Entry)
      → s.pledge ≡ pledge_has_link i none entries
      → Step s (record s { pledge = pledge_has_all entries })
  pledge_locks_acp :
      (s : Tasks) (i a : Ref) (entries : List Entry)
      → s.pledge ≡ pledge_has_link i (some a) entries
      → main_holds_acp a s.main ≡ false
      → daemon_holds_acp (daemon_at s a) ≡ false
      → Step s (record s { pledge = pledge_reads i a entries })
  pledge_has_read :
      (s : Tasks) (i a : Ref) (entries : List Entry)
      → s.pledge ≡ pledge_reads i a entries
      → Step s (record s { pledge = pledge_has_all entries })
  pledge_finds :
      (s : Tasks) (i a : Ref) (entries : List Entry)
      → s.pledge ≡ pledge_reads i a entries
      → Step s (record s { pledge = pledge_away })
  pledge_ends :
      (s : Tasks) → s.pledge ≡ pledge_has_all [] → Step s (record s { pledge = pledge_away })
  listener_locks_all :
      (s : Tasks)
      → s.listener ≡ listener_away
      → main_holds_all s.main ≡ false
      → pledge_holds_all s.pledge ≡ false
      → Step s (record s { listener = listener_has_all none })
  listener_locks_link :
      (s : Tasks) (r : Ref)
      → s.listener ≡ listener_has_all none
      → main_holds_link r s.main ≡ false
      → pledge_holds_link r s.pledge ≡ false
      → Step s (record s { listener = listener_has_link link_stores r })
  listener_unlocks_link :
      (s : Tasks) (r : Ref)
      → s.listener ≡ listener_has_link link_stores r
      → Step s (record s { listener = listener_has_all (some r) })
  listener_locks_again :
      (s : Tasks) (r : Ref)
      → s.listener ≡ listener_has_all (some r)
      → main_holds_link r s.main ≡ false
      → pledge_holds_link r s.pledge ≡ false
      → Step s (record s { listener = listener_has_link link_rises r })
  listener_starts_acp :
      (s : Tasks) (r : Ref)
      → s.listener ≡ listener_has_link link_rises r
      → Step s (record s {
        listener = listener_has_link link_served r;
        daemons = s.daemons ++ (daemon_listens ∷ []);
      })
  listener_joins :
      (s : Tasks) (p : LinkAt) (r : Ref)
      → s.listener ≡ listener_has_link p r
      → is_again p ≡ true
      → Step s (record s { listener = listener_wants_map r })
  listener_leaves :
      (s : Tasks) (p : LinkAt) (r : Ref)
      → s.listener ≡ listener_has_link p r
      → is_again p ≡ true
      → Step s (record s { listener = listener_away })
  listener_locks_map :
      (s : Tasks) (r : Ref)
      → s.listener ≡ listener_wants_map r
      → main_holds_map s.main ≡ false
      → Step s (record s { listener = listener_has_map r })
  listener_lists :
      (s : Tasks) (r : Ref)
      → s.listener ≡ listener_has_map r
      → Step s (record s { listener = listener_away; joinlinks = list_link r s.joinlinks })
  listener_ends :
      (s : Tasks) (r : Ref)
      → s.listener ≡ listener_has_all (some r)
      → Step s (record s { listener = listener_away })

-- Any number of steps, the last one last.
pub data Reaches (s : Tasks) : Tasks → Type 0 where
  here : Reaches s s
  further : {t u : Tasks} → Reaches s t → Step t u → Reaches s u
