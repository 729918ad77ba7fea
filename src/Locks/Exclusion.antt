-- ===== src/Locks/Exclusion.antt =====
-- No mutex of src/interfaces.rs, src/interface.rs and src/acp_interface.rs is held by two tasks.
pub mod Runs
use rooster.Base.{
  ℕ, zero, suc, ◌<◌, Bool, true, false, not, ◌&&◌, ◌||◌, ◌≡◌, ◌⊎◌, inl, inr, refl, sym, ap, ◌∙◌,
  subst, List, [], ◌∷◌, ◌++◌, Option, none, some, length, get_or, set, replicate, get_or-set-cases,
  get_or-append_same, equality_nat, nat_beq_iff, ◌==◌, arith,
}
use rooster.Interface.{Ref}
use rooster.Locks.{
  Entry, MainAt, main_sleeps, main_has_all, main_has_flag, main_has_link, main_reads,
  main_wants_map, main_has_map, main_sends, DaemonAt, daemon_listens, daemon_has_acp, daemon_sets,
  PledgeAt, pledge_away, pledge_has_all, pledge_has_link, pledge_reads, ListenerAt, listener_away,
  listener_has_all, listener_has_link, listener_wants_map, listener_has_map, Tasks, daemon_at,
  start, main_holds_all, main_holds_flag, main_holds_link, main_holds_acp, main_holds_map,
  daemon_holds_acp, daemon_holds_flag, some_daemon_holds_flag, pledge_holds_all, pledge_holds_link,
  pledge_holds_acp, listener_holds_all, listener_holds_link, listener_holds_map,
}
use rooster.Locks.Steps.{
  list_link, Step, main_locks_all, main_locks_flag, main_skips, main_locks_link, main_passes,
  main_locks_acp, main_has_read, main_updates, main_locks_map, main_locks_joinlink, main_has_sent,
  main_ends, daemon_locks_acp, daemon_locks_flag, daemon_unlocks_flag, daemon_ends,
  pledge_locks_all, pledge_locks_link, pledge_passes, pledge_locks_acp, pledge_has_read,
  pledge_finds, pledge_ends, listener_locks_all, listener_locks_link, listener_unlocks_link,
  listener_starts_acp, listener_joins, listener_locks_map, listener_lists, listener_ends, Reaches,
  here, further,
}

-- Of three tasks no two hold a lock.
abbrev one_of : Bool → Bool → Bool → Bool
one_of x y z = not (x && y) && not (x && z) && not (y && z)

abbrev pub one_holds_all : MainAt → PledgeAt → ListenerAt → Bool
one_holds_all m p l = one_of (main_holds_all m) (pledge_holds_all p) (listener_holds_all l)

abbrev pub one_holds_link : Ref → MainAt → PledgeAt → ListenerAt → Bool
one_holds_link r m p l =
    one_of (main_holds_link r m) (pledge_holds_link r p) (listener_holds_link r l)

abbrev pub one_holds_acp : Ref → MainAt → PledgeAt → DaemonAt → Bool
one_holds_acp a m p d = one_of (main_holds_acp a m) (pledge_holds_acp a p) (daemon_holds_acp d)

-- No lock is held twice: that of `AllInterfaces`, of the map of join interfaces, of an interface, of a
-- table, and of the flag.
pub record IsExclusive (s : Tasks) : Type 0 where
  pub all : one_holds_all s.main s.pledge s.listener ≡ true
  pub joinlinks : (main_holds_map s.main && listener_holds_map s.listener) ≡ false
  pub link : (r : Ref) → one_holds_link r s.main s.pledge s.listener ≡ true
  pub table : (a : Ref) → one_holds_acp a s.main s.pledge (daemon_at s a) ≡ true
  pub flag_main : (a : Ref) → (main_holds_flag s.main && daemon_holds_flag (daemon_at s a)) ≡ false
  pub flag_daemons :
      (a b : Ref)
      → daemon_holds_flag (daemon_at s a) ≡ true
      → daemon_holds_flag (daemon_at s b) ≡ true
      → a ≡ b

-- If no daemon holds the flag, then none at any place does.
pub some_daemon-none :
    (ds : List DaemonAt) (a : Ref)
    → some_daemon_holds_flag ds ≡ false
    → daemon_holds_flag (get_or ds a daemon_listens) ≡ false
some_daemon-none [] a e = refl
some_daemon-none (d ∷ ds) zero e = ground arith
some_daemon-none (d ∷ ds) (suc a) e = some_daemon-none ds a (ground arith)

-- What holds of the daemons holds after one of them has changed, if it holds of that one.
module _ (s : Tasks) (a : Ref) (d : DaemonAt) where
  after :
      (P : Ref → DaemonAt → Type 0)
      → P a d
      → ((b : Ref) → P b (daemon_at s b))
      → (b : Ref) → P b (get_or (set s.daemons a d) b daemon_listens)
  after P new old b = elim (get_or-set-cases s.daemons a b d daemon_listens) [
    | inl (same, e) ↦ subst (P b) (sym e) (subst (λ x. P x d) same new)
    | inr e ↦ subst (P b) (sym e) (old b)
  ]

-- The main loop goes on to where it holds no lock that another task holds.
pub main-IsExclusive :
    (s : Tasks) (m : MainAt) (flag' : Bool)
    → IsExclusive s
    → one_holds_all m s.pledge s.listener ≡ true
    → (main_holds_map m && listener_holds_map s.listener) ≡ false
    → ((r : Ref) → one_holds_link r m s.pledge s.listener ≡ true)
    → ((a : Ref) → one_holds_acp a m s.pledge (daemon_at s a) ≡ true)
    → ((a : Ref) → (main_holds_flag m && daemon_holds_flag (daemon_at s a)) ≡ false)
    → IsExclusive (record s { main = m; flag = flag' })
main-IsExclusive s m flag' h all map link table flag = record {
  all = all;
  joinlinks = map;
  link = link;
  table = table;
  flag_main = flag;
  flag_daemons = h.flag_daemons;
}

pub pledge-IsExclusive :
    (s : Tasks) (p : PledgeAt)
    → IsExclusive s
    → one_holds_all s.main p s.listener ≡ true
    → ((r : Ref) → one_holds_link r s.main p s.listener ≡ true)
    → ((a : Ref) → one_holds_acp a s.main p (daemon_at s a) ≡ true)
    → IsExclusive (record s { pledge = p })
pledge-IsExclusive s p h all link table = record {
  all = all;
  joinlinks = h.joinlinks;
  link = link;
  table = table;
  flag_main = h.flag_main;
  flag_daemons = h.flag_daemons;
}

pub listener-IsExclusive :
    (s : Tasks) (l : ListenerAt) (js : List Ref)
    → IsExclusive s
    → one_holds_all s.main s.pledge l ≡ true
    → (main_holds_map s.main && listener_holds_map l) ≡ false
    → ((r : Ref) → one_holds_link r s.main s.pledge l ≡ true)
    → IsExclusive (record s { listener = l; joinlinks = js })
listener-IsExclusive s l js h all map link = record {
  all = all;
  joinlinks = map;
  link = link;
  table = h.table;
  flag_main = h.flag_main;
  flag_daemons = h.flag_daemons;
}

pub daemon-IsExclusive :
    (s : Tasks) (a : Ref) (d : DaemonAt) (flag' : Bool)
    → IsExclusive s
    → one_holds_acp a s.main s.pledge d ≡ true
    → (main_holds_flag s.main && daemon_holds_flag d) ≡ false
    → ((b : Ref) → daemon_holds_flag d ≡ true → daemon_holds_flag (daemon_at s b) ≡ true → a ≡ b)
    → IsExclusive (record s { daemons = set s.daemons a d; flag = flag' })
daemon-IsExclusive s a d flag' h table flag alone = record {
  all = h.all;
  joinlinks = h.joinlinks;
  link = h.link;
  table = after s a d (λ b x. one_holds_acp b s.main s.pledge x ≡ true) table h.table;
  flag_main =
      after s a d (λ b x. (main_holds_flag s.main && daemon_holds_flag x) ≡ false) flag h.flag_main;
  flag_daemons = λ b c e f. elim (get_or-set-cases s.daemons a b d daemon_listens) [
    | inl (a_b, at_b) ↦ elim (get_or-set-cases s.daemons a c d daemon_listens) [
      | inl (a_c, _) ↦ sym a_b ∙ a_c
      | inr at_c ↦
          sym a_b
          ∙ alone c (sym (ap daemon_holds_flag at_b) ∙ e) (sym (ap daemon_holds_flag at_c) ∙ f)
    ]
    | inr at_b ↦ elim (get_or-set-cases s.daemons a c d daemon_listens) [
      | inl (a_c, at_c) ↦
          sym (alone b (sym (ap daemon_holds_flag at_c) ∙ f) (sym (ap daemon_holds_flag at_b) ∙ e))
          ∙ a_c
      | inr at_c ↦
          h.flag_daemons b c (sym (ap daemon_holds_flag at_b) ∙ e)
            (sym (ap daemon_holds_flag at_c) ∙ f)
    ]
  ];
}
