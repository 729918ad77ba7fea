-- ===== src/Locks/Deadlock.antt =====
-- The main loop of src/main.rs and a daemon of src/acp_interface.rs can wait for each other.
use rooster.Base.{
  ℕ, zero, suc, ◌<◌, Bool, true, false, ◌≡◌, inl, inr, refl, ap, ◌∙◌, List, [], ◌∷◌, some, length,
  get_or, set, replicate, get_or-set-cases, get_or-set_self, equality_nat, arith,
}
use rooster.Interface.{Ref}
use rooster.Locks.{
  Entry, main_has_all, main_has_flag, main_has_link, DaemonAt, daemon_listens, daemon_has_acp,
  Tasks, daemon_at, start, some_daemon_holds_flag, pledge_holds_all, listener_holds_all,
}
use rooster.Locks.Steps.{
  Step, main_locks_all, main_locks_flag, main_skips, main_locks_link, main_passes, main_locks_acp,
  main_has_read, main_updates, main_locks_map, main_locks_joinlink, main_has_sent, main_ends,
  daemon_locks_acp, daemon_locks_flag, daemon_unlocks_flag, daemon_ends, pledge_locks_all,
  pledge_locks_link, pledge_passes, pledge_locks_acp, pledge_has_read, pledge_finds, pledge_ends,
  listener_locks_all, listener_locks_link, listener_unlocks_link, listener_locks_again,
  listener_leaves, listener_starts_acp, listener_joins, listener_locks_map, listener_lists,
  listener_ends, Reaches, here, further,
}
use rooster.Locks.Exclusion.{IsExclusive}
use rooster.Locks.Exclusion.Runs.{Step-IsExclusive, Reaches-IsExclusive, daemon_at-start}

-- The main loop holds the flag and waits for a table; its daemon holds the table and waits for the
-- flag, to note a registrar that it has added.
pub record IsDeadlock (table : Ref) (s : Tasks) : Type 0 where
  pub interface : Ref
  pub later : List Entry
  pub left : ℕ
  pub main_waits : s.main ≡ main_has_link interface (some table) later
  pub daemon_waits : daemon_at s table ≡ daemon_has_acp (suc left)

-- A deadlock as it is in another state.
abbrev Stays : Ref → Tasks → Tasks → Type 0
Stays table s t = IsDeadlock table t × (t.main ≡ s.main) × (daemon_at t table ≡ daemon_at s table)

module _ (table : Ref) (s : Tasks) (h : IsExclusive s) (d : IsDeadlock table s) where
  -- The daemons change, but not that of the table.
  daemons-Stay :
      (ds : List DaemonAt) (flag' : Bool)
      → get_or ds table daemon_listens ≡ daemon_at s table
      → Stays table s (record s { daemons = ds; flag = flag' })
  daemons-Stay ds flag' same = (
    record {
      interface = d.interface;
      later = d.later;
      left = d.left;
      main_waits = d.main_waits;
      daemon_waits = same ∙ d.daemon_waits;
    },
    refl,
    same,
  )

  -- Another daemon goes on.
  other-Stays :
      (a : Ref) (x : DaemonAt) (flag' : Bool)
      → (daemon_at s a ≡ daemon_has_acp (suc d.left) → ⊥)
      → Stays table s (record s { daemons = set s.daemons a x; flag = flag' })
  other-Stays a x flag' other =
      daemons-Stay (set s.daemons a x) flag'
        (elim (get_or-set-cases s.daemons a table x daemon_listens) [
          | inl (e, _) ↦ absurd (other (ap (daemon_at s) e ∙ d.daemon_waits))
          | inr e ↦ e
        ])

  pub pledge_waits : pledge_holds_all s.pledge ≡ false
  pledge_waits = ground (arith, h.all, d.main_waits)

  pub listener_waits : listener_holds_all s.listener ≡ false
  listener_waits = ground (arith, h.all, d.main_waits)

  -- The table that the main loop waits for is that of the daemon.
  pub IsDeadlock-front :
      (i a : Ref) (entries : List Entry) → s.main ≡ main_has_link i (some a) entries → a ≡ table
  IsDeadlock-front i a entries e = cc

  -- Whatever step is taken, the deadlock stays.
  Step-Stays : (t : Tasks) → Step s t → Stays table s t
  Step-Stays _ (main_locks_all _ es e p l) = ground (arith, d.main_waits)
  Step-Stays _ (main_locks_flag _ es e f) = ground (arith, d.main_waits)
  Step-Stays _ (main_skips _ es e f) = ground (arith, d.main_waits)
  Step-Stays _ (main_locks_link _ i t es e f p l) = ground (arith, d.main_waits)
  Step-Stays _ (main_passes _ i es e) = ground (arith, d.main_waits)
  Step-Stays _ (main_locks_acp _ i a es e b p) =
      absurd (ground (arith, d.daemon_waits, IsDeadlock-front i a es e))
  Step-Stays _ (main_has_read _ i a es e) = ground (arith, d.main_waits)
  Step-Stays _ (main_updates _ e f) = ground (arith, d.main_waits)
  Step-Stays _ (main_locks_map _ rs e l v u) = ground (arith, d.main_waits)
  Step-Stays _ (main_locks_joinlink _ r rs e p l) = ground (arith, d.main_waits)
  Step-Stays _ (main_has_sent _ r rs e) = ground (arith, d.main_waits)
  Step-Stays _ (main_ends _ e) = ground (arith, d.main_waits)
  Step-Stays _ (daemon_locks_acp _ a n i e m p) = other-Stays a (daemon_has_acp n) s.flag (λ k. cc)
  Step-Stays _ (daemon_locks_flag _ a n e m f) = ground (arith, d.main_waits)
  Step-Stays _ (daemon_unlocks_flag _ a n e) = other-Stays a (daemon_has_acp n) true (λ k. cc)
  Step-Stays _ (daemon_ends _ a e) = other-Stays a daemon_listens s.flag (λ k. cc)
  Step-Stays _ (pledge_locks_all _ es e m l) = ground (arith, d.main_waits)
  Step-Stays _ (pledge_locks_link _ i t es e m l) = ground (arith, pledge_waits)
  Step-Stays _ (pledge_passes _ i es e) = ground (arith, pledge_waits)
  Step-Stays _ (pledge_locks_acp _ i a es e m b) = ground (arith, pledge_waits)
  Step-Stays _ (pledge_has_read _ i a es e) = ground (arith, pledge_waits)
  Step-Stays _ (pledge_finds _ i a es e) = ground (arith, pledge_waits)
  Step-Stays _ (pledge_ends _ e) = ground (arith, pledge_waits)
  Step-Stays _ (listener_locks_all _ e m p) = ground (arith, d.main_waits)
  Step-Stays _ (listener_locks_link _ r e m p) = ground (arith, listener_waits)
  Step-Stays _ (listener_locks_again _ r e m p) = ground (arith, listener_waits)
  Step-Stays _ (listener_unlocks_link _ r e) = ground (arith, listener_waits)
  Step-Stays _ (listener_leaves _ k r e g) = ground (arith, listener_waits)
  Step-Stays _ (listener_starts_acp _ r e) = ground (arith, listener_waits)
  Step-Stays _ (listener_joins _ k r e g) = ground (arith, listener_waits)
  Step-Stays _ (listener_locks_map _ r e m) = ground (arith, listener_waits)
  Step-Stays _ (listener_lists _ r e) = ground (arith, listener_waits)
  Step-Stays _ (listener_ends _ r e) = ground (arith, listener_waits)

pub Reaches-then : (u s t : Tasks) → Reaches u s → Reaches s t → Reaches u t
Reaches-then u s _ r here = r
Reaches-then u s _ r (further {t = v} q step) = further (Reaches-then u s v r q) step

-- Once the main loop and a daemon wait for each other, they do so for ever: whatever steps the other
-- tasks take, the two stand still, and neither a pledge nor the listener gets past the lock of
-- `AllInterfaces`.
pub IsDeadlock-stays :
    (interfaces : ℕ) (joinlinks : List Ref) (table : Ref) (s t : Tasks)
    → Reaches (start interfaces joinlinks) s
    → IsDeadlock table s
    → Reaches s t
    → IsDeadlock table t
      × (t.main ≡ s.main)
      × (daemon_at t table ≡ daemon_at s table)
      × (pledge_holds_all t.pledge ≡ false)
      × (listener_holds_all t.listener ≡ false)
IsDeadlock-stays n js table s _ r d here =
    let h = Reaches-IsExclusive n js s r in
    (d, refl, refl, pledge_waits table s h d, listener_waits table s h d)
IsDeadlock-stays n js table s _ r d (further {t} {u} q step) =
    let (e, main_same, daemon_same, _, _) = IsDeadlock-stays n js table s t r d q in
    let h = Reaches-IsExclusive n js t (Reaches-then (start n js) s t r q) in
    let (e', main_same', daemon_same') = Step-Stays table t h e u step in
    let h' = Step-IsExclusive t u step h in
    (
      e',
      main_same' ∙ main_same,
      daemon_same' ∙ daemon_same,
      pledge_waits table u h' e',
      listener_waits table u h' e',
    )

length-replicate : (k : ℕ) → length (replicate k daemon_listens) ≡ k
length-replicate zero = refl
length-replicate (suc k) = ap suc (length-replicate k)

pub some_daemon-start : (k : ℕ) → some_daemon_holds_flag (replicate k daemon_listens) ≡ false
some_daemon-start zero = refl
some_daemon-start (suc k) = some_daemon-start k

some_daemon-hearing :
    (k : ℕ) (a : Ref) (m : ℕ)
    → some_daemon_holds_flag (set (replicate k daemon_listens) a (daemon_has_acp m)) ≡ false
some_daemon-hearing zero a m = refl
some_daemon-hearing (suc k) zero m = some_daemon-start k
some_daemon-hearing (suc k) (suc a) m = some_daemon-hearing k a m

-- Among any number of ACP interfaces, a flood that one of them gets and that announces any number of
-- registrars, at least one, can end in the deadlock.
pub IsDeadlock-reachable :
    (interfaces : ℕ) (joinlinks : List Ref) (i table : Ref) (n : ℕ)
    → table < interfaces
    → (s : Tasks) × Reaches (start interfaces joinlinks) s × IsDeadlock table s
IsDeadlock-reachable interfaces joinlinks i table n fits =
    let begun = start interfaces joinlinks in
    let entries : List Entry = (i, some table) ∷ [] in
    let inside : table < length begun.daemons = omega (arith, length-replicate interfaces) in
    let hearing : Tasks = record begun {
      daemons = set begun.daemons table (daemon_has_acp (suc n));
    } in
    let entered : Tasks = record hearing { main = main_has_all entries } in
    let flagged : Tasks = record hearing { main = main_has_flag entries } in
    let stuck : Tasks = record hearing { main = main_has_link i (some table) [] } in
    let listens = daemon_at-start interfaces table in
    let hears : Reaches begun hearing =
      further here (daemon_locks_acp begun table (suc n) inside listens refl refl) in
    let enters : Reaches begun entered =
      further hears (main_locks_all hearing entries refl refl refl) in
    let flags : Reaches begun flagged =
      further enters
        (main_locks_flag entered entries refl (some_daemon-hearing interfaces table (suc n))) in
    let waits : Reaches begun stuck =
      further flags (main_locks_link flagged i (some table) [] refl refl refl refl) in
    (
      stuck,
      waits,
      record {
        interface = i;
        later = [];
        left = n;
        main_waits = refl;
        daemon_waits =
            get_or-set_self begun.daemons table (daemon_has_acp (suc n)) daemon_listens inside;
      },
    )
