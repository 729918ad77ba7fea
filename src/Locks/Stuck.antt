-- ===== src/Locks/Stuck.antt =====
-- When nothing of src/main.rs, src/interfaces.rs, src/acp_interface.rs and src/join_interface.rs goes
-- on.
use rooster.Base.{
  none, some, ℕ, zero, suc, ◌<◌, ◌≡◌, ◌↔◌, ◌⊎◌, inl, inr, refl, ap, List, [], ◌∷◌, length, get_or,
  equality_nat, arith,
}
use rooster.Interface.{Ref}
use rooster.Locks.{
  MainAt, main_sleeps, main_has_all, main_has_flag, main_has_link, main_reads, main_wants_map,
  main_has_map, main_sends, DaemonAt, daemon_listens, daemon_has_acp, daemon_sets, PledgeAt,
  pledge_away, pledge_has_all, pledge_has_link, pledge_reads, ListenerAt, listener_away,
  link_stores, link_rises, link_served, listener_has_all, listener_has_link, listener_wants_map,
  listener_has_map, Tasks, daemon_at, start,
}
use rooster.Locks.Steps.{
  Step, main_locks_all, main_locks_flag, main_skips, main_locks_link, main_passes, main_locks_acp,
  main_has_read, main_updates, main_locks_map, main_locks_joinlink, main_has_sent, main_ends,
  daemon_locks_acp, daemon_locks_flag, daemon_unlocks_flag, daemon_ends, pledge_locks_all,
  pledge_locks_link, pledge_passes, pledge_locks_acp, pledge_has_read, pledge_finds, pledge_ends,
  listener_locks_all, listener_locks_link, listener_unlocks_link, listener_locks_again,
  listener_leaves, listener_starts_acp, listener_joins, listener_locks_map, listener_lists,
  listener_ends, Reaches,
}
use rooster.Locks.Links.{IsDistinct-links}
use rooster.Locks.Exclusion.{IsExclusive}
use rooster.Locks.Exclusion.Runs.{Reaches-IsExclusive}
use rooster.Locks.Deadlock.{IsDeadlock, IsDeadlock-front, pledge_waits, listener_waits}
use rooster.Locks.Crossing.{IsCrossed}
use rooster.Locks.Silence.{IsCrossed-stuck, daemon-Step}
use rooster.Locks.Work.{work, main_work, pledge_work, listener_work}
use rooster.Locks.Progress.{progress}

-- Every daemon has heard a flood, and waits for the flag.
abbrev pub AllWait : Tasks → Type 0
AllWait s = (a : Ref) → a < length s.daemons → (n : ℕ) × (daemon_at s a ≡ daemon_has_acp (suc n))

there-fits :
    (ds : List DaemonAt) (a : Ref)
    → (get_or ds a daemon_listens ≡ daemon_listens → ⊥)
    → a < length ds
there-fits [] a h = absurd (h refl)
there-fits (d ∷ ds) zero h = omega arith
there-fits (d ∷ ds) (suc a) h = let fits = there-fits ds a h in omega arith

-- Then the deadlock of one of them with the main loop leaves nothing that goes on.
module _ (table : Ref) (s : Tasks) (h : IsExclusive s) (d : IsDeadlock table s)
    (all : AllWait s) where
  IsDeadlock-stuck : (t : Tasks) → Step s t → ⊥
  IsDeadlock-stuck _ (main_locks_all _ es e p l) = ground (arith, d.main_waits)
  IsDeadlock-stuck _ (main_locks_flag _ es e f) = ground (arith, d.main_waits)
  IsDeadlock-stuck _ (main_skips _ es e f) = ground (arith, d.main_waits)
  IsDeadlock-stuck _ (main_locks_link _ i t es e f p l) = ground (arith, d.main_waits)
  IsDeadlock-stuck _ (main_passes _ i es e) = ground (arith, d.main_waits)
  IsDeadlock-stuck _ (main_locks_acp _ i a es e b p) =
      ground (arith, d.daemon_waits, IsDeadlock-front table s h d i a es e)
  IsDeadlock-stuck _ (main_has_read _ i a es e) = ground (arith, d.main_waits)
  IsDeadlock-stuck _ (main_updates _ e f) = ground (arith, d.main_waits)
  IsDeadlock-stuck _ (main_locks_map _ rs e l v u) = ground (arith, d.main_waits)
  IsDeadlock-stuck _ (main_locks_joinlink _ r rs e p l) = ground (arith, d.main_waits)
  IsDeadlock-stuck _ (main_has_sent _ r rs e) = ground (arith, d.main_waits)
  IsDeadlock-stuck _ (main_ends _ e) = ground (arith, d.main_waits)
  IsDeadlock-stuck _ (daemon_locks_acp _ a n i e m p) = let (k, w) = all a i in ground arith
  IsDeadlock-stuck _ (daemon_locks_flag _ a n e m f) = ground (arith, d.main_waits)
  IsDeadlock-stuck _ (daemon_unlocks_flag _ a n e) =
      let (k, w) = all a (there-fits s.daemons a (λ l. cc)) in ground arith
  IsDeadlock-stuck _ (daemon_ends _ a e) =
      let (k, w) = all a (there-fits s.daemons a (λ l. cc)) in ground arith
  IsDeadlock-stuck _ (pledge_locks_all _ es e m l) = ground (arith, d.main_waits)
  IsDeadlock-stuck _ (pledge_locks_link _ i t es e m l) = ground (arith, pledge_waits table s h d)
  IsDeadlock-stuck _ (pledge_passes _ i es e) = ground (arith, pledge_waits table s h d)
  IsDeadlock-stuck _ (pledge_locks_acp _ i a es e m b) = ground (arith, pledge_waits table s h d)
  IsDeadlock-stuck _ (pledge_has_read _ i a es e) = ground (arith, pledge_waits table s h d)
  IsDeadlock-stuck _ (pledge_finds _ i a es e) = ground (arith, pledge_waits table s h d)
  IsDeadlock-stuck _ (pledge_ends _ e) = ground (arith, pledge_waits table s h d)
  IsDeadlock-stuck _ (listener_locks_all _ e m p) = ground (arith, d.main_waits)
  IsDeadlock-stuck _ (listener_locks_link _ r e m p) = ground (arith, listener_waits table s h d)
  IsDeadlock-stuck _ (listener_locks_again _ r e m p) = ground (arith, listener_waits table s h d)
  IsDeadlock-stuck _ (listener_unlocks_link _ r e) = ground (arith, listener_waits table s h d)
  IsDeadlock-stuck _ (listener_leaves _ k r e g) = ground (arith, listener_waits table s h d)
  IsDeadlock-stuck _ (listener_starts_acp _ r e) = ground (arith, listener_waits table s h d)
  IsDeadlock-stuck _ (listener_joins _ k r e g) = ground (arith, listener_waits table s h d)
  IsDeadlock-stuck _ (listener_locks_map _ r e m) = ground (arith, listener_waits table s h d)
  IsDeadlock-stuck _ (listener_lists _ r e) = ground (arith, listener_waits table s h d)
  IsDeadlock-stuck _ (listener_ends _ r e) = ground (arith, listener_waits table s h d)

main_work-zero : (m : MainAt) → main_work m ≡ 0 → (m ≡ main_sleeps) ⊎ (m ≡ main_wants_map)
main_work-zero main_sleeps e = inl refl
main_work-zero main_wants_map e = inr refl
main_work-zero (main_has_all es) e = absurd (omega arith)
main_work-zero (main_has_flag es) e = absurd (omega arith)
main_work-zero (main_has_link i t es) e = absurd (omega arith)
main_work-zero (main_reads i a es) e = absurd (omega arith)
main_work-zero (main_has_map rs) e = absurd (omega arith)
main_work-zero (main_sends r rs) e = absurd (omega arith)

pledge_work-zero : (p : PledgeAt) → pledge_work p ≡ 0 → p ≡ pledge_away
pledge_work-zero pledge_away e = refl
pledge_work-zero (pledge_has_all es) e = absurd (omega arith)
pledge_work-zero (pledge_has_link i t es) e = absurd (omega arith)
pledge_work-zero (pledge_reads i a es) e = absurd (omega arith)

listener_work-zero : (l : ListenerAt) → listener_work l ≡ 0 → l ≡ listener_away
listener_work-zero listener_away e = refl
listener_work-zero (listener_has_all none) e = absurd (omega arith)
listener_work-zero (listener_has_all (some r)) e = absurd (omega arith)
listener_work-zero (listener_has_link link_stores r) e = absurd (omega arith)
listener_work-zero (listener_has_link link_rises r) e = absurd (omega arith)
listener_work-zero (listener_has_link link_served r) e = absurd (omega arith)
listener_work-zero (listener_wants_map r) e = absurd (omega arith)
listener_work-zero (listener_has_map r) e = absurd (omega arith)

-- While no lock is held, the main loop can go on.
idle-Step : (s : Tasks) → work s ≡ 0 → (t : Tasks) × Step s t
idle-Step s e =
    let away = pledge_work-zero s.pledge (omega arith) in
    let quiet = listener_work-zero s.listener (omega arith) in
    elim (main_work-zero s.main (omega arith)) [
      | inl asleep ↦ (_, main_locks_all s [] asleep (ground arith) (ground arith))
      | inr wants ↦
          let (links, same, once) = IsDistinct-links s.joinlinks in
          (_, main_locks_map s links wants (ground arith) same once)
    ]

IsDeadlock-AllWait :
    (table : Ref) (s : Tasks)
    → IsExclusive s
    → IsDeadlock table s
    → ((t : Tasks) → ¬ Step s t)
    → AllWait s
IsDeadlock-AllWait table s h d stuck a i = go (daemon_at s a) refl
  where
    go : (x : DaemonAt) → daemon_at s a ≡ x → (n : ℕ) × (daemon_at s a ≡ daemon_has_acp (suc n))
    go daemon_listens e = absurd (
        stuck _ (
          daemon_locks_acp s a 0 i e (ground (arith, d.main_waits))
            (ground (arith, pledge_waits table s h d))))
    go (daemon_has_acp zero) e = absurd (stuck _ (daemon_ends s a e))
    go (daemon_has_acp (suc n)) e = (n, e)
    go (daemon_sets n) e = absurd (stuck _ (daemon_unlocks_flag s a n e))

-- The deadlock of main loop and daemon, with every daemon in wait.
abbrev pub AllStuck : Tasks → Type 0
AllStuck s = ((table : Ref) × IsDeadlock table s) × AllWait s

-- The crossing of main loop and listener, without a daemon.
abbrev pub LinksStuck : Tasks → Type 0
LinksStuck s = ((r : Ref) × IsCrossed r s) × (s.daemons ≡ [])

IsCrossed-no_daemon :
    (r : Ref) (s : Tasks)
    → IsExclusive s
    → IsCrossed r s
    → ((t : Tasks) → ¬ Step s t)
    → s.daemons ≡ []
IsCrossed-no_daemon r s h c stuck = go s.daemons refl
  where
    go : (ds : List DaemonAt) → s.daemons ≡ ds → s.daemons ≡ []
    go [] e = e
    go (d ∷ ds) e =
        let there : length s.daemons ≡ suc (length ds) = ap length e in
        let (t, step) =
          daemon-Step s 0 (omega arith) (ground (arith, c.main_waits))
            (ground (arith, c.main_waits)) (ground (arith, h.all, c.listener_waits)) in
        absurd (stuck t step)

-- With any number of interfaces, and in whatever order the tasks run from the start: nothing goes on
-- exactly where the main loop and a daemon are in their deadlock and every other daemon has heard a
-- flood and waits for the flag too, or where the main loop and the listener are in theirs and there
-- is no daemon.
pub AllStuck-Step_iff :
    (interfaces : ℕ) (joinlinks : List Ref) (s : Tasks)
    → Reaches (start interfaces joinlinks) s
    → (AllStuck s ⊎ LinksStuck s) ↔ ((t : Tasks) → ¬ Step s t)
AllStuck-Step_iff interfaces joinlinks s r =
    let h = Reaches-IsExclusive interfaces joinlinks s r in
    (
      (λ which t step. elim which [
        | inl ((table, d), all) ↦ IsDeadlock-stuck table s h d all t step
        | inr ((q, c), none_there) ↦ IsCrossed-stuck q s h c none_there t step
      ]),
      (λ stuck. elim (progress s h) [
        | inl e ↦ let (t, step) = idle-Step s e in absurd (stuck t step)
        | inr (inl (t, step, _)) ↦ absurd (stuck t step)
        | inr (inr (inl (table, d))) ↦ inl ((table, d), IsDeadlock-AllWait table s h d stuck)
        | inr (inr (inr (q, c))) ↦ inr ((q, c), IsCrossed-no_daemon q s h c stuck)
      ]),
    )
