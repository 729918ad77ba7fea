-- ===== src/Locks/Silence.antt =====
-- When nothing goes on but the daemons of src/acp_interface.rs, and there are none.
use rooster.Base.{
  ℕ, zero, suc, ◌<◌, true, false, ◌≡◌, inl, inr, refl, ap, List, [], ◌∷◌, length, get_or,
  equality_nat, nat_beq_iff, arith, Bool-cases,
}
use rooster.Interface.{Ref}
use rooster.Locks.{
  DaemonAt, daemon_listens, daemon_has_acp, daemon_sets, Tasks, daemon_at, main_holds_flag,
  main_holds_acp, some_daemon_holds_flag, pledge_holds_acp,
}
use rooster.Locks.Steps.{
  Step, main_locks_all, main_locks_flag, main_skips, main_locks_link, main_passes, main_locks_acp,
  main_has_read, main_updates, main_locks_map, main_locks_joinlink, main_has_sent, main_ends,
  daemon_locks_acp, daemon_locks_flag, daemon_unlocks_flag, daemon_ends, pledge_locks_all,
  pledge_locks_link, pledge_passes, pledge_locks_acp, pledge_has_read, pledge_finds, pledge_ends,
  listener_locks_all, listener_locks_link, listener_unlocks_link, listener_locks_again,
  listener_leaves, listener_starts_acp, listener_joins, listener_locks_map, listener_lists,
  listener_ends,
}
use rooster.Locks.Exclusion.{IsExclusive}
use rooster.Locks.Crossing.{IsCrossed, IsCrossed-front, pledge_waits}

-- The crossing of main loop and listener leaves nothing that goes on where there is no daemon.
module _ (r : Ref) (s : Tasks) (h : IsExclusive s) (c : IsCrossed r s)
    (none_there : s.daemons ≡ []) where
  nothing_at : (a : Ref) → daemon_at s a ≡ daemon_listens
  nothing_at a = ap (λ ds. get_or ds a daemon_listens) none_there

  pub IsCrossed-stuck : (t : Tasks) → Step s t → ⊥
  IsCrossed-stuck _ (main_locks_all _ es e p l) = ground (arith, c.main_waits)
  IsCrossed-stuck _ (main_locks_flag _ es e f) = ground (arith, c.main_waits)
  IsCrossed-stuck _ (main_skips _ es e f) = ground (arith, c.main_waits)
  IsCrossed-stuck _ (main_locks_link _ i t es e f p l) = ground (arith, c.main_waits)
  IsCrossed-stuck _ (main_passes _ i es e) = ground (arith, c.main_waits)
  IsCrossed-stuck _ (main_locks_acp _ i a es e d p) = ground (arith, c.main_waits)
  IsCrossed-stuck _ (main_has_read _ i a es e) = ground (arith, c.main_waits)
  IsCrossed-stuck _ (main_updates _ e f) = ground (arith, c.main_waits)
  IsCrossed-stuck _ (main_locks_map _ rs e l v u) = ground (arith, c.main_waits)
  IsCrossed-stuck _ (main_locks_joinlink _ q rs e p l) =
      ground (arith, c.listener_waits, IsCrossed-front r s h c q rs e, nat_beq_iff r q)
  IsCrossed-stuck _ (main_has_sent _ q rs e) = ground (arith, c.main_waits)
  IsCrossed-stuck _ (main_ends _ e) = ground (arith, c.main_waits)
  IsCrossed-stuck _ (daemon_locks_acp _ a n i e m p) =
      let empty = ap length none_there in omega arith
  IsCrossed-stuck _ (daemon_locks_flag _ a n e m f) = ground (arith, nothing_at a)
  IsCrossed-stuck _ (daemon_unlocks_flag _ a n e) = ground (arith, nothing_at a)
  IsCrossed-stuck _ (daemon_ends _ a e) = ground (arith, nothing_at a)
  IsCrossed-stuck _ (pledge_locks_all _ es e m l) = ground (arith, c.listener_waits)
  IsCrossed-stuck _ (pledge_locks_link _ i t es e m l) = ground (arith, pledge_waits r s h c)
  IsCrossed-stuck _ (pledge_passes _ i es e) = ground (arith, pledge_waits r s h c)
  IsCrossed-stuck _ (pledge_locks_acp _ i a es e m d) = ground (arith, pledge_waits r s h c)
  IsCrossed-stuck _ (pledge_has_read _ i a es e) = ground (arith, pledge_waits r s h c)
  IsCrossed-stuck _ (pledge_finds _ i a es e) = ground (arith, pledge_waits r s h c)
  IsCrossed-stuck _ (pledge_ends _ e) = ground (arith, pledge_waits r s h c)
  IsCrossed-stuck _ (listener_locks_all _ e m p) = ground (arith, c.listener_waits)
  IsCrossed-stuck _ (listener_locks_link _ q e m p) = ground (arith, c.listener_waits)
  IsCrossed-stuck _ (listener_locks_again _ q e m p) = ground (arith, c.listener_waits)
  IsCrossed-stuck _ (listener_unlocks_link _ q e) = ground (arith, c.listener_waits)
  IsCrossed-stuck _ (listener_leaves _ k q e g) = ground (arith, c.listener_waits)
  IsCrossed-stuck _ (listener_starts_acp _ q e) = ground (arith, c.listener_waits)
  IsCrossed-stuck _ (listener_joins _ k q e g) = ground (arith, c.listener_waits)
  IsCrossed-stuck _ (listener_locks_map _ q e m) = ground (arith, c.main_waits)
  IsCrossed-stuck _ (listener_lists _ q e) = ground (arith, c.listener_waits)
  IsCrossed-stuck _ (listener_ends _ r e) = ground (arith, c.listener_waits)

some_daemon-some :
    (ds : List DaemonAt)
    → some_daemon_holds_flag ds ≡ true
    → (a : Ref) × (n : ℕ) × (get_or ds a daemon_listens ≡ daemon_sets n)
some_daemon-some [] e = cc
some_daemon-some (daemon_sets n ∷ ds) e = (0, n, refl)
some_daemon-some (daemon_listens ∷ ds) e =
    let (a, n, at_a) = some_daemon-some ds e in (suc a, n, at_a)
some_daemon-some (daemon_has_acp k ∷ ds) e =
    let (a, n, at_a) = some_daemon-some ds e in (suc a, n, at_a)

-- While the main loop holds neither the flag nor a table, and no pledge reads one, a daemon that is
-- there, or another, goes on.
pub daemon-Step :
    (s : Tasks) (a : Ref)
    → a < length s.daemons
    → main_holds_flag s.main ≡ false
    → main_holds_acp a s.main ≡ false
    → pledge_holds_acp a s.pledge ≡ false
    → (t : Tasks) × Step s t
daemon-Step s a fits flag table pledge = go (daemon_at s a) refl
  where
    go : (d : DaemonAt) → daemon_at s a ≡ d → (t : Tasks) × Step s t
    go daemon_listens e = (_, daemon_locks_acp s a 0 fits e table pledge)
    go (daemon_has_acp zero) e = (_, daemon_ends s a e)
    go (daemon_sets n) e = (_, daemon_unlocks_flag s a n e)
    go (daemon_has_acp (suc n)) e = elim (Bool-cases (some_daemon_holds_flag s.daemons)) [
      | inl some_holds ↦
          let (b, k, at_b) = some_daemon-some s.daemons some_holds in
          (_, daemon_unlocks_flag s b k at_b)
      | inr none_holds ↦ (_, daemon_locks_flag s a n e flag none_holds)
    ]
