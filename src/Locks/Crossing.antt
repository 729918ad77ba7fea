-- ===== src/Locks/Crossing.antt =====
-- The main loop of src/main.rs, while it announces, and the listener of src/interfaces.rs can wait for
-- each other.
use rooster.Base.{
  ℕ, Bool, true, false, ◌≡◌, inl, inr, refl, ap, none, some, ◌∙◌, subst, List, [], ◌∷◌, In, set,
  equality_nat, nat_beq_iff, arith,
}
use rooster.Interface.{Ref}
use rooster.Locks.{
  main_sends, pledge_away, listener_away, link_stores, link_rises, main_has_all, main_has_flag,
  main_wants_map, main_has_map, DaemonAt, daemon_listens, daemon_has_acp, daemon_sets, PledgeAt,
  listener_has_all, listener_has_link, listener_wants_map, Tasks, start, pledge_holds_all,
}
use rooster.Locks.Steps.{
  Step, main_locks_all, main_locks_flag, main_skips, main_locks_link, main_passes, main_locks_acp,
  main_has_read, main_updates, main_locks_map, main_locks_joinlink, main_has_sent, main_ends,
  daemon_locks_acp, daemon_locks_flag, daemon_unlocks_flag, daemon_ends, pledge_locks_all,
  pledge_locks_link, pledge_passes, pledge_locks_acp, pledge_has_read, pledge_finds, pledge_ends,
  listener_locks_all, listener_locks_link, listener_unlocks_link, listener_locks_again,
  listener_leaves, listener_starts_acp, listener_joins, listener_locks_map, listener_lists,
  listener_ends, Reaches, here, further,
}
use rooster.Locks.Links.{IsDistinct-links}
use rooster.Locks.Exclusion.{IsExclusive}
use rooster.Locks.Exclusion.Runs.{Step-IsExclusive, Reaches-IsExclusive}
use rooster.Locks.Deadlock.{Reaches-then, some_daemon-start}

-- The main loop holds the map of join interfaces and waits for one of them; the listener, on whose
-- link it has come up, holds that interface and waits for the map.
pub record IsCrossed (r : Ref) (s : Tasks) : Type 0 where
  pub later : List Ref
  pub main_waits : s.main ≡ main_has_map (r ∷ later)
  pub listener_waits : s.listener ≡ listener_wants_map r

-- A crossing as it is in another state.
abbrev Stays : Ref → Tasks → Tasks → Type 0
Stays r s t = IsCrossed r t × (t.main ≡ s.main) × (t.listener ≡ s.listener)

module _ (r : Ref) (s : Tasks) (h : IsExclusive s) (c : IsCrossed r s) where
  -- The other tasks go on.
  others-Stay :
      (ds : List DaemonAt) (p : PledgeAt) (flag' : Bool)
      → Stays r s (record s { daemons = ds; pledge = p; flag = flag' })
  others-Stay ds p flag' = (
    record { later = c.later; main_waits = c.main_waits; listener_waits = c.listener_waits },
    refl,
    refl,
  )

  pub pledge_waits : pledge_holds_all s.pledge ≡ false
  pledge_waits = ground (arith, h.all, c.listener_waits)

  -- The interface that the main loop waits for is that of the listener.
  pub IsCrossed-front : (q : Ref) (links : List Ref) → s.main ≡ main_has_map (q ∷ links) → q ≡ r
  IsCrossed-front q links e = cc

  -- Whatever step is taken, the crossing stays.
  Step-Stays : (t : Tasks) → Step s t → Stays r s t
  Step-Stays _ (main_locks_all _ es e p l) = ground (arith, c.main_waits)
  Step-Stays _ (main_locks_flag _ es e f) = ground (arith, c.main_waits)
  Step-Stays _ (main_skips _ es e f) = ground (arith, c.main_waits)
  Step-Stays _ (main_locks_link _ i t es e f p l) = ground (arith, c.main_waits)
  Step-Stays _ (main_passes _ i es e) = ground (arith, c.main_waits)
  Step-Stays _ (main_locks_acp _ i a es e b p) = ground (arith, c.main_waits)
  Step-Stays _ (main_has_read _ i a es e) = ground (arith, c.main_waits)
  Step-Stays _ (main_updates _ e f) = ground (arith, c.main_waits)
  Step-Stays _ (main_locks_map _ rs e l v u) = ground (arith, c.main_waits)
  Step-Stays _ (main_locks_joinlink _ q rs e p l) =
      absurd (ground (arith, c.listener_waits, IsCrossed-front q rs e, nat_beq_iff r q))
  Step-Stays _ (main_has_sent _ q rs e) = ground (arith, c.main_waits)
  Step-Stays _ (main_ends _ e) = ground (arith, c.main_waits)
  Step-Stays _ (daemon_locks_acp _ a n i e m p) =
      others-Stay (set s.daemons a (daemon_has_acp n)) s.pledge s.flag
  Step-Stays _ (daemon_locks_flag _ a n e m f) =
      others-Stay (set s.daemons a (daemon_sets n)) s.pledge s.flag
  Step-Stays _ (daemon_unlocks_flag _ a n e) =
      others-Stay (set s.daemons a (daemon_has_acp n)) s.pledge true
  Step-Stays _ (daemon_ends _ a e) = others-Stay (set s.daemons a daemon_listens) s.pledge s.flag
  Step-Stays _ (pledge_locks_all _ es e m l) = ground (arith, c.listener_waits)
  Step-Stays _ (pledge_locks_link _ i t es e m l) = ground (arith, pledge_waits)
  Step-Stays _ (pledge_passes _ i es e) = ground (arith, pledge_waits)
  Step-Stays _ (pledge_locks_acp _ i a es e m b) = ground (arith, pledge_waits)
  Step-Stays _ (pledge_has_read _ i a es e) = ground (arith, pledge_waits)
  Step-Stays _ (pledge_finds _ i a es e) = ground (arith, pledge_waits)
  Step-Stays _ (pledge_ends _ e) = ground (arith, pledge_waits)
  Step-Stays _ (listener_locks_all _ e m p) = ground (arith, c.listener_waits)
  Step-Stays _ (listener_locks_link _ q e m p) = ground (arith, c.listener_waits)
  Step-Stays _ (listener_locks_again _ q e m p) = ground (arith, c.listener_waits)
  Step-Stays _ (listener_unlocks_link _ q e) = ground (arith, c.listener_waits)
  Step-Stays _ (listener_leaves _ k q e g) = ground (arith, c.listener_waits)
  Step-Stays _ (listener_starts_acp _ q e) = ground (arith, c.listener_waits)
  Step-Stays _ (listener_joins _ k q e g) = ground (arith, c.listener_waits)
  Step-Stays _ (listener_locks_map _ q e m) = ground (arith, c.main_waits)
  Step-Stays _ (listener_lists _ q e) = ground (arith, c.listener_waits)
  Step-Stays _ (listener_ends _ r e) = ground (arith, c.listener_waits)

-- Once the main loop and the listener wait for each other, they do so for ever: whatever steps the
-- other tasks take, the two stand still, and no pledge gets past the lock of `AllInterfaces`.
pub IsCrossed-stays :
    (interfaces : ℕ) (joinlinks : List Ref) (r : Ref) (s t : Tasks)
    → Reaches (start interfaces joinlinks) s
    → IsCrossed r s
    → Reaches s t
    → IsCrossed r t
      × (t.main ≡ s.main)
      × (t.listener ≡ s.listener)
      × (pledge_holds_all t.pledge ≡ false)
IsCrossed-stays n js r s _ q c here =
    (c, refl, refl, pledge_waits r s (Reaches-IsExclusive n js s q) c)
IsCrossed-stays n js r s _ q c (further {t} {u} run step) =
    let (e, main_same, listener_same, _) = IsCrossed-stays n js r s t q c run in
    let h = Reaches-IsExclusive n js t (Reaches-then (start n js) s t q run) in
    let (e', main_same', listener_same') = Step-Stays r t h e u step in
    (
      e',
      main_same' ∙ main_same,
      listener_same' ∙ listener_same,
      pledge_waits r u (Step-IsExclusive t u step h) e',
    )

-- While no other task holds a lock of an interface, the main loop comes to any that it has to
-- announce on.
comes_to :
    (r : Ref) (links : List Ref) (s : Tasks)
    → s.main ≡ main_has_map links
    → s.pledge ≡ pledge_away
    → s.listener ≡ listener_away
    → In r links
    → (later : List Ref) × Reaches s (record s { main = main_has_map (r ∷ later) })
comes_to r [] s e p l i = absurd i
comes_to r (q ∷ links) s e p l (inl same) = (
  links,
  subst (λ m. Reaches s (record s { main = m })) (e ∙ ap (λ x. main_has_map (x ∷ links)) same) here,
)
comes_to r (q ∷ links) s e p l (inr i) =
    let sends : Tasks = record s { main = main_sends q links } in
    let sent : Tasks = record s { main = main_has_map links } in
    let (later, run) = comes_to r links sent refl p l i in
    (
      later,
      Reaches-then s sent (record s { main = main_has_map (r ∷ later) })
          (further (further here (main_locks_joinlink s q links e (ground arith) (ground arith)))
            (main_has_sent sends q links refl))
          run,
    )

-- From where the main loop has come to an interface, its link comes up again.
rises_again :
    (s : Tasks) (r : Ref) (later : List Ref)
    → s.main ≡ main_has_map (r ∷ later)
    → s.pledge ≡ pledge_away
    → s.listener ≡ listener_away
    → Reaches s (record s { listener = listener_wants_map r })
rises_again s r later m p l =
    let told : Tasks = record s { listener = listener_has_all none } in
    let stores : Tasks = record s { listener = listener_has_link link_stores r } in
    let stored : Tasks = record s { listener = listener_has_all (some r) } in
    let risen : Tasks = record s { listener = listener_has_link link_rises r } in
    further
      (further
        (further
          (further (further here (listener_locks_all s l (ground arith) (ground arith)))
            (listener_locks_link told r refl (ground arith) (ground arith)))
          (listener_unlocks_link stores r refl))
        (listener_locks_again stored r refl (ground arith) (ground arith)))
      (listener_joins risen link_rises r refl refl)

-- Any join interface that comes up again can end in this deadlock: the main loop has updated the
-- proxies and has come to the interface, to announce them on it, when the listener has it locked.
pub IsCrossed-reachable :
    (interfaces : ℕ) (joinlinks : List Ref) (r : Ref)
    → In r joinlinks
    → (s : Tasks) × Reaches (start interfaces joinlinks) s × IsCrossed r s
IsCrossed-reachable interfaces joinlinks r i =
    let begun = start interfaces joinlinks in
    let (links, same, once) = IsDistinct-links joinlinks in
    let entered : Tasks = record begun { main = main_has_all [] } in
    let flagged : Tasks = record begun { main = main_has_flag [] } in
    let updated : Tasks = record begun { main = main_wants_map; flag = false } in
    let announcing : Tasks = record updated { main = main_has_map links } in
    let (later, run) = comes_to r links announcing refl refl refl ((same r).1 i) in
    let reached : Tasks = record announcing { main = main_has_map (r ∷ later) } in
    let crossed : Tasks = record reached { listener = listener_wants_map r } in
    let announces : Reaches begun announcing =
      further
        (further
          (further (further here (main_locks_all begun [] refl refl refl))
            (main_locks_flag entered [] refl (some_daemon-start interfaces)))
          (main_updates flagged refl refl))
        (main_locks_map updated links refl refl same once) in
    (
      crossed,
      Reaches-then begun reached crossed (Reaches-then begun announcing reached announces run)
          (rises_again reached r later refl refl refl),
      record { later = later; main_waits = refl; listener_waits = refl },
    )
