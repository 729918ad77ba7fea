-- ===== src/Locks/Progress.antt =====
-- Of the tasks of src/main.rs, src/interfaces.rs and src/acp_interface.rs that hold a mutex one can go
-- on, unless there is a deadlock.
use rooster.Base.{
  ℕ, zero, suc, Bool, true, false, ◌≡◌, ◌⊎◌, inl, inr, refl, subst, List, [], ◌∷◌, none, some,
  get_or, equality_nat, nat_beq_iff, ◌==◌, arith, Bool-cases,
}
use rooster.Interface.{Ref}
use rooster.Locks.{
  Entry, MainAt, main_sleeps, main_has_all, main_has_flag, main_has_link, main_reads,
  main_wants_map, main_has_map, main_sends, DaemonAt, daemon_listens, daemon_has_acp, daemon_sets,
  PledgeAt, pledge_away, pledge_has_all, pledge_has_link, pledge_reads, ListenerAt, listener_away,
  link_stores, link_rises, link_served, listener_has_all, listener_has_link, listener_wants_map,
  listener_has_map, Tasks, daemon_at, main_holds_flag, main_holds_link, main_holds_map,
  daemon_holds_acp, daemon_holds_flag, some_daemon_holds_flag, pledge_holds_all,
}
use rooster.Locks.Steps.{
  Step, main_locks_flag, main_skips, main_locks_link, main_passes, main_locks_acp, main_has_read,
  main_updates, main_locks_joinlink, main_has_sent, main_ends, daemon_locks_flag,
  daemon_unlocks_flag, daemon_ends, pledge_locks_link, pledge_passes, pledge_locks_acp,
  pledge_finds, pledge_ends, listener_locks_link, listener_leaves, listener_unlocks_link,
  listener_locks_map, listener_lists, listener_ends,
}
use rooster.Locks.Exclusion.{IsExclusive}
use rooster.Locks.Deadlock.{IsDeadlock}
use rooster.Locks.Crossing.{IsCrossed}
use rooster.Locks.Work.{work, daemons_work, IsInside}

-- The daemon waits for no lock.
abbrev goes_alone : DaemonAt → Bool
goes_alone (daemon_sets _) = true
goes_alone (daemon_has_acp zero) = true
goes_alone _ = false

-- Some daemon passes a test that one that listens does not pass, or none does.
find_daemon :
    (p : DaemonAt → Bool) (ds : List DaemonAt)
    → p daemon_listens ≡ false
    → ((a : Ref) × (p (get_or ds a daemon_listens) ≡ true))
      ⊎ ((a : Ref) → p (get_or ds a daemon_listens) ≡ false)
find_daemon p [] e = inr (λ a. e)
find_daemon p (d ∷ ds) e = elim (Bool-cases (p d)) [
  | inl passes ↦ inl (0, passes)
  | inr fails ↦ elim (find_daemon p ds e) [
    | inl (a, passes) ↦ inl (suc a, passes)
    | inr none_left ↦ inr (λ a. elim a as (λ x. p (get_or (d ∷ ds) x daemon_listens) ≡ false) [
      | zero ↦ fails
      | suc b ↦ none_left b
    ])
  ]
]

some_daemon_holds_flag-none :
    (ds : List DaemonAt)
    → ((a : Ref) → daemon_holds_flag (get_or ds a daemon_listens) ≡ false)
    → some_daemon_holds_flag ds ≡ false
some_daemon_holds_flag-none [] h = refl
some_daemon_holds_flag-none (d ∷ ds) h =
    ground (arith, h 0, some_daemon_holds_flag-none ds (λ a. h (suc a)))

daemons_work-none :
    (ds : List DaemonAt)
    → ((a : Ref) → daemon_holds_acp (get_or ds a daemon_listens) ≡ false)
    → daemons_work ds ≡ 0
daemons_work-none [] h = refl
daemons_work-none (daemon_listens ∷ ds) h = omega (arith, daemons_work-none ds (λ a. h (suc a)))
daemons_work-none (daemon_has_acp n ∷ ds) h = absurd (ground (arith, h 0))
daemons_work-none (daemon_sets n ∷ ds) h = absurd (ground (arith, h 0))

-- A task that holds a lock can go on.
abbrev pub Proceeds : Tasks → Type 0
Proceeds s = (t : Tasks) × (step : Step s t) × IsInside step

alone-Proceeds :
    (s : Tasks) (a : Ref) (d : DaemonAt) → daemon_at s a ≡ d → goes_alone d ≡ true → Proceeds s
alone-Proceeds s a daemon_listens e h = cc
alone-Proceeds s a (daemon_has_acp zero) e h = (_, daemon_ends s a e, tt)
alone-Proceeds s a (daemon_has_acp (suc n)) e h = cc
alone-Proceeds s a (daemon_sets n) e h = (_, daemon_unlocks_flag s a n e, tt)

-- What is left of a daemon that waits, or that is not there.
waits :
    (d : DaemonAt)
    → goes_alone d ≡ false
    → (d ≡ daemon_listens) ⊎ ((n : ℕ) × (d ≡ daemon_has_acp (suc n)))
waits daemon_listens e = inl refl
waits (daemon_has_acp zero) e = cc
waits (daemon_has_acp (suc n)) e = inr (n, refl)
waits (daemon_sets n) e = cc

not_alone : (d : DaemonAt) → goes_alone d ≡ false → daemon_holds_flag d ≡ false
not_alone d e = elim (waits d e) [ inl l ↦ rw l refl | inr (n, l) ↦ rw l refl ]

-- The two ways in which tasks wait for each other.
abbrev pub AnyDeadlock : Tasks → Type 0
AnyDeadlock s = ((table : Ref) × IsDeadlock table s) ⊎ ((r : Ref) × IsCrossed r s)

abbrev Progress : Tasks → Type 0
Progress s = (work s ≡ 0) ⊎ (Proceeds s ⊎ AnyDeadlock s)

-- No daemon goes on alone, so that each listens or waits for the flag.
module _ (s : Tasks) (h : IsExclusive s) (q : (a : Ref) → goes_alone (daemon_at s a) ≡ false)
    (f : some_daemon_holds_flag s.daemons ≡ false) where
  -- A daemon that has a registrar to note takes the flag.
  flag-Proceeds :
      (a : Ref) (n : ℕ)
      → daemon_at s a ≡ daemon_has_acp (suc n)
      → main_holds_flag s.main ≡ false
      → Proceeds s
  flag-Proceeds a n e m = (_, daemon_locks_flag s a n e m f, tt)

  -- A pledge that has got past the lock of `AllInterfaces`, while the main loop holds neither the
  -- flag nor an interface.
  pledge-Proceeds :
      (p : PledgeAt)
      → s.pledge ≡ p
      → pledge_holds_all p ≡ true
      → main_holds_flag s.main ≡ false
      → ((i : Ref) → main_holds_link i s.main ≡ false)
      → Proceeds s
  pledge-Proceeds pledge_away e g m l = cc
  pledge-Proceeds (pledge_has_all []) e g m l = (_, pledge_ends s e, tt)
  pledge-Proceeds (pledge_has_all ((i, table) ∷ es)) e g m l =
      (_, pledge_locks_link s i table es e (l i) (ground (arith, h.all)), tt)
  pledge-Proceeds (pledge_has_link i none es) e g m l = (_, pledge_passes s i es e, tt)
  pledge-Proceeds (pledge_has_link i (some a) es) e g m l = elim (waits (daemon_at s a) (q a)) [
    | inl free ↦ (_, pledge_locks_acp s i a es e (ground arith) (ground arith), tt)
    | inr (n, busy) ↦ flag-Proceeds a n busy m
  ]
  pledge-Proceeds (pledge_reads i a es) e g m l = (_, pledge_finds s i a es e, tt)

  -- The main loop updates the proxies.
  update-Progress : (es : List Entry) → s.main ≡ main_has_flag es → s.flag ≡ true → Proceeds s
  update-Progress [] e set_flag = (_, main_updates s e set_flag, tt)
  update-Progress ((i, table) ∷ es) e set_flag = (
    _,
    main_locks_link s i table es e set_flag (ground (arith, h.all)) (ground (arith, h.all)),
    tt,
  )

  read-Progress : (i a : Ref) (es : List Entry) → s.main ≡ main_has_link i (some a) es → Progress s
  read-Progress i a es e = elim (waits (daemon_at s a) (q a)) [
    | inl free ↦ inr (inl (_, main_locks_acp s i a es e (ground arith) (ground (arith, h.all)), tt))
    | inr (n, busy) ↦ inr (
        inr (
          inl (
            a,
            record { interface = i; later = es; left = n; main_waits = e; daemon_waits = busy },
          )))
  ]

  -- The main loop announces the proxies.
  announce-Progress :
      (r : Ref) (rs : List Ref) (l : ListenerAt)
      → s.main ≡ main_has_map (r ∷ rs)
      → s.listener ≡ l
      → Progress s
  announce-Progress r rs (listener_has_all none) em el =
      inr (inl (_, listener_locks_link s 0 el (ground arith) (ground (arith, h.all)), tt))
  announce-Progress r rs (listener_has_all (some k)) em el = inr (inl (_, listener_ends s k el, tt))
  announce-Progress r rs (listener_has_link link_stores k) em el =
      inr (inl (_, listener_unlocks_link s k el, tt))
  announce-Progress r rs (listener_has_link link_rises k) em el =
      inr (inl (_, listener_leaves s link_rises k el refl, tt))
  announce-Progress r rs (listener_has_link link_served k) em el =
      inr (inl (_, listener_leaves s link_served k el refl, tt))
  announce-Progress r rs (listener_has_map i) em el = inr (inl (_, listener_lists s i el, tt))
  announce-Progress r rs (listener_wants_map i) em el = elim (Bool-cases (i == r)) [
    | inl same ↦
        let e : i ≡ r = (nat_beq_iff i r).0 same in
        inr (
          inr (
            inr (
              r,
              record {
                later = rs;
                main_waits = em;
                listener_waits = subst (λ x. s.listener ≡ listener_wants_map x) e el;
              },
            )))
    | inr other ↦
        inr (inl (_, main_locks_joinlink s r rs em (ground (arith, h.all)) (ground arith), tt))
  ]
  announce-Progress r rs listener_away em el = elim (Bool-cases (pledge_holds_all s.pledge)) [
    | inl past ↦ inr (inl (pledge-Proceeds s.pledge refl past (ground arith) (λ i. ground arith)))
    | inr away ↦ inr (inl (_, main_locks_joinlink s r rs em (ground arith) (ground arith), tt))
  ]

  -- The main loop holds no lock.
  idle-Progress :
      (l : ListenerAt)
      → s.listener ≡ l
      → main_holds_flag s.main ≡ false
      → main_holds_map s.main ≡ false
      → ((i : Ref) → main_holds_link i s.main ≡ false)
      → work (record s { pledge = pledge_away; listener = listener_away }) ≡ daemons_work s.daemons
      → Progress s
  idle-Progress (listener_has_all none) el m j i w =
      inr (inl (_, listener_locks_link s 0 el (i 0) (ground (arith, h.all)), tt))
  idle-Progress (listener_has_all (some k)) el m j i w = inr (inl (_, listener_ends s k el, tt))
  idle-Progress (listener_has_link link_stores k) el m j i w =
      inr (inl (_, listener_unlocks_link s k el, tt))
  idle-Progress (listener_has_link link_rises k) el m j i w =
      inr (inl (_, listener_leaves s link_rises k el refl, tt))
  idle-Progress (listener_has_link link_served k) el m j i w =
      inr (inl (_, listener_leaves s link_served k el refl, tt))
  idle-Progress (listener_has_map r) el m j i w = inr (inl (_, listener_lists s r el, tt))
  idle-Progress (listener_wants_map r) el m j i w = inr (inl (_, listener_locks_map s r el j, tt))
  idle-Progress listener_away el m j i w = elim (Bool-cases (pledge_holds_all s.pledge)) [
    | inl past ↦ inr (inl (pledge-Proceeds s.pledge refl past m i))
    | inr away ↦ elim (find_daemon daemon_holds_acp s.daemons refl) [
      | inl (a, holds) ↦ elim (waits (daemon_at s a) (q a)) [
        | inl free ↦ absurd (ground arith)
        | inr (n, busy) ↦ inr (inl (flag-Proceeds a n busy m))
      ]
      | inr none_holds ↦ inl (ground (arith, w, daemons_work-none s.daemons none_holds))
    ]
  ]

  progress_within : (m : MainAt) → s.main ≡ m → Progress s
  progress_within (main_has_all es) e = inr (inl (_, main_locks_flag s es e f, tt))
  progress_within (main_has_flag es) e = elim (Bool-cases s.flag) [
    | inl set_flag ↦ inr (inl (update-Progress es e set_flag))
    | inr clear ↦ inr (inl (_, main_skips s es e clear, tt))
  ]
  progress_within (main_has_link i none es) e = inr (inl (_, main_passes s i es e, tt))
  progress_within (main_has_link i (some a) es) e = read-Progress i a es e
  progress_within (main_reads i a es) e = inr (inl (_, main_has_read s i a es e, tt))
  progress_within (main_has_map []) e = inr (inl (_, main_ends s e, tt))
  progress_within (main_has_map (r ∷ rs)) e = announce-Progress r rs s.listener e refl
  progress_within (main_sends r rs) e = inr (inl (_, main_has_sent s r rs e, tt))
  progress_within main_sleeps e =
      idle-Progress s.listener refl (ground arith) (ground arith) (λ i. ground arith) (ground arith)
  progress_within main_wants_map e =
      idle-Progress s.listener refl (ground arith) (ground arith) (λ i. ground arith) (ground arith)

-- Where no lock is held twice: none is held, or a task that holds one can go on, or there is a
-- deadlock.
pub progress : (s : Tasks) → IsExclusive s → (work s ≡ 0) ⊎ (Proceeds s ⊎ AnyDeadlock s)
progress s h = elim (find_daemon goes_alone s.daemons refl) [
  | inl (a, alone) ↦ inr (inl (alone-Proceeds s a (daemon_at s a) refl alone))
  | inr none_alone ↦
      progress_within s h none_alone
        (some_daemon_holds_flag-none s.daemons (λ a. not_alone (daemon_at s a) (none_alone a)))
        s.main refl
]
