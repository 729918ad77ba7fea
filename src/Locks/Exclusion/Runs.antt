-- ===== src/Locks/Exclusion/Runs.antt =====
-- Whatever steps the tasks of src/main.rs, src/interfaces.rs and src/acp_interface.rs take, no mutex is
-- held by two of them.
use rooster.Base.{
  ℕ, zero, suc, true, false, ◌&&◌, ◌≡◌, refl, sym, ap, ◌∙◌, subst, List, [], ◌∷◌, ◌++◌, none, some,
  get_or, replicate, get_or-append_same, equality_nat, nat_beq_iff, arith,
}
use rooster.Interface.{Ref}
use rooster.Locks.{
  main_sleeps, main_has_all, main_has_flag, main_has_link, main_reads, main_wants_map, main_has_map,
  main_sends, daemon_listens, daemon_has_acp, daemon_sets, pledge_away, pledge_has_all,
  pledge_has_link, pledge_reads, listener_away, link_stores, link_rises, listener_has_all,
  listener_has_link, listener_wants_map, listener_has_map, Tasks, daemon_at, start, main_holds_flag,
  daemon_holds_flag,
}
use rooster.Locks.Steps.{
  list_link, Step, main_locks_all, main_locks_flag, main_skips, main_locks_link, main_passes,
  main_locks_acp, main_has_read, main_updates, main_locks_map, main_locks_joinlink, main_has_sent,
  main_ends, daemon_locks_acp, daemon_locks_flag, daemon_unlocks_flag, daemon_ends,
  pledge_locks_all, pledge_locks_link, pledge_passes, pledge_locks_acp, pledge_has_read,
  pledge_finds, pledge_ends, listener_locks_all, listener_locks_link, listener_unlocks_link,
  listener_locks_again, listener_leaves, listener_starts_acp, listener_joins, listener_locks_map,
  listener_lists, listener_ends, Reaches, here, further,
}
use rooster.Locks.Exclusion.{
  IsExclusive, one_holds_acp, some_daemon-none, main-IsExclusive, pledge-IsExclusive,
  listener-IsExclusive, daemon-IsExclusive,
}

-- A daemon that is started listens, like one that is not there.
pub grown_at :
    (s : Tasks) (a : Ref)
    → get_or (s.daemons ++ (daemon_listens ∷ [])) a daemon_listens ≡ daemon_at s a
grown_at s a = get_or-append_same (λ x. x) daemon_listens s.daemons a daemon_listens refl

pub Step-IsExclusive : (s t : Tasks) → Step s t → IsExclusive s → IsExclusive t
Step-IsExclusive s _ (main_locks_all _ es e p l) h =
    main-IsExclusive s (main_has_all es) s.flag h (ground (arith, h.all))
      (ground (arith, h.joinlinks)) (λ q. ground (arith, h.link q)) (λ b. ground (arith, h.table b))
      (λ b. ground (arith, h.flag_main b))
Step-IsExclusive s _ (main_locks_flag _ es e f) h =
    main-IsExclusive s (main_has_flag es) s.flag h (ground (arith, h.all))
      (ground (arith, h.joinlinks)) (λ q. ground (arith, h.link q)) (λ b. ground (arith, h.table b))
      (λ b. some_daemon-none s.daemons b f)
Step-IsExclusive s _ (main_skips _ es e f) h =
    main-IsExclusive s main_wants_map s.flag h (ground (arith, h.all)) (ground (arith, h.joinlinks))
      (λ q. ground (arith, h.link q)) (λ b. ground (arith, h.table b))
      (λ b. ground (arith, h.flag_main b))
Step-IsExclusive s _ (main_locks_link _ i t es e f p l) h =
    main-IsExclusive s (main_has_link i t es) s.flag h (ground (arith, h.all))
      (ground (arith, h.joinlinks)) (λ q. ground (arith, h.link q, nat_beq_iff i q))
      (λ b. ground (arith, h.table b)) (λ b. ground (arith, h.flag_main b))
Step-IsExclusive s _ (main_passes _ i es e) h =
    main-IsExclusive s (main_has_flag es) s.flag h (ground (arith, h.all))
      (ground (arith, h.joinlinks)) (λ q. ground (arith, h.link q)) (λ b. ground (arith, h.table b))
      (λ b. ground (arith, h.flag_main b))
Step-IsExclusive s _ (main_locks_acp _ i a es e d p) h =
    main-IsExclusive s (main_reads i a es) s.flag h (ground (arith, h.all))
      (ground (arith, h.joinlinks)) (λ q. ground (arith, h.link q))
      (λ b. ground (arith, h.table b, nat_beq_iff a b)) (λ b. ground (arith, h.flag_main b))
Step-IsExclusive s _ (main_has_read _ i a es e) h =
    main-IsExclusive s (main_has_flag es) s.flag h (ground (arith, h.all))
      (ground (arith, h.joinlinks)) (λ q. ground (arith, h.link q)) (λ b. ground (arith, h.table b))
      (λ b. ground (arith, h.flag_main b))
Step-IsExclusive s _ (main_updates _ e f) h =
    main-IsExclusive s main_wants_map false h (ground (arith, h.all)) (ground (arith, h.joinlinks))
      (λ q. ground (arith, h.link q)) (λ b. ground (arith, h.table b))
      (λ b. ground (arith, h.flag_main b))
Step-IsExclusive s _ (main_locks_map _ rs e l v u) h =
    main-IsExclusive s (main_has_map rs) s.flag h (ground (arith, h.all))
      (ground (arith, h.joinlinks)) (λ q. ground (arith, h.link q)) (λ b. ground (arith, h.table b))
      (λ b. ground (arith, h.flag_main b))
Step-IsExclusive s _ (main_locks_joinlink _ r rs e p l) h =
    main-IsExclusive s (main_sends r rs) s.flag h (ground (arith, h.all))
      (ground (arith, h.joinlinks)) (λ q. ground (arith, h.link q, nat_beq_iff r q))
      (λ b. ground (arith, h.table b)) (λ b. ground (arith, h.flag_main b))
Step-IsExclusive s _ (main_has_sent _ r rs e) h =
    main-IsExclusive s (main_has_map rs) s.flag h (ground (arith, h.all))
      (ground (arith, h.joinlinks)) (λ q. ground (arith, h.link q)) (λ b. ground (arith, h.table b))
      (λ b. ground (arith, h.flag_main b))
Step-IsExclusive s _ (main_ends _ e) h =
    main-IsExclusive s main_sleeps s.flag h (ground (arith, h.all)) (ground (arith, h.joinlinks))
      (λ q. ground (arith, h.link q)) (λ b. ground (arith, h.table b))
      (λ b. ground (arith, h.flag_main b))
Step-IsExclusive s _ (daemon_locks_acp _ a n i e m p) h =
    daemon-IsExclusive s a (daemon_has_acp n) s.flag h (ground (arith, h.table a)) (ground arith)
      (λ b f. cc)
Step-IsExclusive s _ (daemon_locks_flag _ a n e m f) h =
    daemon-IsExclusive s a (daemon_sets n) s.flag h (ground (arith, h.table a)) (ground arith)
      (λ b g k. absurd (ground (arith, some_daemon-none s.daemons b f)))
Step-IsExclusive s _ (daemon_unlocks_flag _ a n e) h =
    daemon-IsExclusive s a (daemon_has_acp n) true h (ground (arith, h.table a)) (ground arith)
      (λ b f. cc)
Step-IsExclusive s _ (daemon_ends _ a e) h =
    daemon-IsExclusive s a daemon_listens s.flag h (ground (arith, h.table a)) (ground arith)
      (λ b f. cc)
Step-IsExclusive s _ (pledge_locks_all _ es e m l) h =
    pledge-IsExclusive s (pledge_has_all es) h (ground (arith, h.all))
      (λ q. ground (arith, h.link q)) (λ b. ground (arith, h.table b))
Step-IsExclusive s _ (pledge_locks_link _ i t es e m l) h =
    pledge-IsExclusive s (pledge_has_link i t es) h (ground (arith, h.all))
      (λ q. ground (arith, h.link q, nat_beq_iff i q)) (λ b. ground (arith, h.table b))
Step-IsExclusive s _ (pledge_passes _ i es e) h =
    pledge-IsExclusive s (pledge_has_all es) h (ground (arith, h.all))
      (λ q. ground (arith, h.link q)) (λ b. ground (arith, h.table b))
Step-IsExclusive s _ (pledge_locks_acp _ i a es e m d) h =
    pledge-IsExclusive s (pledge_reads i a es) h (ground (arith, h.all))
      (λ q. ground (arith, h.link q)) (λ b. ground (arith, h.table b, nat_beq_iff a b))
Step-IsExclusive s _ (pledge_has_read _ i a es e) h =
    pledge-IsExclusive s (pledge_has_all es) h (ground (arith, h.all))
      (λ q. ground (arith, h.link q)) (λ b. ground (arith, h.table b))
Step-IsExclusive s _ (pledge_finds _ i a es e) h =
    pledge-IsExclusive s pledge_away h (ground (arith, h.all)) (λ q. ground (arith, h.link q))
      (λ b. ground (arith, h.table b))
Step-IsExclusive s _ (pledge_ends _ e) h =
    pledge-IsExclusive s pledge_away h (ground (arith, h.all)) (λ q. ground (arith, h.link q))
      (λ b. ground (arith, h.table b))
Step-IsExclusive s _ (listener_locks_all _ e m p) h =
    listener-IsExclusive s (listener_has_all none) s.joinlinks h (ground (arith, h.all))
      (ground (arith, h.joinlinks)) (λ q. ground (arith, h.link q))
Step-IsExclusive s _ (listener_locks_link _ r e m p) h =
    listener-IsExclusive s (listener_has_link link_stores r) s.joinlinks h (ground (arith, h.all))
      (ground (arith, h.joinlinks)) (λ q. ground (arith, h.link q, nat_beq_iff r q))
Step-IsExclusive s _ (listener_locks_again _ r e m p) h =
    listener-IsExclusive s (listener_has_link link_rises r) s.joinlinks h (ground (arith, h.all))
      (ground (arith, h.joinlinks)) (λ q. ground (arith, h.link q, nat_beq_iff r q))
Step-IsExclusive s _ (listener_unlocks_link _ r e) h =
    listener-IsExclusive s (listener_has_all (some r)) s.joinlinks h (ground (arith, h.all))
      (ground (arith, h.joinlinks)) (λ q. ground (arith, h.link q))
Step-IsExclusive s _ (listener_leaves _ k r e g) h =
    listener-IsExclusive s listener_away s.joinlinks h (ground (arith, h.all))
      (ground (arith, h.joinlinks)) (λ q. ground (arith, h.link q))
Step-IsExclusive s _ (listener_joins _ k r e g) h =
    listener-IsExclusive s (listener_wants_map r) s.joinlinks h (ground (arith, h.all))
      (ground (arith, h.joinlinks)) (λ q. ground (arith, h.link q))
Step-IsExclusive s _ (listener_locks_map _ r e m) h =
    listener-IsExclusive s (listener_has_map r) s.joinlinks h (ground (arith, h.all))
      (ground (arith, h.joinlinks)) (λ q. ground (arith, h.link q))
Step-IsExclusive s _ (listener_lists _ r e) h =
    listener-IsExclusive s listener_away (list_link r s.joinlinks) h (ground (arith, h.all))
      (ground (arith, h.joinlinks)) (λ q. ground (arith, h.link q))
Step-IsExclusive s _ (listener_ends _ r e) h =
    listener-IsExclusive s listener_away s.joinlinks h (ground (arith, h.all))
      (ground (arith, h.joinlinks)) (λ q. ground (arith, h.link q))
Step-IsExclusive s _ (listener_starts_acp _ r e) h = record {
  all = ground (arith, h.all);
  joinlinks = ground (arith, h.joinlinks);
  link = λ q. ground (arith, h.link q);
  table =
      λ a. subst (λ x. one_holds_acp a s.main s.pledge x ≡ true) (sym (grown_at s a)) (h.table a);
  flag_main = λ a.
      subst (λ x. (main_holds_flag s.main && daemon_holds_flag x) ≡ false) (sym (grown_at s a))
        (h.flag_main a);
  flag_daemons = λ a b f g.
      h.flag_daemons a b (sym (ap daemon_holds_flag (grown_at s a)) ∙ f)
        (sym (ap daemon_holds_flag (grown_at s b)) ∙ g);
}

pub daemon_at-start :
    (n : ℕ) (a : Ref) → get_or (replicate n daemon_listens) a daemon_listens ≡ daemon_listens
daemon_at-start zero a = refl
daemon_at-start (suc n) zero = refl
daemon_at-start (suc n) (suc a) = daemon_at-start n a

start-IsExclusive : (n : ℕ) (js : List Ref) → IsExclusive (start n js)
start-IsExclusive n js = record {
  all = refl;
  joinlinks = refl;
  link = λ r. refl;
  table = λ a.
      subst (λ x. one_holds_acp a main_sleeps pledge_away x ≡ true) (sym (daemon_at-start n a))
        refl;
  flag_main = λ a. refl;
  flag_daemons = λ a b e f. absurd (ground (arith, daemon_at-start n a));
}

-- With any number of ACP interfaces and of join interfaces, and in whatever order the tasks run, no
-- lock is held by two of them.
pub Reaches-IsExclusive :
    (n : ℕ) (js : List Ref) (s : Tasks) → Reaches (start n js) s → IsExclusive s
Reaches-IsExclusive n js _ here = start-IsExclusive n js
Reaches-IsExclusive n js _ (further {t} {u} r step) =
    Step-IsExclusive t u step (Reaches-IsExclusive n js t r)
