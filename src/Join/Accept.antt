-- ===== src/Join/Accept.antt =====
-- The accept loop of `JoinInterface::start_daemon` in src/join_interface.rs, which spawns a task for
-- each pledge. What `accept` gives, the registrar's side of a connection, and what the tables hold
-- when the task looks for a registrar are the events.
use rooster.Base.{
  ℕ, ◌+◌, ◌%◌, ◌^◌, ◌≡◌, ◌⊎◌, inl, inr, sym, ap, subst, ◌∙◌, List, [], ◌∷◌, ◌++◌, Option, none,
  some, Option-cases,
}
use mathlib.Core.List.{append-nil, append_assoc}
use rooster.Net.{SocketAddr}
use rooster.Interface.{Ref, World, Map}
use rooster.Interfaces.Registrars.{InMap, YieldsValues, pick_available_https_registrar}
use rooster.Interfaces.Registrars.Choice.{AreTables, Knows}
use rooster.Interfaces.Registrars.Serving.{Serves, Serves-picks}
use rooster.Join.{ErrorKind, IoResult, io_ok, io_unwrap}
use rooster.Join.Pledge.{
  Connection, proxying, proxy_https, proxy_https-none, proxy_https-some, proxy_https-known,
}

-- A pledge is accepted, or `accept` fails.
pub data Accepting : Type 0 where
  accepted : World → (SocketAddr → Connection) → Accepting
  not_accepted : ErrorKind → Accepting

-- Where a pledge was connected to, and how its task ended: `expect` panics in the task.
abbrev pub Served : Type 0
Served = Option SocketAddr × IoResult

-- The counter, and what became of the pledges.
pub record PledgeListener : Type 0 where
  pub cnt : ℕ
  pub served : List Served

abbrev pub new_listener : PledgeListener
new_listener = record { cnt = 0; served = [] }

module _ (values : Map → List Ref) where
  pub serve : World → (SocketAddr → Connection) → Served
  serve w connect =
      let (target, result) = proxy_https values connect w in (target, io_unwrap result)

  -- One round of the loop: a pledge gets a task, an error is slept on, and either is counted.
  pub accept_round : PledgeListener → Accepting → PledgeListener
  unfolding serve
  accept_round l (accepted w connect) = record {
    cnt = (l.cnt + 1) % 2 ^ 32;
    served = l.served ++ (serve w connect ∷ []);
  }
  accept_round l (not_accepted e) = record l { cnt = (l.cnt + 1) % 2 ^ 32 }

  pub accept_loop : PledgeListener → List Accepting → PledgeListener
  accept_loop l [] = l
  accept_loop l (event ∷ events) = accept_loop (accept_round l event) events

  -- The pledges, each served alone.
  abbrev pub all_served : List Accepting → List Served
  all_served [] = []
  all_served (accepted w connect ∷ events) = serve w connect ∷ all_served events
  all_served (not_accepted e ∷ events) = all_served events

  accept_loop-served :
      (events : List Accepting) (l : PledgeListener)
      → (accept_loop l events).served ≡ l.served ++ all_served events
  unfolding accept_loop accept_round
  accept_loop-served [] l = sym (append-nil l.served)
  accept_loop-served (accepted w connect ∷ events) l =
      accept_loop-served events (accept_round l (accepted w connect))
      ∙ append_assoc l.served (serve w connect ∷ []) (all_served events)
  accept_loop-served (not_accepted e ∷ events) l =
      accept_loop-served events (accept_round l (not_accepted e))

  -- What becomes of a pledge when the tables hold `w`: no registrar is known and it is let go, or it
  -- is connected to one that a daemon of the ACP map has in its table, and its task panics exactly
  -- when the proxying ends in an error.
  abbrev pub IsServed : World → (SocketAddr → Connection) → Served → Type 0
  IsServed w connect (target, result) =
      ((target ≡ none) × (result ≡ io_ok) × ¬ Serves w)
      ⊎ ((s : SocketAddr) × (target ≡ some s)
          × (result ≡ io_unwrap (proxying (connect s)))
          × ((r : Ref) × InMap r w.all.acp_interfaces × Knows w r s))

  serve-IsServed :
      (w : World) (connect : SocketAddr → Connection)
      → YieldsValues values
      → AreTables w
      → IsServed w connect (serve w connect)
  unfolding serve
  serve-IsServed w connect yields tables =
      elim (Option-cases (pick_available_https_registrar values w)) [
        | inl e ↦
            let ends = proxy_https-none values connect w e in
            inl (
              ap (λ x. x.0) ends,
              ap (λ x. io_unwrap x.1) ends,
              (λ serves. Serves-picks values w yields serves e),
            )
        | inr (s, e) ↦
            let ends = proxy_https-some values connect w s e in
            inr (
              s,
              ap (λ x. x.0) ends,
              ap (λ x. io_unwrap x.1) ends,
              proxy_https-known values connect w s yields tables (ap (λ x. x.0) ends),
            )
      ]

  -- The pledges in turn, with what becomes of each.
  abbrev pub AreServed : List Accepting → List Served → Type 0
  AreServed [] [] = Unit
  AreServed (accepted w connect ∷ events) (x ∷ xs) = IsServed w connect x × AreServed events xs
  AreServed (not_accepted e ∷ events) xs = AreServed events xs
  AreServed _ _ = ⊥

  -- What the tables hold at each pledge is well formed.
  abbrev pub AllTables : List Accepting → Type 0
  AllTables [] = Unit
  AllTables (accepted w connect ∷ events) = AreTables w × AllTables events
  AllTables (not_accepted e ∷ events) = AllTables events

  all_served-AreServed :
      (events : List Accepting)
      → YieldsValues values
      → AllTables events
      → AreServed events (all_served events)
  all_served-AreServed [] yields h = tt
  all_served-AreServed (accepted w connect ∷ events) yields (tables, h) =
      (serve-IsServed w connect yields tables, all_served-AreServed events yields h)
  all_served-AreServed (not_accepted e ∷ events) yields h = all_served-AreServed events yields h

  -- Whatever pledges are accepted and however often `accept` fails between them, with well-formed
  -- tables: each pledge gets a task, in turn, which connects it to a registrar that a daemon of the
  -- ACP map has in its table at that time, and ends as the proxying does; only where no daemon of the
  -- map has one is the pledge let go.
  pub accept_loop-AreServed :
      (events : List Accepting)
      → YieldsValues values
      → AllTables events
      → AreServed events (accept_loop new_listener events).served
  accept_loop-AreServed events yields h =
      subst (AreServed events) (sym (accept_loop-served events new_listener))
        (all_served-AreServed events yields h)
