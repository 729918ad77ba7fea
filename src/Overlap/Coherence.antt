-- ===== src/Overlap/Coherence.antt =====
-- No registrar that a daemon of src/acp_interface.rs adds during the update of src/interfaces.rs is
-- lost to the announcements.
use rooster.Base.{
  suc, Bool, true, false, ◌≡◌, ◌↔◌, ◌⊎◌, inl, inr, refl, sym, ap, ◌∙◌, subst, List, [], ◌∷◌, ◌==◌,
  equality_nat, nat_beq_iff, Bool-cases, arith,
}
use rooster.Args.{RoosterOptions}
use rooster.Acp.{Available, none_available}
use rooster.Acp.Ports.{Kind, http, coap, stateless}
use rooster.Acp.Availability.{available}
use rooster.Interface.{Ref, Map, World, ProxiesEnabled}
use rooster.Interfaces.{cell, handle_message}
use rooster.Interfaces.Registrars.{
  YieldsValues, InMap, available_among, or_available, interface_available,
  calculate_available_registrars, proxies_of,
}
use rooster.Interfaces.Registrars.Coherence.{
  Coherent, Offers, calculate-cong, calculate_available_registrars_iff,
}
use rooster.Interfaces.Registrars.Starts.Links.{IsFirstStart, handle_message-Coherent}
use rooster.Overlap.{
  UpdateAt, outside, looks, AddingAt, listens, hears, has_added, Running, initial_running, goes_to,
  begins,
}
use rooster.Overlap.Steps.{
  set_flag, clear_flag, finish, told, finds_clear, finds_set, looks_at, finishes, receives, passes,
  gives_up, adds, sets_flag, ends, Runs, rests, then_step,
}

abbrev IsBetween : AddingAt → Type 0
IsBetween (has_added _ _ _ _) = Unit
IsBetween _ = ⊥

-- A daemon has added a registrar and not yet set the flag.
abbrev pub SomeIsBetween : Running → Type 0
SomeIsBetween s = (a : Ref) × IsBetween (s.daemons a)

-- The field of a kind.
abbrev pub enabled : Kind → ProxiesEnabled → Bool
enabled http ps = ps.http_avail
enabled coap ps = ps.stateful_avail
enabled stateless ps = ps.stateless_avail

enabled-proxies_of : (k : Kind) (av : Available) → enabled k (proxies_of av) ≡ available k av
enabled-proxies_of http av = refl
enabled-proxies_of coap av = refl
enabled-proxies_of stateless av = refl

module _ (options : RoosterOptions) (values : Map → List Ref) where
  -- Outside an update, the flag is set or the proxies are up to date; in one, what the tables so far
  -- have given is right with those left.
  abbrev IsOnTheWay : UpdateAt → World → Type 0
  IsOnTheWay outside w = Coherent values w
  IsOnTheWay (looks av rs) w = available_among w av rs ≡ calculate_available_registrars values w

  abbrev Invariant : Running → Type 0
  Invariant s = SomeIsBetween s ⊎ IsOnTheWay s.main s.world

  looks_afresh :
      (w : World)
      → available_among w none_available (values w.all.acp_interfaces)
        ≡ calculate_available_registrars values w
  unfolding calculate_available_registrars
  looks_afresh w = refl

  looks_on :
      (w : World) (av : Available) (q : Ref) (qs : List Ref)
      → available_among w av (q ∷ qs) ≡ calculate_available_registrars values w
      → available_among w (or_available av (interface_available w (cell w q))) qs
        ≡ calculate_available_registrars values w
  unfolding available_among
  looks_on w av q qs h = h

  has_looked :
      (w : World) (av : Available)
      → available_among w av [] ≡ calculate_available_registrars values w
      → proxies_of av ≡ proxies_of (calculate_available_registrars values (finish av w))
  unfolding available_among
  has_looked w av h =
      ap proxies_of (h ∙ calculate-cong values w (finish av w) refl refl (λ r. refl))

  -- Another daemon stays where it is when one goes on that is not between.
  other-IsBetween :
      (s : Running) (a : Ref) (d : AddingAt)
      → (IsBetween (s.daemons a) → ⊥)
      → SomeIsBetween s
      → (b : Ref) × IsBetween (goes_to a d s.daemons b)
  other-IsBetween s a d quiet (b, i) = elim (Bool-cases (b == a)) [
    | inl e ↦ absurd (quiet (subst (λ c. IsBetween (s.daemons c)) ((nat_beq_iff b a).0 e) i))
    | inr e ↦ (b, rw e i)
  ]

  -- A daemon that is in the loop is not between.
  not_between : (d x : AddingAt) → d ≡ x → (IsBetween x → ⊥) → IsBetween d → ⊥
  not_between d x e quiet i = quiet (subst IsBetween e i)

  goes-Invariant :
      (s : Running) (a : Ref) (d x : AddingAt)
      → s.daemons a ≡ x
      → (IsBetween x → ⊥)
      → Invariant s
      → Invariant (record s { daemons = goes_to a d s.daemons })
  goes-Invariant s a d x e quiet (inl between) =
      inl (other-IsBetween s a d (not_between (s.daemons a) x e quiet) between)
  goes-Invariant s a d x e quiet (inr way) = inr way

  -- No message on the way brought up a link again that had a daemon.
  abbrev pub OnlyFirstStarts : (s : Running) → Runs options values initial_running s → Type 0
  OnlyFirstStarts _ rests = Unit
  OnlyFirstStarts _ (then_step r (told s m e)) = IsFirstStart m s.world × OnlyFirstStarts s r
  OnlyFirstStarts _ (then_step {t} r _) = OnlyFirstStarts t r

  way : (s : Running) (m : UpdateAt) → s.main ≡ m → IsOnTheWay s.main s.world → IsOnTheWay m s.world
  way s m e h = subst (λ x. IsOnTheWay x s.world) e h

  way_back : (w : World) (m x : UpdateAt) → m ≡ x → IsOnTheWay x w → IsOnTheWay m w
  way_back w m x e h = subst (λ y. IsOnTheWay y w) (sym e) h

  Runs-Invariant :
      (s : Running)
      → YieldsValues values
      → (r : Runs options values initial_running s) → OnlyFirstStarts s r
      → Invariant s
  Runs-Invariant _ yields rests f = inr (inl refl)
  Runs-Invariant _ yields (then_step r (told s m e)) (first, f) =
      elim (Runs-Invariant s yields r f) [
        | inl between ↦ inl between
        | inr h ↦ inr (
            way_back (handle_message options m s.world).0 s.main outside e
              (handle_message-Coherent values options m s.world yields first (way s outside e h)))
      ]
  Runs-Invariant _ yields (then_step r (finds_clear s e clear)) f =
      elim (Runs-Invariant s yields r f) [
        | inl between ↦ inl between
        | inr h ↦ inr (
            way_back (clear_flag s.world) s.main outside e (elim (way s outside e h) [
              | inl set ↦ absurd (ground arith)
              | inr same ↦ inr (
                  same
                  ∙ ap proxies_of
                      (calculate-cong values s.world (clear_flag s.world) refl refl (λ r. refl)))
            ]))
      ]
  Runs-Invariant _ yields (then_step r (finds_set s e set)) f = elim (Runs-Invariant s yields r f) [
    | inl between ↦ inl between
    | inr h ↦ inr (looks_afresh s.world)
  ]
  Runs-Invariant _ yields (then_step r (looks_at s av q qs e free)) f =
      elim (Runs-Invariant s yields r f) [
        | inl between ↦ inl between
        | inr h ↦ inr (looks_on s.world av q qs (way s (looks av (q ∷ qs)) e h))
      ]
  Runs-Invariant _ yields (then_step r (finishes s av e)) f = elim (Runs-Invariant s yields r f) [
    | inl between ↦ inl between
    | inr h ↦ inr (inr (has_looked s.world av (way s (looks av []) e h)))
  ]
  Runs-Invariant _ yields (then_step r (receives s a clock msg inside e)) f =
      goes-Invariant s a (begins clock msg) listens e (λ i. i) (Runs-Invariant s yields r f)
  Runs-Invariant _ yields (then_step r (passes s a clock ttl n o os e silent)) f =
      goes-Invariant s a (hears clock ttl (suc n) os) (hears clock ttl n (o ∷ os)) e (λ i. i)
        (Runs-Invariant s yields r f)
  Runs-Invariant _ yields (then_step r (gives_up s a clock ttl n o os e silent)) f =
      goes-Invariant s a listens (hears clock ttl n (o ∷ os)) e (λ i. i)
        (Runs-Invariant s yields r f)
  Runs-Invariant _ yields (then_step r (adds s a clock ttl n o os rtype v6addr e there)) f =
      inl (a, rw ((nat_beq_iff a a).1 refl) tt)
  Runs-Invariant _ yields (then_step r (sets_flag s a clock ttl n os e out)) f =
      inr (way_back (set_flag s.world) s.main outside out (inl refl))
  Runs-Invariant _ yields (then_step r (ends s a clock ttl n e)) f =
      goes-Invariant s a listens (hears clock ttl n []) e (λ i. i) (Runs-Invariant s yields r f)

  -- However floods and updates overlap, and in whatever order the map yields its interfaces, as long as
  -- no link that had a daemon came up again: outside an update, when the flag is clear and no daemon is between adding a registrar and setting the flag,
  -- the proxies that are announced are those kinds of which an interface of the ACP map has a
  -- registrar.
  pub Runs-announces :
      (s : Running) (k : Kind)
      → YieldsValues values
      → (r : Runs options values initial_running s) → OnlyFirstStarts s r
      → s.main ≡ outside
      → ¬ SomeIsBetween s
      → s.world.all.invalidate_avail ≡ false
      → (enabled k s.world.all.proxies ≡ true)
        ↔ ((q : Ref) × InMap q s.world.all.acp_interfaces × Offers s.world k q)
  Runs-announces s k yields r f out nobody clear = elim (Runs-Invariant s yields r f) [
    | inl between ↦ absurd (nobody between)
    | inr h ↦ elim (way s outside out h) [
      | inl set ↦ absurd (ground arith)
      | inr same ↦
          rw
            (ap (enabled k) same
              ∙ enabled-proxies_of k (calculate_available_registrars values s.world))
            (calculate_available_registrars_iff values s.world k yields)
    ]
  ]
