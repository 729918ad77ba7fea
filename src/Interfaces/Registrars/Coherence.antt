-- ===== src/Interfaces/Registrars/Coherence.antt =====
-- The announced proxies of src/interfaces.rs against the tables of the daemons: unless the flag is
-- set, they are what a new computation would give.
use rooster.Base.{
  Bool-cases, In, subst, ℕ, Bool, true, false, ◌||◌, ◌≡◌, ◌↔◌, ◌⊎◌, inl, inr, refl, sym, ap, ◌∙◌,
  List, [], ◌∷◌, Option, none, some, get_or, arith, if_both, set-get_or,
}
use rooster.Grasp.{GraspMessage}
use rooster.Acp.{
  Millis, Available, none_available, empty_acp, announce, calculate_available_registrar,
}
use rooster.Acp.Ports.{Kind}
use rooster.Acp.Availability.{available, available-none}
use rooster.Acp.Announce.{announce_flag}
use rooster.Interface.{Ref, World, Map}
use rooster.Interfaces.{cell}
use rooster.Interfaces.Registrars.{
  acp, interface_available, daemon_available, or_available, available_among, InMap, YieldsValues,
  proxies_of, hear, calculate_available_registrars, update_available_registrars,
}
use rooster.Interfaces.Registrars.Choice.{or_available-available}

-- The interface behind `r` has a registrar of the kind.
abbrev pub Offers : World → Kind → Ref → Type 0
Offers w k r = available k (interface_available w (cell w r)) ≡ true

or_iff : (x y : Bool) → ((x || y) ≡ true) ↔ ((x ≡ true) ⊎ (y ≡ true))
or_iff x y = ground arith

available_among_iff :
    (k : Kind) (w : World) (av : Available) (rs : List Ref)
    → (available k (available_among w av rs) ≡ true)
      ↔ ((available k av ≡ true) ⊎ ((r : Ref) × In r rs × Offers w k r))
unfolding available_among
available_among_iff k w av [] =
    ((λ h. inl h), (λ h. elim h [ inl a ↦ a | inr (r, i, o) ↦ elim i [ ] ]))
available_among_iff k w av (r ∷ rs) =
    let v = interface_available w (cell w r) in
    let (there, back) = available_among_iff k w (or_available av v) rs in
    let split = or_iff (available k av) (available k v) in
    let merged = or_available-available k av v in
    (
      (λ h. elim (there h) [
        | inl a ↦ elim (split.0 (sym merged ∙ a)) [ inl x ↦ inl x | inr y ↦ inr (r, inl refl, y) ]
        | inr (r', i, o) ↦ inr (r', inr i, o)
      ]),
      (λ h. elim h [
        | inl a ↦ back (inl (merged ∙ split.1 (inl a)))
        | inr (r', inl e, o) ↦ back (inl (merged ∙ split.1 (inr (subst (Offers w k) (sym e) o))))
        | inr (r', inr i, o) ↦ back (inr (r', i, o))
      ]),
    )

pub calculate_available_registrars_iff :
    (values : Map → List Ref) (w : World) (k : Kind)
    → YieldsValues values
    → (available k (calculate_available_registrars values w) ≡ true)
      ↔ ((r : Ref) × InMap r w.all.acp_interfaces × Offers w k r)
unfolding calculate_available_registrars
calculate_available_registrars_iff values w k yields =
    let (there, back) = available_among_iff k w none_available (values w.all.acp_interfaces) in
    let member = yields w.all.acp_interfaces in
    (
      (λ h. elim (there h) [
        | inl a ↦ ground (arith, available-none k)
        | inr (r, i, o) ↦ (r, (member r).0 i, o)
      ]),
      (λ (r, i, o). back (inr (r, (member r).1 i, o))),
    )

-- The flag is set, or the proxies are what a new computation gives.
abbrev pub Coherent : (Map → List Ref) → World → Type 0
Coherent values w =
    (w.all.invalidate_avail ≡ true)
    ⊎ (w.all.proxies ≡ proxies_of (calculate_available_registrars values w))

-- The same, as what holds while the flag is clear.
abbrev IsSettled : (Map → List Ref) → World → Type 0
IsSettled values w =
    w.all.invalidate_avail ≡ false
    → w.all.proxies ≡ proxies_of (calculate_available_registrars values w)

Coherent-IsSettled : (values : Map → List Ref) (w : World) → Coherent values w → IsSettled values w
Coherent-IsSettled values w (inl set) clear = ground arith
Coherent-IsSettled values w (inr same) clear = same

IsSettled-Coherent : (values : Map → List Ref) (w : World) → IsSettled values w → Coherent values w
IsSettled-Coherent values w h = elim (Bool-cases w.all.invalidate_avail) [
  | inl set ↦ inl set
  | inr clear ↦ inr (h clear)
]

available_among-cong :
    (w w' : World) (av : Available) (rs : List Ref)
    → ((r : Ref) → interface_available w (cell w r) ≡ interface_available w' (cell w' r))
    → available_among w av rs ≡ available_among w' av rs
unfolding available_among
available_among-cong w w' av [] same = refl
available_among-cong w w' av (r ∷ rs) same =
    let rest : available_among w (or_available av (interface_available w' (cell w' r))) rs
        ≡ available_among w' (or_available av (interface_available w' (cell w' r))) rs =
      available_among-cong w w' (or_available av (interface_available w' (cell w' r))) rs same in
    ap (λ v. available_among w (or_available av v) rs) (same r) ∙ rest

daemon_available-cong :
    (w w' : World) (d : Option Ref)
    → w.acps ≡ w'.acps
    → daemon_available w d ≡ daemon_available w' d
unfolding daemon_available
daemon_available-cong w w' none e = refl
daemon_available-cong w w' (some a) e =
    ap (λ ts. calculate_available_registrar (get_or ts a empty_acp)) e

-- What a new computation gives depends on the ACP map, the tables, and who has which daemon.
pub calculate-cong :
    (values : Map → List Ref) (w w' : World)
    → w.all.acp_interfaces ≡ w'.all.acp_interfaces
    → w.acps ≡ w'.acps
    → ((r : Ref) → (cell w r).acp_daemon ≡ (cell w' r).acp_daemon)
    → calculate_available_registrars values w ≡ calculate_available_registrars values w'
unfolding calculate_available_registrars
calculate-cong values w w' maps tables daemons =
    ap (λ m. available_among w none_available (values m)) maps
    ∙ available_among-cong w w' none_available (values w'.all.acp_interfaces) (λ r.
      ap (daemon_available w) (daemons r)
      ∙ daemon_available-cong w w' (cell w' r).acp_daemon tables)

-- If the flag is set or the proxies are up to date, then after an update the flag is clear, and the
-- proxies are what a new computation gives.
pub update-Coherent :
    (values : Map → List Ref) (w : World)
    → Coherent values w
    → (update_available_registrars values w).all.invalidate_avail ≡ false
      × (update_available_registrars values w).all.proxies
        ≡ proxies_of (calculate_available_registrars values (update_available_registrars values w))
unfolding update_available_registrars
update-Coherent values w h =
    let same : calculate_available_registrars values w
        ≡ calculate_available_registrars values (update_available_registrars values w) =
      calculate-cong values w (update_available_registrars values w) refl refl (λ r. refl) in
    (
      refl,
      if_both w.all.invalidate_avail (proxies_of (calculate_available_registrars values w))
          w.all.proxies
          (proxies_of
            (calculate_available_registrars values (update_available_registrars values w)))
          (λ e. ap proxies_of same) (λ e. Coherent-IsSettled values w h e ∙ ap proxies_of same),
    )

-- If the flag is set or the proxies are up to date, then so it is after any message that a daemon
-- hears.
pub hear-Coherent :
    (values : Map → List Ref) (a : Ref) (clock : ℕ → Millis) (msg : GraspMessage) (w : World)
    → Coherent values w
    → Coherent values (hear a clock msg w)
unfolding hear
hear-Coherent values a clock msg w h = IsSettled-Coherent values (hear a clock msg w) λ clear.
    let flag = w.all.invalidate_avail in
    let e : announce clock msg (acp w a, flag) ≡ (acp w a, flag) =
      announce_flag clock msg (acp w a) flag clear in
    let was_clear : flag ≡ false = sym (ap (λ s. s.1) e) ∙ clear in
    let tables : w.acps ≡ (hear a clock msg w).acps = sym (rw e (set-get_or w.acps a empty_acp)) in
    Coherent-IsSettled values w h was_clear
    ∙ ap proxies_of (calculate-cong values w (hear a clock msg w) refl tables (λ r. refl))
