-- ===== src/Interfaces/Registrars/Starts.antt =====
-- What it does to the announced proxies of src/interfaces.rs that a link comes up for the first
-- time.
pub mod Links
use rooster.Base.{
  Bool, ◌<◌, true, false, not, ◌&&◌, ◌≡◌, ◌≢◌, ◌↔◌, ◌⊎◌, inl, inr, refl, sym, ap, ◌∙◌, subst, List,
  [], ◌∷◌, ◌++◌, Option, none, some, Bool-cases, Option-cases, if◌then◌else◌, get_or, get_or-last,
  get_or-append_same, get_or-set-cases, get_or-set_same, length, arith,
}
use rooster.Netlink.{LinkMessage, is_up}
use rooster.Args.{RoosterOptions, is_valid_acp_interface, is_valid_joinlink_interface}
use rooster.Acp.{Available, none_available, calculate_available_registrar, empty_acp}
use rooster.Acp.Ports.{Kind, http, coap, stateless}
use rooster.Acp.Availability.{available, available-none, calculate-empty}
use rooster.Interface.{IfIndex, Ref, Interface, World, Map, empty_interface}
use rooster.Interfaces.{
  lookup, or_insert, cell, set_cell, get_entry_by_ifindex, store_links, Sockets, Ending, done,
  panicked, Message, new_link, new_address, ignored_message, handle_message, store_addr_info,
  start_acp, open_acp, open_joinlink, start_roles, store_link_info,
}
use rooster.Interfaces.Invariant.Messages.{store_links-daemon}
use rooster.Interfaces.Registrars.{
  acp, daemon_available, interface_available, InMap, YieldsValues, proxies_of,
  calculate_available_registrars,
}
use rooster.Interfaces.Registrars.Coherence.{Coherent, Offers, calculate_available_registrars_iff}
use rooster.Interfaces.Registrars.Quiet.{
  Quiet, then-Quiet, same-Quiet, Offers-cong, Alike-Quiet, Quiet-Coherent,
}
use rooster.Interfaces.Registrars.Alike.{Alike, get_entry-Alike, store_addr_info-Coherent}
use rooster.Interfaces.Registrars.Restart.{open_joinlink-Alike}

InMap-append :
    (k : IfIndex) (r s : Ref) (m : Map)
    → (InMap s m → InMap s (m ++ ((k, r) ∷ [])))
      × (InMap s (m ++ ((k, r) ∷ [])) → InMap s m ⊎ (r ≡ s))
InMap-append k r s [] = ground arith
InMap-append k r s ((j, t) ∷ m) = let rest = InMap-append k r s m in ground (arith, rest.0, rest.1)

pub InMap-or_insert :
    (k : IfIndex) (r s : Ref) (m : Map)
    → (InMap s m → InMap s (or_insert k r m)) × (InMap s (or_insert k r m) → InMap s m ⊎ (r ≡ s))
InMap-or_insert k r s m = elim (Option-cases (lookup k m)) [
  | inl e ↦
      subst (λ x. (InMap s m → InMap s x) × (InMap s x → InMap s m ⊎ (r ≡ s)))
        (sym (ap (λ x. elim x [ some _ ↦ m | none ↦ m ++ ((k, r) ∷ []) ]) e)) (InMap-append k r s m)
  | inr (t, e) ↦
      subst (λ x. (InMap s m → InMap s x) × (InMap s x → InMap s m ⊎ (r ≡ s)))
        (sym (ap (λ x. elim x [ some _ ↦ m | none ↦ m ++ ((k, r) ∷ []) ]) e))
        ((λ i. i), (λ i. inl i))
]

-- A daemon that has heard nothing offers nothing.
new_daemon-silent :
    (k : Kind) (r : Ref) (w : World) {a : Ref}
    → (cell w r).acp_daemon ≡ some a
    → acp w a ≡ empty_acp
    → ¬ Offers w k r
unfolding daemon_available
new_daemon-silent k r w d e o =
    let none_there = ap (available k) (ap calculate_available_registrar e ∙ calculate-empty) in
    let offered = rw d at o in ground (arith, available-none k)

no_daemon-silent : (k : Kind) (r : Ref) (w : World) → (cell w r).acp_daemon ≡ none → ¬ Offers w k r
unfolding daemon_available
no_daemon-silent k r w d o = let offered = rw d at o in ground (arith, available-none k)

-- The interface behind `r`, which had no daemon, is listed, and may have got a daemon, whose table
-- is empty; nothing else has changed.
record FirstStart (k : IfIndex) (r : Ref) (w w' : World) : Type 0 where
  flag : w'.all.invalidate_avail ≡ w.all.invalidate_avail
  proxies : w'.all.proxies ≡ w.all.proxies
  listed : w'.all.acp_interfaces ≡ or_insert k r w.all.acp_interfaces
  tables : (a : Ref) → acp w' a ≡ acp w a
  daemons :
      (s : Ref)
      → ((cell w' s).acp_daemon ≡ (cell w s).acp_daemon)
        ⊎ ((r ≡ s) × (a : Ref) × ((cell w' s).acp_daemon ≡ some a) × (acp w' a ≡ empty_acp))

FirstStart-Offers :
    (i : IfIndex) (r : Ref) (w w' : World)
    → (cell w r).acp_daemon ≡ none
    → FirstStart i r w w'
    → (k : Kind) (s : Ref) → Offers w' k s ↔ Offers w k s
FirstStart-Offers i r w w' first f k s = elim (f.daemons s) [
  | inl e ↦ (Offers-cong w' w k s e f.tables, Offers-cong w w' k s (sym e) (λ a. sym (f.tables a)))
  | inr (same, a, d, e) ↦ (
    (λ o. absurd (new_daemon-silent k s w' d e o)),
    (λ o. absurd (no_daemon-silent k s w (subst (λ x. (cell w x).acp_daemon ≡ none) same first) o)),
  )
]

FirstStart-Quiet :
    (i : IfIndex) (r : Ref) (w w' : World)
    → (cell w r).acp_daemon ≡ none
    → FirstStart i r w w'
    → Quiet w w'
FirstStart-Quiet i r w w' first f =
    let offers = FirstStart-Offers i r w w' first f in
    let insert = λ (s : Ref). InMap-or_insert i r s w.all.acp_interfaces in
    record {
      flag = f.flag;
      proxies = f.proxies;
      offers = offers;
      kept = λ s m. subst (InMap s) (sym f.listed) ((insert s).0 m);
      silent = λ k s m o. elim ((insert s).1 (subst (InMap s) f.listed m)) [
        | inl m' ↦ m'
        | inr same ↦ absurd (
            no_daemon-silent k s w (subst (λ x. (cell w x).acp_daemon ≡ none) same first)
              ((offers k s).0 o))
      ];
    }

open_acp-FirstStart :
    (os : Sockets) (k : IfIndex) (r : Ref) (w : World) → FirstStart k r w (open_acp os k r w).0
unfolding open_acp start_acp
open_acp-FirstStart os k r w = elim (Bool-cases os.grasp_bound) [
  | inr e ↦
      rw (e, start_acp)
        (record {
          flag = refl;
          proxies = refl;
          listed = refl;
          tables = λ a. refl;
          daemons = λ s. inl refl;
        })
  | inl e ↦
      rw (e, start_acp)
        (record {
          flag = refl;
          proxies = refl;
          listed = refl;
          tables = λ a. get_or-append_same (λ x. x) empty_acp w.acps a empty_acp refl;
          daemons = λ s.
              let d = record (cell w r) { acp_daemon = some (length w.acps) } in
              elim (get_or-set-cases w.cells r s d (empty_interface 0)) [
                | inl (same, c) ↦ inr (
                  same,
                  length w.acps,
                  ap (λ x. x.acp_daemon) c,
                  get_or-last w.acps empty_acp empty_acp,
                )
                | inr c ↦ inl (ap (λ x. x.acp_daemon) c)
              ];
        })
]

open_joinlink-Quiet :
    (os : Sockets) (k : IfIndex) (r : Ref) (w : World) → Quiet w (open_joinlink os k r w).0
open_joinlink-Quiet os k r w =
    Alike-Quiet w (open_joinlink os k r w).0 (open_joinlink-Alike os k r w)

pub if-Quiet :
    (b : Bool) (w : World) (x y : World × Ending)
    → Quiet w x.0
    → Quiet w y.0
    → Quiet w (if b then x else y).0
if-Quiet true w x y h k = h
if-Quiet false w x y h k = k

second_role-Quiet :
    (os : Sockets) (b : Bool) (k : IfIndex) (r : Ref) (w : World) (x : World × Ending)
    → Quiet w x.0
    → Quiet w
        (elim x.1 as (λ _. World × Ending) [
          | panicked ↦ (x.0, panicked)
          | done ↦ if b then open_joinlink os k r x.0 else (x.0, done)
        ]).0
second_role-Quiet os b k r w (v, panicked) h = h
second_role-Quiet os b k r w (v, done) h =
    if-Quiet b w (open_joinlink os k r v) (v, done)
      (then-Quiet w v (open_joinlink os k r v).0 h (open_joinlink-Quiet os k r v)) h

pub start_roles-Quiet :
    (os : Sockets) (options : RoosterOptions) (k : IfIndex) (r : Ref) (w : World)
    → (cell w r).acp_daemon ≡ none
    → Quiet w (start_roles os options k r w).0
unfolding start_roles
start_roles-Quiet os options k r w first =
    let ifname = (cell w r).ifname in
    let opened = open_acp os k r w in
    let valid = is_valid_acp_interface options ifname in
    second_role-Quiet os (is_valid_joinlink_interface options ifname) k r w
      (if valid then opened else (w, done))
      (if-Quiet valid w opened (w, done)
        (FirstStart-Quiet k r w opened.0 first (open_acp-FirstStart os k r w)) (same-Quiet w))
