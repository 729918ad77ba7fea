-- ===== src/Interfaces/Invariant/Roles.antt =====
-- The two roles that src/interfaces.rs gives to an interface that has come up.
use rooster.Base.{
  Bool, true, false, ◌≡◌, refl, ap, ◌∙◌, inl, inr, [], ◌∷◌, ◌++◌, none, some, if◌then◌else◌, length,
  All, All-append, length-append, Option-cases, Bool-cases, arith,
}
use rooster.Args.{RoosterOptions, is_valid_acp_interface, is_valid_joinlink_interface}
use rooster.Acp.{AcpInterface, empty_acp}
use rooster.Interface.{IfIndex, Ref, JoinInterface, World, Map}
use rooster.Interfaces.{
  lookup, or_insert, cell, Sockets, Ending, done, panicked, start_acp, start_joinlink, open_acp,
  open_joinlink, start_roles,
}
use rooster.Interfaces.Invariant.{IsAlias, WellFormed, set_cell-WellFormed}

new_acp-WellFormed :
    (acp : AcpInterface) (w : World)
    → WellFormed w
    → WellFormed (record w { acps = w.acps ++ (acp ∷ []) })
new_acp-WellFormed acp w h = record {
  interfaces_lead = h.interfaces_lead;
  acp_aliases = h.acp_aliases;
  joinlink_aliases = h.joinlink_aliases;
  acp_daemons_fit =
      λ r a e. omega (arith, length-append w.acps (acp ∷ []), h.acp_daemons_fit r a e);
  join_daemons_fit = h.join_daemons_fit;
}

new_join-WellFormed :
    (ji : JoinInterface) (w : World)
    → WellFormed w
    → WellFormed (record w { joins = w.joins ++ (ji ∷ []) })
new_join-WellFormed ji w h = record {
  interfaces_lead = h.interfaces_lead;
  acp_aliases = h.acp_aliases;
  joinlink_aliases = h.joinlink_aliases;
  acp_daemons_fit = h.acp_daemons_fit;
  join_daemons_fit =
      λ r j e. omega (arith, length-append w.joins (ji ∷ []), h.join_daemons_fit r j e);
}

-- A new daemon for the interface behind `r`.
start_acp-WellFormed :
    (os : Sockets) (r : Ref) (w : World) → WellFormed w → WellFormed (start_acp os r w).0
unfolding start_acp
start_acp-WellFormed os r w h = elim (Bool-cases os.grasp_bound) [
  | inr e ↦ rw e h
  | inl e ↦
      let w' = record w { acps = w.acps ++ (empty_acp ∷ []) } in
      rw e (
        set_cell-WellFormed r (record (cell w r) { acp_daemon = some (length w.acps) }) w' refl
          (λ a d. ground (arith, length-append w.acps (empty_acp ∷ [])))
          (λ j d. h.join_daemons_fit r j d) (new_acp-WellFormed empty_acp w h))
]

start_joinlink-WellFormed :
    (os : Sockets) (r : Ref) (w : World) → WellFormed w → WellFormed (start_joinlink os r w).0
unfolding start_joinlink
start_joinlink-WellFormed os r w h = elim (Option-cases os.https_local) [
  | inl e ↦ rw (e, start_joinlink) h
  | inr (l, e) ↦
      let ji : JoinInterface = record { https_v6addr = l.0; https_port = l.1 } in
      let w' = record w { joins = w.joins ++ (ji ∷ []) } in
      rw (e, start_joinlink)
        (set_cell-WellFormed r (record (cell w r) { join_daemon = some (length w.joins) }) w' refl
          (λ a d. h.acp_daemons_fit r a d) (λ j d. ground (arith, length-append w.joins (ji ∷ [])))
          (new_join-WellFormed ji w h))
]

or_insert-IsAlias :
    (m : Map) (k : IfIndex) (r : Ref) (t : Map)
    → lookup k m ≡ some r
    → All (IsAlias m) t
    → All (IsAlias m) (or_insert k r t)
or_insert-IsAlias m k r t e h =
    elim (lookup k t)
      as (λ x. All (IsAlias m) (elim x [ some _ ↦ t | none ↦ t ++ ((k, r) ∷ []) ])) [
        | some _ ↦ h
        | none ↦ All-append (IsAlias m) t ((k, r) ∷ []) h (e, tt)
      ]

pub open_acp-WellFormed :
    (os : Sockets) (k : IfIndex) (r : Ref) (w : World)
    → WellFormed w
    → lookup k w.all.interfaces ≡ some r
    → WellFormed (open_acp os k r w).0
unfolding open_acp
open_acp-WellFormed os k r w h e =
    start_acp-WellFormed os r
      (record w { all = record w.all { acp_interfaces = or_insert k r w.all.acp_interfaces } })
      (record {
        interfaces_lead = h.interfaces_lead;
        acp_aliases = or_insert-IsAlias w.all.interfaces k r w.all.acp_interfaces e h.acp_aliases;
        joinlink_aliases = h.joinlink_aliases;
        acp_daemons_fit = h.acp_daemons_fit;
        join_daemons_fit = h.join_daemons_fit;
      })

open_joinlink-WellFormed :
    (os : Sockets) (k : IfIndex) (r : Ref) (w : World)
    → WellFormed w
    → lookup k w.all.interfaces ≡ some r
    → WellFormed (open_joinlink os k r w).0
unfolding open_joinlink
open_joinlink-WellFormed os k r w h e =
    start_joinlink-WellFormed os r
      (record w {
        all = record w.all { joinlink_interfaces = or_insert k r w.all.joinlink_interfaces };
      })
      (record {
        interfaces_lead = h.interfaces_lead;
        acp_aliases = h.acp_aliases;
        joinlink_aliases =
            or_insert-IsAlias w.all.interfaces k r w.all.joinlink_interfaces e h.joinlink_aliases;
        acp_daemons_fit = h.acp_daemons_fit;
        join_daemons_fit = h.join_daemons_fit;
      })

-- Opening the one role leaves the main table as it is.
pub open_acp-interfaces :
    (os : Sockets) (k : IfIndex) (r : Ref) (w : World)
    → (open_acp os k r w).0.all.interfaces ≡ w.all.interfaces
unfolding open_acp start_acp
open_acp-interfaces os k r w = ground arith

first_role-WellFormed :
    (os : Sockets) (k : IfIndex) (r : Ref) (w : World) (b : Bool)
    → WellFormed w
    → lookup k w.all.interfaces ≡ some r
    → WellFormed (if b then open_acp os k r w else (w, done)).0
      × (lookup k (if b then open_acp os k r w else (w, done)).0.all.interfaces ≡ some r)
first_role-WellFormed os k r w true h e =
    (open_acp-WellFormed os k r w h e, ap (lookup k) (open_acp-interfaces os k r w) ∙ e)
first_role-WellFormed os k r w false h e = (h, e)

second_role-WellFormed :
    (os : Sockets) (k : IfIndex) (r : Ref) (w : World) (ending : Ending) (b : Bool)
    → WellFormed w
    → lookup k w.all.interfaces ≡ some r
    → WellFormed
        (elim ending as (λ _. World × Ending) [
          | panicked ↦ (w, panicked)
          | done ↦ if b then open_joinlink os k r w else (w, done)
        ]).0
second_role-WellFormed os k r w panicked b h e = h
second_role-WellFormed os k r w done true h e = open_joinlink-WellFormed os k r w h e
second_role-WellFormed os k r w done false h e = h

pub start_roles-WellFormed :
    (os : Sockets) (options : RoosterOptions) (k : IfIndex) (r : Ref) (w : World)
    → WellFormed w
    → lookup k w.all.interfaces ≡ some r
    → WellFormed (start_roles os options k r w).0
unfolding start_roles
start_roles-WellFormed os options k r w h e =
    let ifname = (cell w r).ifname in
    let is_acp = is_valid_acp_interface options ifname in
    let (w1, ending) = if is_acp then open_acp os k r w else (w, done) in
    let (h1, e1) = first_role-WellFormed os k r w is_acp h e in
    second_role-WellFormed os k r w1 ending (is_valid_joinlink_interface options ifname) h1 e1
