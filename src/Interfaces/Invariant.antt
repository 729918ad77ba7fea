-- ===== src/Interfaces/Invariant.antt =====
-- What holds of the tables of src/interfaces.rs after whatever netlink messages.
pub mod Roles
pub mod Messages
use rooster.Base.{
  ℕ, suc, ◌+◌, ◌<◌, Bool, true, false, ◌≡◌, ◌≢◌, refl, sym, ap, ◌∙◌, ◌⊎◌, inl, inr, List, [], ◌∷◌,
  ◌++◌, Option, none, some, ◌==◌, equality_nat, if◌then◌else◌, length, get_or, set, All, All-imp,
  All-append, length-append, length-set, get_or-append, get_or-append_same, get_or-set_same,
  get_or-set-cases, get_or-last, get_or-set_self, Option-cases, Bool-cases, nat_beq_iff, arith,
  subst, ◌&&◌,
}
use rooster.Interface.{
  IfIndex, Ref, Interface, empty_interface, JoinInterface, AllInterfaces, World, Map, initial_world,
}
use rooster.Interfaces.{lookup, or_insert, cell, set_cell, get_entry_by_ifindex}

-- A reference in the main table leads to the interface of its index.
abbrev pub Leads : World → IfIndex × Ref → Type 0
Leads w (k, r) = (r < length w.cells) × ((cell w r).ifindex ≡ k)

-- An entry of another table is the entry of the main one.
abbrev pub IsAlias : Map → IfIndex × Ref → Type 0
IsAlias m (k, r) = lookup k m ≡ some r

pub record WellFormed (w : World) : Type 0 where
  pub interfaces_lead : All (Leads w) w.all.interfaces
  pub acp_aliases : All (IsAlias w.all.interfaces) w.all.acp_interfaces
  pub joinlink_aliases : All (IsAlias w.all.interfaces) w.all.joinlink_interfaces
  pub acp_daemons_fit : (r : Ref) (a : Ref) → (cell w r).acp_daemon ≡ some a → a < length w.acps
  pub join_daemons_fit : (r : Ref) (j : Ref) → (cell w r).join_daemon ≡ some j → j < length w.joins

pub initial-WellFormed : WellFormed initial_world
initial-WellFormed = record {
  interfaces_lead = tt;
  acp_aliases = tt;
  joinlink_aliases = tt;
  acp_daemons_fit = λ r a e. cc;
  join_daemons_fit = λ r j e. cc;
}

lookup-append_some :
    (k j : IfIndex) (r s : Ref) (m : Map)
    → lookup k m ≡ some r
    → lookup k (m ++ ((j, s) ∷ [])) ≡ some r
lookup-append_some k j r s [] e = cc
lookup-append_some k j r s ((i, t) ∷ m) e = ground (arith, lookup-append_some k j r s m)

pub lookup-append_none :
    (k : IfIndex) (r : Ref) (m : Map) → lookup k m ≡ none → lookup k (m ++ ((k, r) ∷ [])) ≡ some r
lookup-append_none k r [] e = ground (arith, nat_beq_iff k k)
lookup-append_none k r ((i, t) ∷ m) e = ground (arith, lookup-append_none k r m)

pub lookup-Leads :
    (w : World) (k : IfIndex) (r : Ref) (m : Map)
    → All (Leads w) m
    → lookup k m ≡ some r
    → Leads w (k, r)
lookup-Leads w k r [] h e = cc
lookup-Leads w k r ((j, s) ∷ m) h e = ground (arith, nat_beq_iff j k, lookup-Leads w k r m h.1)

new_entry-WellFormed :
    (k : IfIndex) (w : World)
    → WellFormed w
    → lookup k w.all.interfaces ≡ none
    → WellFormed (record w {
      cells = w.cells ++ (empty_interface k ∷ []);
      all = record w.all { interfaces = w.all.interfaces ++ ((k, length w.cells) ∷ []) };
    })
new_entry-WellFormed k w h e = record {
  interfaces_lead =
      All-append _ w.all.interfaces ((k, length w.cells) ∷ [])
        (All-imp
          (λ x (fits, keyed). (
            omega (arith, length-append w.cells (empty_interface k ∷ [])),
            ap (λ c. c.ifindex)
                  (get_or-append w.cells (empty_interface k ∷ []) x.1 (empty_interface 0) fits)
                ∙ keyed,
          ))
          w.all.interfaces h.interfaces_lead)
        (
          (
            omega (arith, length-append w.cells (empty_interface k ∷ [])),
            ap (λ c. c.ifindex) (get_or-last w.cells (empty_interface k) (empty_interface 0)),
          ),
          tt,
        );
  acp_aliases =
      All-imp (λ x. lookup-append_some x.0 k x.1 (length w.cells) w.all.interfaces)
        w.all.acp_interfaces h.acp_aliases;
  joinlink_aliases =
      All-imp (λ x. lookup-append_some x.0 k x.1 (length w.cells) w.all.interfaces)
        w.all.joinlink_interfaces h.joinlink_aliases;
  acp_daemons_fit = λ r a d. h.acp_daemons_fit r a (
      sym (
        get_or-append_same (λ c. c.acp_daemon) (empty_interface 0) w.cells r (empty_interface k)
          refl)
      ∙ d);
  join_daemons_fit = λ r j d. h.join_daemons_fit r j (
      sym (
        get_or-append_same (λ c. c.join_daemon) (empty_interface 0) w.cells r (empty_interface k)
          refl)
      ∙ d);
}

-- The entry for an index is one of the table, which it is added to where it is missing.
pub get_entry-WellFormed :
    (k : IfIndex) (w : World)
    → WellFormed w
    → WellFormed (get_entry_by_ifindex k w).0
      × (lookup k (get_entry_by_ifindex k w).0.all.interfaces ≡ some (get_entry_by_ifindex k w).1)
unfolding get_entry_by_ifindex
get_entry-WellFormed k w h = elim (Option-cases (lookup k w.all.interfaces)) [
  | inl e ↦
      rw (e, get_entry_by_ifindex)
        (new_entry-WellFormed k w h e, lookup-append_none k (length w.cells) w.all.interfaces e)
  | inr (r, e) ↦ rw (e, get_entry_by_ifindex) (h, e)
]

-- An interface is replaced by one with the same index, whose daemons exist.
pub set_cell-WellFormed :
    (r : Ref) (ifn : Interface) (w : World)
    → ifn.ifindex ≡ (cell w r).ifindex
    → ((a : Ref) → ifn.acp_daemon ≡ some a → a < length w.acps)
    → ((j : Ref) → ifn.join_daemon ≡ some j → j < length w.joins)
    → WellFormed w
    → WellFormed (set_cell r ifn w)
set_cell-WellFormed r ifn w same acp join h = record {
  interfaces_lead =
      All-imp
        (λ x (fits, keyed). (
          omega (arith, length-set w.cells r ifn),
          get_or-set_same (λ c. c.ifindex) (empty_interface 0) w.cells r x.1 ifn same ∙ keyed,
        ))
        w.all.interfaces h.interfaces_lead;
  acp_aliases = h.acp_aliases;
  joinlink_aliases = h.joinlink_aliases;
  acp_daemons_fit = λ s a e. elim (get_or-set-cases w.cells r s ifn (empty_interface 0)) [
    | inl (i, c) ↦ acp a (sym (ap (λ x. x.acp_daemon) c) ∙ e)
    | inr c ↦ h.acp_daemons_fit s a (sym (ap (λ x. x.acp_daemon) c) ∙ e)
  ];
  join_daemons_fit = λ s j e. elim (get_or-set-cases w.cells r s ifn (empty_interface 0)) [
    | inl (i, c) ↦ join j (sym (ap (λ x. x.join_daemon) c) ∙ e)
    | inr c ↦ h.join_daemons_fit s j (sym (ap (λ x. x.join_daemon) c) ∙ e)
  ];
}
