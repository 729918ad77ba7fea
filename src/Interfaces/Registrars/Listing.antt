-- ===== src/Interfaces/Registrars/Listing.antt =====
-- Every daemon of src/interfaces.rs is that of an interface of the ACP map, as long as no link with a
-- daemon comes up again.
use rooster.Base.{
  ◌<◌, ◌≤◌, Bool, true, false, ◌≡◌, ◌⊎◌, inl, inr, sym, ap, ◌∙◌, subst, [], ◌∷◌, ◌++◌, none, some,
  length, length-append, All, get_or-set-cases, get_or-set_self, Option-cases, Bool-cases,
  if◌then◌else◌, arith, ◌==◌, equality_nat, nat_beq_iff,
}
use rooster.Netlink.{LinkMessage, is_up}
use rooster.Args.{RoosterOptions, is_valid_acp_interface, is_valid_joinlink_interface}
use rooster.Acp.{empty_acp}
use rooster.Interface.{IfIndex, Ref, World, Map, empty_interface}
use rooster.Interfaces.{
  lookup, or_insert, cell, set_cell, get_entry_by_ifindex, store_links, store_addr_info, Sockets,
  Ending, done, panicked, start_acp, open_acp, open_joinlink, start_roles, store_link_info, Message,
  new_link, new_address, ignored_message, handle_message,
}
use rooster.Interfaces.Invariant.{
  WellFormed, IsAlias, lookup-Leads, lookup-append_none, get_entry-WellFormed,
}
use rooster.Interfaces.Invariant.Messages.{store_links-WellFormed}
use rooster.Interfaces.Registrars.{InMap}
use rooster.Interfaces.Registrars.Alike.{Alike, get_entry-Alike, store_addr_info-Alike}
use rooster.Interfaces.Registrars.Restart.{open_joinlink-Alike}
use rooster.Interfaces.Registrars.Starts.{InMap-or_insert}
use rooster.Interfaces.Registrars.Starts.Links.{
  IsFirstStart, rising, get_entry-IsFirstStart, store_links-Alike,
}

-- An interface of the ACP map has the table.
abbrev pub Lists : World → Ref → Type 0
Lists w a = (r : Ref) × InMap r w.all.acp_interfaces × ((cell w r).acp_daemon ≡ some a)

-- The tables that were listed are listed, and the new ones are.
pub record Listing (w w' : World) : Type 0 where
  pub grows : length w.acps ≤ length w'.acps
  pub kept : (a : Ref) → Lists w a → Lists w' a
  pub new : (a : Ref) → a < length w'.acps → (a < length w.acps) ⊎ Lists w' a

same-Listing : (w : World) → Listing w w
same-Listing w = record { grows = omega arith; kept = λ a l. l; new = λ a i. inl i }

then-Listing : (u v w : World) → Listing u v → Listing v w → Listing u w
then-Listing u v w h k = record {
  grows = omega (arith, h.grows, k.grows);
  kept = λ a l. k.kept a (h.kept a l);
  new = λ a i. elim (k.new a i) [
    | inl j ↦ elim (h.new a j) [ inl before ↦ inl before | inr l ↦ inr (k.kept a l) ]
    | inr l ↦ inr l
  ];
}

Alike-Listing : (w w' : World) → Alike w w' → Listing w w'
Alike-Listing w w' h =
    let sizes : length w.acps ≡ length w'.acps = ap length h.tables in
    record {
      grows = omega arith;
      kept = λ a (r, i, e). (r, subst (InMap r) h.maps i, sym (h.daemons r) ∙ e);
      new = λ a i. inl (subst (λ n. a < n) (sym sizes) i);
    }

lookup-InMap : (k : IfIndex) (r : Ref) (m : Map) → lookup k m ≡ some r → InMap r m
lookup-InMap k r [] e = cc
lookup-InMap k r ((j, s) ∷ m) e = ground (arith, lookup-InMap k r m)

-- An entry that is looked up in a table of aliases is that of the main table.
alias_found :
    (main : Map) (k : IfIndex) (r : Ref) (m : Map)
    → All (IsAlias main) m
    → lookup k m ≡ some r
    → lookup k main ≡ some r
alias_found main k r [] h e = cc
alias_found main k r ((j, s) ∷ m) (first, rest) e = elim (Bool-cases (j == k)) [
  | inl same ↦ subst (λ i. lookup i main ≡ some r) ((nat_beq_iff j k).0 same) (ground arith)
  | inr other ↦ alias_found main k r m rest (rw other at e)
]

pub or_insert-InMap :
    (main : Map) (k : IfIndex) (r : Ref) (m : Map)
    → All (IsAlias main) m
    → lookup k main ≡ some r
    → InMap r (or_insert k r m)
or_insert-InMap main k r m h e = elim (Option-cases (lookup k m)) [
  | inl absent ↦
      subst (InMap r) (sym (ap (λ x. elim x [ some _ ↦ m | none ↦ m ++ ((k, r) ∷ []) ]) absent))
        (lookup-InMap k r (m ++ ((k, r) ∷ [])) (lookup-append_none k r m absent))
  | inr (s, present) ↦
      subst (InMap r) (sym (ap (λ x. elim x [ some _ ↦ m | none ↦ m ++ ((k, r) ∷ []) ]) present))
        (lookup-InMap k r m (ground (arith, alias_found main k s m h present)))
]

open_acp-Listing :
    (os : Sockets) (k : IfIndex) (r : Ref) (w : World)
    → WellFormed w
    → lookup k w.all.interfaces ≡ some r
    → (cell w r).acp_daemon ≡ none
    → Listing w (open_acp os k r w).0
unfolding open_acp start_acp
open_acp-Listing os k r w h e first =
    let m = w.all.acp_interfaces in
    elim (Bool-cases os.grasp_bound) [
      | inl bound ↦
          let ifn = record (cell w r) { acp_daemon = some (length w.acps) } in
          let fits = (lookup-Leads w k r w.all.interfaces h.interfaces_lead e).0 in
          let longer = length-append w.acps (empty_acp ∷ []) in
          rw (bound, start_acp)
            (record {
              grows = omega (arith, longer);
              kept = λ a (s, i, d). (
                s,
                (InMap-or_insert k r s m).0 i,
                elim (get_or-set-cases w.cells r s ifn (empty_interface 0)) [
                  | inl (same, c) ↦
                      absurd (ground (arith, subst (λ q. (cell w q).acp_daemon ≡ none) same first))
                  | inr c ↦ ap (λ x. x.acp_daemon) c ∙ d
                ],
              );
              new = λ a i. elim (Bool-cases (a == length w.acps)) [
                | inl last ↦ inr (
                  r,
                  or_insert-InMap w.all.interfaces k r m h.acp_aliases e,
                  ap (λ x. x.acp_daemon) (get_or-set_self w.cells r ifn (empty_interface 0) fits)
                      ∙ ap some (sym ((nat_beq_iff a (length w.acps)).0 last)),
                )
                | inr other ↦ inl (ground (arith, longer, nat_beq_iff a (length w.acps)))
              ];
            })
      | inr failed ↦
          rw (failed, start_acp)
            (record {
              grows = omega arith;
              kept = λ a (s, i, d). (s, (InMap-or_insert k r s m).0 i, d);
              new = λ a i. inl i;
            })
    ]

if-Listing :
    (b : Bool) (w : World) (x y : World × Ending)
    → Listing w x.0
    → Listing w y.0
    → Listing w (if b then x else y).0
if-Listing true w x y h k = h
if-Listing false w x y h k = k

second_role-Listing :
    (os : Sockets) (b : Bool) (k : IfIndex) (r : Ref) (w : World) (x : World × Ending)
    → Listing w x.0
    → Listing w
        (elim x.1 as (λ _. World × Ending) [
          | panicked ↦ (x.0, panicked)
          | done ↦ if b then open_joinlink os k r x.0 else (x.0, done)
        ]).0
second_role-Listing os b k r w (v, panicked) h = h
second_role-Listing os b k r w (v, done) h =
    if-Listing b w (open_joinlink os k r v) (v, done)
      (then-Listing w v (open_joinlink os k r v).0 h
        (Alike-Listing v (open_joinlink os k r v).0 (open_joinlink-Alike os k r v)))
      h

start_roles-Listing :
    (os : Sockets) (options : RoosterOptions) (k : IfIndex) (r : Ref) (w : World)
    → WellFormed w
    → lookup k w.all.interfaces ≡ some r
    → (cell w r).acp_daemon ≡ none
    → Listing w (start_roles os options k r w).0
unfolding start_roles
start_roles-Listing os options k r w h e first =
    let valid = is_valid_acp_interface options (cell w r).ifname in
    second_role-Listing os (is_valid_joinlink_interface options (cell w r).ifname) k r w
      (if valid then open_acp os k r w else (w, done))
      (if-Listing valid w (open_acp os k r w) (w, done) (open_acp-Listing os k r w h e first)
        (same-Listing w))

store_link_info-Listing :
    (os : Sockets) (options : RoosterOptions) (lm : LinkMessage) (w : World)
    → WellFormed w
    → IsFirstStart (new_link os lm) w
    → Listing w (store_link_info os options lm w).0
unfolding store_link_info
store_link_info-Listing os options lm w h first =
    let (w0, r) = get_entry_by_ifindex lm.index w in
    let (h0, e) = get_entry-WellFormed lm.index w h in
    let old = cell w0 r in
    let ifn = store_links old lm.nlas in
    let w1 = set_cell r ifn w0 in
    let alike = store_links-Alike lm r w0 in
    let stored =
      then-Listing w w0 w1 (Alike-Listing w w0 (get_entry-Alike lm.index w))
        (Alike-Listing w0 w1 alike) in
    elim (rising (is_up old.oper_state) (is_up ifn.oper_state)) [
      | inr same ↦ rw same stored
      | inl (rises, was, now) ↦ rw rises (
          if-Listing ifn.ignored w (w1, done) (start_roles os options lm.index r w1) stored
            (then-Listing w w1 (start_roles os options lm.index r w1).0 stored (
              start_roles-Listing os options lm.index r w1 (store_links-WellFormed lm r w0 h0) e
                (sym (alike.daemons r) ∙ get_entry-IsFirstStart os lm w first was now))))
    ]

-- A message that does not bring up a link again that had a daemon keeps every table listed.
pub handle_message-Listing :
    (options : RoosterOptions) (m : Message) (w : World)
    → WellFormed w
    → IsFirstStart m w
    → Listing w (handle_message options m w).0
unfolding handle_message
handle_message-Listing options (new_link os lm) w h first =
    store_link_info-Listing os options lm w h first
handle_message-Listing options (new_address am) w h first =
    Alike-Listing w (store_addr_info am w) (store_addr_info-Alike am w)
handle_message-Listing options ignored_message w h first = same-Listing w
