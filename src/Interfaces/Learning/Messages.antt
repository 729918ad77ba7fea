-- ===== src/Interfaces/Learning/Messages.antt =====
-- The handlers of netlink messages in src/interfaces.rs learn of each interface what the messages say.
use rooster.Base.{
  ℕ, suc, Bool, true, false, not, ◌&&◌, ◌≡◌, ◌⊎◌, inl, inr, refl, sym, ap, ◌∙◌, List, [], ◌∷◌, ◌++◌,
  length, some, ◌==◌, equality_nat, if◌then◌else◌, get_or-set_same, take, Option-cases, Bool-cases,
  nat_beq_iff, subst,
}
use rooster.Netlink.{LinkMessage, is_up}
use rooster.Acp.{empty_acp}
use rooster.Args.{RoosterOptions, is_valid_acp_interface, is_valid_joinlink_interface}
use rooster.Interface.{IfIndex, Ref, Interface, empty_interface, World}
use rooster.Interfaces.{
  cell, set_cell, lookup, or_insert, get_entry_by_ifindex, store_addresses, store_addr_info,
  store_links, Sockets, Ending, done, panicked, start_acp, start_joinlink, open_acp, open_joinlink,
  start_roles, store_link_info, Message, new_link, new_address, ignored_message, handle_message,
  listen_network,
}
use rooster.Interfaces.Invariant.{WellFormed, get_entry-WellFormed}
use rooster.Interfaces.Invariant.Messages.{handle_message-WellFormed}
use rooster.Interfaces.Learning.{
  bare, known, or_empty, learn, learn_all, bare-store_links, bare-store_addresses, known-listed,
  known-missing, known-set_cell, known-get_entry,
}

-- The second world lists the interfaces that the first lists, and they are the same but for daemons.
record Kept (w w' : World) : Type 0 where
  listed : w'.all.interfaces ≡ w.all.interfaces
  cells : (r : Ref) → bare (cell w' r) ≡ bare (cell w r)

same-Kept : (w : World) → Kept w w
same-Kept w = record { listed = refl; cells = λ r. refl }

then-Kept : (u v w : World) → Kept u v → Kept v w → Kept u w
then-Kept u v w h k = record { listed = k.listed ∙ h.listed; cells = λ r. k.cells r ∙ h.cells r }

Kept-known : (k : IfIndex) (w w' : World) → Kept w w' → known k w' ≡ known k w
Kept-known k w w' h = elim (Option-cases (lookup k w.all.interfaces)) [
  | inl e ↦ known-missing k w' (ap (lookup k) h.listed ∙ e) ∙ sym (known-missing k w e)
  | inr (r, e) ↦
      known-listed k r w' (ap (lookup k) h.listed ∙ e)
      ∙ ap some (h.cells r)
      ∙ sym (known-listed k r w e)
]

if-Kept :
    (b : Bool) (w : World) (x y : World × Ending)
    → Kept w x.0
    → Kept w y.0
    → Kept w (if b then x else y).0
if-Kept true w x y h k = h
if-Kept false w x y h k = k

start_acp-Kept : (os : Sockets) (r : Ref) (w : World) → Kept w (start_acp os r w).0
unfolding start_acp
start_acp-Kept os r w =
    let ifn : Interface = record (cell w r) { acp_daemon = some (length w.acps) } in
    let w' = set_cell r ifn (record w { acps = w.acps ++ (empty_acp ∷ []) }) in
    if-Kept os.grasp_bound w (w', done) (w, panicked)
      (record {
        listed = refl;
        cells = λ s. get_or-set_same bare (empty_interface 0) w.cells r s ifn refl;
      })
      (same-Kept w)

start_joinlink-Kept : (os : Sockets) (r : Ref) (w : World) → Kept w (start_joinlink os r w).0
unfolding start_joinlink
start_joinlink-Kept os r w = elim (Option-cases os.https_local) [
  | inl e ↦ rw (e, start_joinlink) (same-Kept w)
  | inr (_, e) ↦
      let ifn : Interface = record (cell w r) { join_daemon = some (length w.joins) } in
      rw (e, start_joinlink)
        (record {
          listed = refl;
          cells = λ s. get_or-set_same bare (empty_interface 0) w.cells r s ifn refl;
        })
]

open_acp-Kept : (os : Sockets) (k : IfIndex) (r : Ref) (w : World) → Kept w (open_acp os k r w).0
unfolding open_acp
open_acp-Kept os k r w =
    let acp_interfaces = or_insert k r w.all.acp_interfaces in
    let h =
      start_acp-Kept os r (record w { all = record w.all { acp_interfaces = acp_interfaces } }) in
    record { listed = h.listed; cells = h.cells }

open_joinlink-Kept :
    (os : Sockets) (k : IfIndex) (r : Ref) (w : World) → Kept w (open_joinlink os k r w).0
unfolding open_joinlink
open_joinlink-Kept os k r w =
    let joinlinks = or_insert k r w.all.joinlink_interfaces in
    let h =
      start_joinlink-Kept os r
        (record w { all = record w.all { joinlink_interfaces = joinlinks } }) in
    record { listed = h.listed; cells = h.cells }

second_role-Kept :
    (os : Sockets) (k : IfIndex) (r : Ref) (w : World) (ending : Ending) (b : Bool)
    → Kept w
        (elim ending as (λ _. World × Ending) [
          | panicked ↦ (w, panicked)
          | done ↦ if b then open_joinlink os k r w else (w, done)
        ]).0
second_role-Kept os k r w panicked b = same-Kept w
second_role-Kept os k r w done b =
    if-Kept b w (open_joinlink os k r w) (w, done) (open_joinlink-Kept os k r w) (same-Kept w)

start_roles-Kept :
    (os : Sockets) (options : RoosterOptions) (k : IfIndex) (r : Ref) (w : World)
    → Kept w (start_roles os options k r w).0
unfolding start_roles
start_roles-Kept os options k r w =
    let ifname = (cell w r).ifname in
    let is_acp = is_valid_acp_interface options ifname in
    let first = if is_acp then open_acp os k r w else (w, done) in
    then-Kept w first.0 (start_roles os options k r w).0
      (if-Kept is_acp w (open_acp os k r w) (w, done) (open_acp-Kept os k r w) (same-Kept w))
      (second_role-Kept os k r first.0 first.1 (is_valid_joinlink_interface options ifname))

-- A link that comes up starts its roles on the world in which its attributes are stored.
store_link_info-Kept :
    (os : Sockets) (options : RoosterOptions) (lm : LinkMessage) (w : World)
    → let (w0, r) = get_entry_by_ifindex lm.index w in
      Kept (set_cell r (store_links (cell w0 r) lm.nlas) w0) (store_link_info os options lm w).0
unfolding store_link_info
store_link_info-Kept os options lm w =
    let (w0, r) = get_entry_by_ifindex lm.index w in
    let ifn = store_links (cell w0 r) lm.nlas in
    let w1 = set_cell r ifn w0 in
    let roles = start_roles os options lm.index r w1 in
    if-Kept (not (is_up (cell w0 r).oper_state) && is_up ifn.oper_state) w1
      (if ifn.ignored then (w1, done) else roles) (w1, done)
      (if-Kept ifn.ignored w1 (w1, done) roles (same-Kept w1)
        (start_roles-Kept os options lm.index r w1))
      (same-Kept w1)

-- An entry is found or made, and replaced by what `f` makes of it.
module _ (f : Interface → Interface) where
  known-stored :
      (k j : IfIndex) (w : World)
      → ((ifn : Interface) → bare (f ifn) ≡ f (bare ifn))
      → WellFormed w
      → let (w0, r) = get_entry_by_ifindex j w in
        known k (set_cell r (f (cell w0 r)) w0)
        ≡ (if j == k then some (f (or_empty k (known k w))) else known k w)
  known-stored k j w natural h =
      let (w0, r) = get_entry_by_ifindex j w in
      let (h0, e) = get_entry-WellFormed j w h in
      let replaced = known-set_cell k j r (f (cell w0 r)) w0 h0 e in
      let entered = known-get_entry k j w h in
      elim (Bool-cases (j == k)) [
        | inl same ↦
            let at_k =
              subst (λ x. lookup x w0.all.interfaces ≡ some r) ((nat_beq_iff j k).0 same) e in
            let content : bare (cell w0 r) ≡ or_empty k (known k w) =
              ap (or_empty k) (sym (known-listed k r w0 at_k) ∙ (rw same at entered)) in
            (rw same at replaced) ∙ ap some (natural (cell w0 r) ∙ ap f content) ∙ rw same refl
        | inr other ↦ (rw other at replaced) ∙ (rw other at entered) ∙ rw other refl
      ]

-- A message teaches of each interface what it says.
handle_message-learn :
    (options : RoosterOptions) (m : Message) (k : IfIndex) (w : World)
    → WellFormed w
    → known k (handle_message options m w).0 ≡ learn k m (known k w)
unfolding handle_message store_addr_info
handle_message-learn options (new_link os lm) k w h =
    let (w0, r) = get_entry_by_ifindex lm.index w in
    Kept-known k (set_cell r (store_links (cell w0 r) lm.nlas) w0)
      (store_link_info os options lm w).0 (store_link_info-Kept os options lm w)
    ∙ known-stored (λ ifn. store_links ifn lm.nlas) k lm.index w
        (λ ifn. bare-store_links ifn lm.nlas) h
handle_message-learn options (new_address am) k w h =
    known-stored (λ ifn. store_addresses ifn am.nlas) k am.index w
      (λ ifn. bare-store_addresses ifn am.nlas) h
handle_message-learn options ignored_message k w h = refl

-- What the first of the messages say is known, and these are all of them unless there was a panic.
abbrev Learns : List Message → World → World × Ending → Type 0
Learns ms w (w', ending) =
    (n : ℕ) × ((k : IfIndex) → known k w' ≡ learn_all k (take n ms) (known k w))
    × ((ending ≡ panicked) ⊎ (take n ms ≡ ms))

-- From a well-formed world, whatever messages arrive: the listener handles so many of them, all
-- unless it panics; and what the table then holds for an index, but for the daemons, is what those
-- messages say that are about this index, in their order, whatever the others say.
pub listen_network-learn :
    (options : RoosterOptions) (ms : List Message) (w : World)
    → WellFormed w
    → (n : ℕ) × ((k : IfIndex)
        → known k (listen_network options ms w).0 ≡ learn_all k (take n ms) (known k w))
      × (((listen_network options ms w).1 ≡ panicked) ⊎ (take n ms ≡ ms))
unfolding listen_network
listen_network-learn options [] w h = (0, (λ k. refl), inr refl)
listen_network-learn options (m ∷ ms) w h =
    let (w1, ending) = handle_message options m w in
    let h1 = handle_message-WellFormed options m w h in
    let (n, learnt, all) = listen_network-learn options ms w1 h1 in
    let step = λ (k : IfIndex). handle_message-learn options m k w h in
    elim ending
      as (λ x. Learns (m ∷ ms) w (elim x as (λ _. World × Ending) [
        | done ↦ listen_network options ms w1
        | panicked ↦ (w1, panicked)
      ])) [
        | done ↦ (
          suc n,
          (λ k. learnt k ∙ ap (learn_all k (take n ms)) (step k)),
          elim all [ inl e ↦ inl e | inr e ↦ inr (ap (◌∷◌ m) e) ],
        )
        | panicked ↦ (1, step, inl refl)
      ]
