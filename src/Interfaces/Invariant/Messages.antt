-- ===== src/Interfaces/Invariant/Messages.antt =====
-- The handlers of netlink messages in src/interfaces.rs keep its tables well formed.
use rooster.Base.{
  Bool, true, false, not, ◌&&◌, ◌≡◌, refl, sym, ◌∙◌, List, [], ◌∷◌, if◌then◌else◌, arith,
}
use rooster.Netlink.{LinkNla, AddressNla, LinkMessage, AddressMessage, is_up}
use rooster.Args.{RoosterOptions}
use rooster.Interface.{Ref, Interface, World}
use rooster.Interfaces.{
  cell, set_cell, get_entry_by_ifindex, store_address, store_addresses, store_addr_info, store_link,
  store_links, Sockets, Ending, done, panicked, start_roles, store_link_info, Message, new_link,
  new_address, ignored_message, handle_message, listen_network,
}
use rooster.Interfaces.Invariant.{WellFormed, get_entry-WellFormed, set_cell-WellFormed}
use rooster.Interfaces.Invariant.Roles.{start_roles-WellFormed}

-- What attributes cannot change.
record IsSame (x y : Interface) : Type 0 where
  index : x.ifindex ≡ y.ifindex
  acp : x.acp_daemon ≡ y.acp_daemon
  join : x.join_daemon ≡ y.join_daemon

store_links-IsSame : (ifn : Interface) (nlas : List LinkNla) → IsSame (store_links ifn nlas) ifn
unfolding store_links store_link
store_links-IsSame ifn [] = record { index = refl; acp = refl; join = refl }
store_links-IsSame ifn (LinkNla.if_name n ∷ nlas) =
    let h = store_links-IsSame (store_link ifn (LinkNla.if_name n)) nlas in
    record { index = h.index; acp = h.acp; join = h.join }
store_links-IsSame ifn (LinkNla.mtu n ∷ nlas) =
    let h = store_links-IsSame (store_link ifn (LinkNla.mtu n)) nlas in
    record { index = h.index; acp = h.acp; join = h.join }
store_links-IsSame ifn (LinkNla.oper_state n ∷ nlas) =
    let h = store_links-IsSame (store_link ifn (LinkNla.oper_state n)) nlas in
    record { index = h.index; acp = h.acp; join = h.join }
store_links-IsSame ifn (LinkNla.master n ∷ nlas) =
    let h = store_links-IsSame (store_link ifn (LinkNla.master n)) nlas in
    record { index = h.index; acp = h.acp; join = h.join }
store_links-IsSame ifn (_ ∷ nlas) = store_links-IsSame ifn nlas

store_address-IsSame : (ifn : Interface) (nla : AddressNla) → IsSame (store_address ifn nla) ifn
unfolding store_address
store_address-IsSame ifn (AddressNla.address bytes) = record {
  index = ground arith;
  acp = ground arith;
  join = ground arith;
}
store_address-IsSame ifn AddressNla.other = record { index = refl; acp = refl; join = refl }

store_addresses-IsSame :
    (ifn : Interface) (nlas : List AddressNla) → IsSame (store_addresses ifn nlas) ifn
unfolding store_addresses
store_addresses-IsSame ifn [] = record { index = refl; acp = refl; join = refl }
store_addresses-IsSame ifn (nla ∷ nlas) =
    let one = store_address-IsSame ifn nla in
    let rest = store_addresses-IsSame (store_address ifn nla) nlas in
    record { index = rest.index ∙ one.index; acp = rest.acp ∙ one.acp; join = rest.join ∙ one.join }

set_same-WellFormed :
    (r : Ref) (ifn : Interface) (w : World)
    → IsSame ifn (cell w r)
    → WellFormed w
    → WellFormed (set_cell r ifn w)
set_same-WellFormed r ifn w same h =
    set_cell-WellFormed r ifn w same.index (λ a e. h.acp_daemons_fit r a (sym same.acp ∙ e))
      (λ j e. h.join_daemons_fit r j (sym same.join ∙ e)) h

pub store_addr_info-WellFormed :
    (am : AddressMessage) (w : World) → WellFormed w → WellFormed (store_addr_info am w)
unfolding store_addr_info
store_addr_info-WellFormed am w h =
    let (w', r) = get_entry_by_ifindex am.index w in
    set_same-WellFormed r (store_addresses (cell w' r) am.nlas) w'
      (store_addresses-IsSame (cell w' r) am.nlas) (get_entry-WellFormed am.index w h).0

if-WellFormed :
    (b : Bool) (x y : World × Ending)
    → WellFormed x.0
    → WellFormed y.0
    → WellFormed (if b then x else y).0
if-WellFormed true x y h k = h
if-WellFormed false x y h k = k

pub store_link_info-WellFormed :
    (os : Sockets) (options : RoosterOptions) (lm : LinkMessage) (w : World)
    → WellFormed w
    → WellFormed (store_link_info os options lm w).0
unfolding store_link_info
store_link_info-WellFormed os options lm w h =
    let (w0, r) = get_entry_by_ifindex lm.index w in
    let (h0, e) = get_entry-WellFormed lm.index w h in
    let ifn = store_links (cell w0 r) lm.nlas in
    let w1 = set_cell r ifn w0 in
    let h1 = set_same-WellFormed r ifn w0 (store_links-IsSame (cell w0 r) lm.nlas) h0 in
    if-WellFormed (not (is_up (cell w0 r).oper_state) && is_up ifn.oper_state)
      (if ifn.ignored then (w1, done) else start_roles os options lm.index r w1) (w1, done)
      (if-WellFormed ifn.ignored (w1, done) (start_roles os options lm.index r w1) h1
        (start_roles-WellFormed os options lm.index r w1 h1 e))
      h1

pub handle_message-WellFormed :
    (options : RoosterOptions) (m : Message) (w : World)
    → WellFormed w
    → WellFormed (handle_message options m w).0
unfolding handle_message
handle_message-WellFormed options (new_link os lm) w h =
    store_link_info-WellFormed os options lm w h
handle_message-WellFormed options (new_address am) w h = store_addr_info-WellFormed am w h
handle_message-WellFormed options ignored_message w h = h

-- From a well-formed world, whatever messages arrive, and also if the listener panics in the
-- middle: every interface of the main table has the index that it is listed by, the other tables
-- list the same interfaces, and the daemons exist.
pub listen_network-WellFormed :
    (options : RoosterOptions) (ms : List Message) (w : World)
    → WellFormed w
    → WellFormed (listen_network options ms w).0
unfolding listen_network
listen_network-WellFormed options [] w h = h
listen_network-WellFormed options (m ∷ ms) w h =
    let h1 = handle_message-WellFormed options m w h in
    let (w1, ending) = handle_message options m w in
    elim ending
      as (λ x.
        WellFormed
          (elim x as (λ _. World × Ending) [
            | done ↦ listen_network options ms w1
            | panicked ↦ (w1, panicked)
          ]).0) [ done ↦ listen_network-WellFormed options ms w1 h1 | panicked ↦ h1 ]

pub store_links-WellFormed :
    (lm : LinkMessage) (r : Ref) (w : World)
    → WellFormed w
    → WellFormed (set_cell r (store_links (cell w r) lm.nlas) w)
store_links-WellFormed lm r w h =
    set_same-WellFormed r (store_links (cell w r) lm.nlas) w (store_links-IsSame (cell w r) lm.nlas)
      h

pub store_links-daemon :
    (ifn : Interface) (nlas : List LinkNla) → (store_links ifn nlas).acp_daemon ≡ ifn.acp_daemon
store_links-daemon ifn nlas = (store_links-IsSame ifn nlas).acp
