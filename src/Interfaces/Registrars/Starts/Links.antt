-- ===== src/Interfaces/Registrars/Starts/Links.antt =====
-- The handlers of netlink messages in src/interfaces.rs keep the announced proxies up to date, as long
-- as no link comes up again.
use rooster.Base.{
  Bool, true, false, not, ◌&&◌, ◌≡◌, ◌⊎◌, inl, inr, refl, sym, ap, ◌∙◌, List, none, some,
  Option-cases, get_or-last, get_or-set_same, arith,
}
use rooster.Netlink.{LinkMessage, is_up}
use rooster.Args.{RoosterOptions}
use rooster.Interface.{Ref, Interface, World, Map, empty_interface}
use rooster.Interfaces.{
  lookup, cell, set_cell, get_entry_by_ifindex, store_links, Sockets, done, Message, new_link,
  new_address, ignored_message, store_addr_info, handle_message, start_roles, store_link_info,
}
use rooster.Interfaces.Invariant.Messages.{store_links-daemon}
use rooster.Interfaces.Registrars.{YieldsValues}
use rooster.Interfaces.Registrars.Coherence.{Coherent}
use rooster.Interfaces.Registrars.Quiet.{Quiet, same-Quiet, then-Quiet, Alike-Quiet, Quiet-Coherent}
use rooster.Interfaces.Registrars.Alike.{Alike, get_entry-Alike, store_addr_info-Alike}
use rooster.Acp.Ports.{http}
use rooster.Interfaces.Registrars.Serving.{Serves}
use rooster.Interfaces.Registrars.Starts.{if-Quiet, start_roles-Quiet}

-- The message does not bring up a link again that had a daemon before.
abbrev pub IsFirstStart : Message → World → Type 0
IsFirstStart (new_link os lm) w =
    (r : Ref)
    → lookup lm.index w.all.interfaces ≡ some r
    → is_up (cell w r).oper_state ≡ false
    → is_up (store_links (cell w r) lm.nlas).oper_state ≡ true
    → (cell w r).acp_daemon ≡ none
IsFirstStart _ w = Unit

pub rising :
    (x y : Bool) → (((not x && y) ≡ true) × (x ≡ false) × (y ≡ true)) ⊎ ((not x && y) ≡ false)
rising x y = ground arith

abbrev entry : LinkMessage → World → Interface
entry lm w = cell (get_entry_by_ifindex lm.index w).0 (get_entry_by_ifindex lm.index w).1

pub get_entry-IsFirstStart :
    (os : Sockets) (lm : LinkMessage) (w : World)
    → IsFirstStart (new_link os lm) w
    → is_up (entry lm w).oper_state ≡ false
    → is_up (store_links (entry lm w) lm.nlas).oper_state ≡ true
    → (entry lm w).acp_daemon ≡ none
unfolding get_entry_by_ifindex
get_entry-IsFirstStart os lm w first = elim (Option-cases (lookup lm.index w.all.interfaces)) [
  | inl e ↦
      rw (e, get_entry_by_ifindex)
        (λ _ _.
          ap (λ c. c.acp_daemon)
            (get_or-last w.cells (empty_interface lm.index) (empty_interface 0)))
  | inr (r, e) ↦ rw (e, get_entry_by_ifindex) (first r e)
]

pub store_links-Alike :
    (lm : LinkMessage) (r : Ref) (w : World)
    → Alike w (set_cell r (store_links (cell w r) lm.nlas) w)
store_links-Alike lm r w = record {
  flag = refl;
  proxies = refl;
  maps = refl;
  tables = refl;
  daemons = λ s. sym (
      get_or-set_same (λ c. c.acp_daemon) (empty_interface 0) w.cells r s
        (store_links (cell w r) lm.nlas) (store_links-daemon (cell w r) lm.nlas));
}

store_links-Quiet :
    (lm : LinkMessage) (r : Ref) (w : World)
    → Quiet w (set_cell r (store_links (cell w r) lm.nlas) w)
store_links-Quiet lm r w =
    Alike-Quiet w (set_cell r (store_links (cell w r) lm.nlas) w) (store_links-Alike lm r w)

store_link_info-Quiet :
    (os : Sockets) (options : RoosterOptions) (lm : LinkMessage) (w : World)
    → IsFirstStart (new_link os lm) w
    → Quiet w (store_link_info os options lm w).0
unfolding store_link_info
store_link_info-Quiet os options lm w first =
    let (w0, r) = get_entry_by_ifindex lm.index w in
    let old = cell w0 r in
    let ifn = store_links old lm.nlas in
    let w1 = set_cell r ifn w0 in
    let stored =
      then-Quiet w w0 w1 (Alike-Quiet w w0 (get_entry-Alike lm.index w))
        (store_links-Quiet lm r w0) in
    let kept =
      get_or-set_same (λ c. c.acp_daemon) (empty_interface 0) w0.cells r r ifn
        (store_links-daemon old lm.nlas) in
    elim (rising (is_up old.oper_state) (is_up ifn.oper_state)) [
      | inr e ↦ rw e stored
      | inl (e, was, now) ↦
          let started = then-Quiet w w1 (start_roles os options lm.index r w1).0 stored (
            start_roles-Quiet os options lm.index r w1
              (kept ∙ get_entry-IsFirstStart os lm w first was now)) in
          rw e (
            if-Quiet ifn.ignored w (w1, done) (start_roles os options lm.index r w1) stored started)
    ]

-- What the message would make of the availability is what it was.
pub handle_message-Quiet :
    (options : RoosterOptions) (m : Message) (w : World)
    → IsFirstStart m w
    → Quiet w (handle_message options m w).0
unfolding handle_message
handle_message-Quiet options (new_link os lm) w first = store_link_info-Quiet os options lm w first
handle_message-Quiet options (new_address am) w first =
    Alike-Quiet w (store_addr_info am w) (store_addr_info-Alike am w)
handle_message-Quiet options ignored_message w first = same-Quiet w

-- If the flag is set or the proxies are up to date, and the message does not bring up a link again
-- that had a daemon, then the flag is set or the proxies are up to date after the message.
pub handle_message-Coherent :
    (values : Map → List Ref) (options : RoosterOptions) (m : Message) (w : World)
    → YieldsValues values
    → IsFirstStart m w
    → Coherent values w
    → Coherent values (handle_message options m w).0
handle_message-Coherent values options m w yields first h =
    Quiet-Coherent values w (handle_message options m w).0 yields
      (handle_message-Quiet options m w first) h

pub handle_message-Serves :
    (options : RoosterOptions) (m : Message) (w : World)
    → IsFirstStart m w
    → Serves w
    → Serves (handle_message options m w).0
handle_message-Serves options m w first (r, listed, offers) =
    let q = handle_message-Quiet options m w first in
    (r, q.kept r listed, (q.offers http r).1 offers)
