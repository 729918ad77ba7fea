-- ===== src/Interfaces/Registrars/Tables.antt =====
-- What the handlers of netlink messages in src/interfaces.rs do to the tables of the daemons: they
-- add empty ones, and change none.
use rooster.Base.{
  Bool, true, false, not, ◌&&◌, ◌≡◌, refl, ◌∙◌, inl, inr, Option-cases, Bool-cases, if◌then◌else◌,
  get_or-append_same,
}
use rooster.Netlink.{LinkMessage, is_up}
use rooster.Args.{RoosterOptions, is_valid_acp_interface, is_valid_joinlink_interface}
use rooster.Acp.{empty_acp}
use rooster.Interface.{IfIndex, Ref, World}
use rooster.Interfaces.{
  lookup, cell, set_cell, get_entry_by_ifindex, store_links, store_addr_info, Sockets, Ending, done,
  panicked, start_acp, start_joinlink, open_acp, open_joinlink, start_roles, store_link_info,
  Message, new_link, new_address, ignored_message, handle_message,
}
use rooster.Interfaces.Registrars.{acp}

-- Every table is as it was, where one that there was not is empty; so are the flags and the proxies.
pub record Untouched (w w' : World) : Type 0 where
  pub tables : (a : Ref) → acp w' a ≡ acp w a
  pub exitnow : w'.all.exitnow ≡ w.all.exitnow
  pub flag : w'.all.invalidate_avail ≡ w.all.invalidate_avail
  pub proxies : w'.all.proxies ≡ w.all.proxies

pub same-Untouched : (w : World) → Untouched w w
same-Untouched w = record { tables = λ a. refl; exitnow = refl; flag = refl; proxies = refl }

then-Untouched : (u v w : World) → Untouched u v → Untouched v w → Untouched u w
then-Untouched u v w h k = record {
  tables = λ a. k.tables a ∙ h.tables a;
  exitnow = k.exitnow ∙ h.exitnow;
  flag = k.flag ∙ h.flag;
  proxies = k.proxies ∙ h.proxies;
}

get_entry-Untouched : (k : IfIndex) (w : World) → Untouched w (get_entry_by_ifindex k w).0
unfolding get_entry_by_ifindex
get_entry-Untouched k w = elim (Option-cases (lookup k w.all.interfaces)) [
  | inl e ↦
      rw (e, get_entry_by_ifindex)
        (record { tables = λ a. refl; exitnow = refl; flag = refl; proxies = refl })
  | inr (r, e) ↦ rw (e, get_entry_by_ifindex) (same-Untouched w)
]

open_acp-Untouched :
    (os : Sockets) (k : IfIndex) (r : Ref) (w : World) → Untouched w (open_acp os k r w).0
unfolding open_acp start_acp
open_acp-Untouched os k r w = elim (Bool-cases os.grasp_bound) [
  | inl e ↦
      rw (e, start_acp)
        (record {
          tables = λ a. get_or-append_same (λ x. x) empty_acp w.acps a empty_acp refl;
          exitnow = refl;
          flag = refl;
          proxies = refl;
        })
  | inr e ↦
      rw (e, start_acp) (record { tables = λ a. refl; exitnow = refl; flag = refl; proxies = refl })
]

open_joinlink-Untouched :
    (os : Sockets) (k : IfIndex) (r : Ref) (w : World) → Untouched w (open_joinlink os k r w).0
unfolding open_joinlink start_joinlink
open_joinlink-Untouched os k r w = elim (Option-cases os.https_local) [
  | inl e ↦
      rw (e, start_joinlink)
        (record { tables = λ a. refl; exitnow = refl; flag = refl; proxies = refl })
  | inr (l, e) ↦
      rw (e, start_joinlink)
        (record { tables = λ a. refl; exitnow = refl; flag = refl; proxies = refl })
]

if-Untouched :
    (b : Bool) (w : World) (x y : World × Ending)
    → Untouched w x.0
    → Untouched w y.0
    → Untouched w (if b then x else y).0
if-Untouched true w x y h k = h
if-Untouched false w x y h k = k

first_role-Untouched :
    (os : Sockets) (options : RoosterOptions) (k : IfIndex) (r : Ref) (w : World)
    → Untouched w
        (if is_valid_acp_interface options (cell w r).ifname
          then open_acp os k r w
          else (w, done)).0
first_role-Untouched os options k r w =
    if-Untouched (is_valid_acp_interface options (cell w r).ifname) w (open_acp os k r w) (w, done)
      (open_acp-Untouched os k r w) (same-Untouched w)

second_role-Untouched :
    (os : Sockets) (b : Bool) (k : IfIndex) (r : Ref) (w : World) (x : World × Ending)
    → Untouched w x.0
    → Untouched w
        (elim x.1 as (λ _. World × Ending) [
          | panicked ↦ (x.0, panicked)
          | done ↦ if b then open_joinlink os k r x.0 else (x.0, done)
        ]).0
second_role-Untouched os b k r w (v, panicked) h = h
second_role-Untouched os b k r w (v, done) h =
    if-Untouched b w (open_joinlink os k r v) (v, done)
      (then-Untouched w v (open_joinlink os k r v).0 h (open_joinlink-Untouched os k r v)) h

start_roles-Untouched :
    (os : Sockets) (options : RoosterOptions) (k : IfIndex) (r : Ref) (w : World)
    → Untouched w (start_roles os options k r w).0
unfolding start_roles
start_roles-Untouched os options k r w =
    second_role-Untouched os (is_valid_joinlink_interface options (cell w r).ifname) k r w
      (if is_valid_acp_interface options (cell w r).ifname then open_acp os k r w else (w, done))
      (first_role-Untouched os options k r w)

store_link_info-Untouched :
    (os : Sockets) (options : RoosterOptions) (lm : LinkMessage) (w : World)
    → Untouched w (store_link_info os options lm w).0
unfolding store_link_info
store_link_info-Untouched os options lm w =
    let (w0, r) = get_entry_by_ifindex lm.index w in
    let entry = get_entry-Untouched lm.index w in
    let ifn = store_links (cell w0 r) lm.nlas in
    let w1 = set_cell r ifn w0 in
    let stored : Untouched w w1 = record {
      tables = entry.tables;
      exitnow = entry.exitnow;
      flag = entry.flag;
      proxies = entry.proxies;
    } in
    if-Untouched (not (is_up (cell w0 r).oper_state) && is_up ifn.oper_state) w
      (if ifn.ignored then (w1, done) else start_roles os options lm.index r w1) (w1, done)
      (if-Untouched ifn.ignored w (w1, done) (start_roles os options lm.index r w1) stored
        (then-Untouched w w1 (start_roles os options lm.index r w1).0 stored
          (start_roles-Untouched os options lm.index r w1)))
      stored

-- No netlink message changes what a daemon has heard, the flags or the proxies.
pub handle_message-Untouched :
    (options : RoosterOptions) (m : Message) (w : World)
    → Untouched w (handle_message options m w).0
unfolding handle_message store_addr_info
handle_message-Untouched options (new_link os lm) w = store_link_info-Untouched os options lm w
handle_message-Untouched options (new_address am) w =
    let entry = get_entry-Untouched am.index w in
    record {
      tables = entry.tables;
      exitnow = entry.exitnow;
      flag = entry.flag;
      proxies = entry.proxies;
    }
handle_message-Untouched options ignored_message w = same-Untouched w
