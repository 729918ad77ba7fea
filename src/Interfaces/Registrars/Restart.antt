-- ===== src/Interfaces/Registrars/Restart.antt =====
-- What src/interfaces.rs makes of an ACP interface that goes down and comes up again.
use rooster.Base.{
  ◌<◌, Bool, true, false, ◌≡◌, refl, sym, ap, ◌∙◌, inl, inr, some, if◌then◌else◌, length, get_or,
  get_or-last, length-set, subst, get_or-set_self, get_or-set_same, Option-cases, arith,
}
use rooster.Netlink.{LinkMessage, is_up}
use rooster.Args.{RoosterOptions, is_valid_acp_interface, is_valid_joinlink_interface}
use rooster.Acp.{empty_acp, none_available, calculate_available_registrar}
use rooster.Acp.Availability.{calculate-empty}
use rooster.Interface.{IfIndex, Ref, World, empty_interface}
use rooster.Interfaces.{
  lookup, or_insert, cell, set_cell, get_entry_by_ifindex, store_links, Sockets, done, start_acp,
  start_joinlink, open_acp, open_joinlink, start_roles, store_link_info,
}
use rooster.Interfaces.Invariant.{WellFormed, lookup-Leads}
use rooster.Interfaces.Registrars.{acp, daemon_available, interface_available}
use rooster.Interfaces.Registrars.Alike.{Alike}

pub open_joinlink-Alike :
    (os : Sockets) (k : IfIndex) (r : Ref) (w : World) → Alike w (open_joinlink os k r w).0
unfolding open_joinlink start_joinlink
open_joinlink-Alike os k r w = elim (Option-cases os.https_local) [
  | inl e ↦
      rw (e, start_joinlink)
        (record { flag = refl; proxies = refl; maps = refl; tables = refl; daemons = λ s. refl })
  | inr (l, e) ↦
      rw (e, start_joinlink)
        (record {
          flag = refl;
          proxies = refl;
          maps = refl;
          tables = refl;
          daemons = λ s. sym (
              get_or-set_same (λ c. c.acp_daemon) (empty_interface 0) w.cells r s
                (record (cell w r) { join_daemon = some (length w.joins) }) refl);
        })
]

-- The interface has a daemon, whose table is empty; the flag and the proxies are as they were.
pub record Forgot (r : Ref) (w w' : World) : Type 0 where
  pub daemon : Ref
  pub has_daemon : (cell w' r).acp_daemon ≡ some daemon
  forgot : acp w' daemon ≡ empty_acp
  flag : w'.all.invalidate_avail ≡ w.all.invalidate_avail
  proxies : w'.all.proxies ≡ w.all.proxies

start_acp-Forgot :
    (os : Sockets) (r : Ref) (w : World)
    → os.grasp_bound ≡ true
    → r < length w.cells
    → ((start_acp os r w).1 ≡ done) × Forgot r w (start_acp os r w).0
unfolding start_acp
start_acp-Forgot os r w e fits = rw e (
  refl,
  record {
    daemon = length w.acps;
    has_daemon = ap (λ c. c.acp_daemon) (get_or-set_self w.cells r _ (empty_interface 0) fits);
    forgot = get_or-last w.acps empty_acp empty_acp;
    flag = refl;
    proxies = refl;
  },
)

Alike-Forgot : (r : Ref) (w v v' : World) → Alike v v' → Forgot r w v → Forgot r w v'
Alike-Forgot r w v v' same f = record {
  daemon = f.daemon;
  has_daemon = sym (same.daemons r) ∙ f.has_daemon;
  forgot = ap (λ ts. get_or ts f.daemon empty_acp) (sym same.tables) ∙ f.forgot;
  flag = sym same.flag ∙ f.flag;
  proxies = sym same.proxies ∙ f.proxies;
}

Forgot-available :
    (r : Ref) (w w' : World) → Forgot r w w' → interface_available w' (cell w' r) ≡ none_available
unfolding daemon_available
Forgot-available r w w' f =
    ap (daemon_available w') f.has_daemon
    ∙ ap calculate_available_registrar f.forgot
    ∙ calculate-empty

pub open_acp-Forgot :
    (os : Sockets) (k : IfIndex) (r : Ref) (w : World)
    → os.grasp_bound ≡ true
    → r < length w.cells
    → ((open_acp os k r w).1 ≡ done) × Forgot r w (open_acp os k r w).0
unfolding open_acp
open_acp-Forgot os k r w bound fits =
    let listed = record w {
      all = record w.all { acp_interfaces = or_insert k r w.all.acp_interfaces };
    } in
    let (ends, f) = start_acp-Forgot os r listed bound fits in
    (
      ends,
      record {
        daemon = f.daemon;
        has_daemon = f.has_daemon;
        forgot = f.forgot;
        flag = f.flag;
        proxies = f.proxies;
      },
    )

second_role-Forgot :
    (os : Sockets) (k : IfIndex) (r : Ref) (w v : World) (b : Bool)
    → Forgot r w v
    → Forgot r w (if b then open_joinlink os k r v else (v, done)).0
second_role-Forgot os k r w v true f =
    Alike-Forgot r w v (open_joinlink os k r v).0 (open_joinlink-Alike os k r v) f
second_role-Forgot os k r w v false f = f

pub start_roles-acp :
    (os : Sockets) (options : RoosterOptions) (k : IfIndex) (r : Ref) (w : World)
    → is_valid_acp_interface options (cell w r).ifname ≡ true
    → (open_acp os k r w).1 ≡ done
    → start_roles os options k r w ≡ (
        if is_valid_joinlink_interface options (cell w r).ifname
        then open_joinlink os k r (open_acp os k r w).0
        else ((open_acp os k r w).0, done))
unfolding start_roles
start_roles-acp os options k r w valid ends = simp (start_roles, valid, ends)

start_roles-Forgot :
    (os : Sockets) (options : RoosterOptions) (k : IfIndex) (r : Ref) (w : World)
    → os.grasp_bound ≡ true
    → r < length w.cells
    → is_valid_acp_interface options (cell w r).ifname ≡ true
    → Forgot r w (start_roles os options k r w).0
start_roles-Forgot os options k r w bound fits valid =
    let (ends, f) = open_acp-Forgot os k r w bound fits in
    let joins = is_valid_joinlink_interface options (cell w r).ifname in
    subst (λ x. Forgot r w x.0) (sym (start_roles-acp os options k r w valid ends))
      (second_role-Forgot os k r w (open_acp os k r w).0 joins f)

pub store_link_info-rises :
    (os : Sockets) (options : RoosterOptions) (lm : LinkMessage) (w : World) {r : Ref}
    → lookup lm.index w.all.interfaces ≡ some r
    → is_up (cell w r).oper_state ≡ false
    → is_up (store_links (cell w r) lm.nlas).oper_state ≡ true
    → (store_links (cell w r) lm.nlas).ignored ≡ false
    → store_link_info os options lm w
      ≡ start_roles os options lm.index r (set_cell r (store_links (cell w r) lm.nlas) w)
unfolding store_link_info get_entry_by_ifindex
store_link_info-rises os options lm w found down up used =
    simp (store_link_info, get_entry_by_ifindex, found, down, up, used)

-- When a link of the ACP that is not ignored comes up again, and its socket is opened, it gets a
-- new and empty table: the registrars that were known on it are forgotten, and neither the flag nor
-- the announced proxies show it.
pub restart-forgets :
    (os : Sockets) (options : RoosterOptions) (lm : LinkMessage) (w : World) {r : Ref}
    → WellFormed w
    → lookup lm.index w.all.interfaces ≡ some r
    → is_up (cell w r).oper_state ≡ false
    → is_up (store_links (cell w r) lm.nlas).oper_state ≡ true
    → (store_links (cell w r) lm.nlas).ignored ≡ false
    → is_valid_acp_interface options (store_links (cell w r) lm.nlas).ifname ≡ true
    → os.grasp_bound ≡ true
    → (interface_available
          (store_link_info os options lm w).0
          (cell (store_link_info os options lm w).0 r)
        ≡ none_available)
      × ((store_link_info os options lm w).0.all.invalidate_avail ≡ w.all.invalidate_avail)
      × ((store_link_info os options lm w).0.all.proxies ≡ w.all.proxies)
restart-forgets os options lm w {r} h found down up used valid bound =
    let ifn = store_links (cell w r) lm.nlas in
    let w1 = set_cell r ifn w in
    let fits = (lookup-Leads w lm.index r w.all.interfaces h.interfaces_lead found).0 in
    let stored : cell w1 r ≡ ifn = get_or-set_self w.cells r ifn (empty_interface 0) fits in
    let f =
      start_roles-Forgot os options lm.index r w1 bound (omega (arith, length-set w.cells r ifn))
        (ap (λ c. is_valid_acp_interface options c.ifname) stored ∙ valid) in
    rw (store_link_info-rises os options lm w found down up used)
      (Forgot-available r w1 (start_roles os options lm.index r w1).0 f, f.flag, f.proxies)
