-- ===== src/Interfaces/Registrars/Alike.antt =====
-- Changes to the interfaces of src/interfaces.rs on which the announced proxies do not depend.
use rooster.Base.{
  ◌≡◌, inl, inr, refl, sym, ap, ◌∙◌, List, [], ◌∷◌, arith, Option-cases, get_or-append_same,
  get_or-set_same, get_or-set_same, get_or-append_same,
}
use rooster.Interface.{Ref, Interface, World, Map, empty_interface, IfIndex}
use rooster.Interfaces.{
  cell, lookup, get_entry_by_ifindex, store_address, store_addresses, store_addr_info,
}
use rooster.Netlink.{AddressMessage, AddressNla}
use rooster.Interfaces.Registrars.{proxies_of}
use rooster.Interfaces.Registrars.Coherence.{Coherent, calculate-cong}

store_addresses-daemon :
    (ifn : Interface) (nlas : List AddressNla)
    → (store_addresses ifn nlas).acp_daemon ≡ ifn.acp_daemon
unfolding store_addresses store_address
store_addresses-daemon ifn [] = refl
store_addresses-daemon ifn (AddressNla.address bytes ∷ nlas) =
    store_addresses-daemon (store_address ifn (AddressNla.address bytes)) nlas ∙ ground arith
store_addresses-daemon ifn (AddressNla.other ∷ nlas) = store_addresses-daemon ifn nlas

-- Two worlds that agree on all that availability and coherence depend on.
pub record Alike (w w' : World) : Type 0 where
  pub flag : w.all.invalidate_avail ≡ w'.all.invalidate_avail
  pub proxies : w.all.proxies ≡ w'.all.proxies
  pub maps : w.all.acp_interfaces ≡ w'.all.acp_interfaces
  pub tables : w.acps ≡ w'.acps
  pub daemons : (r : Ref) → (cell w r).acp_daemon ≡ (cell w' r).acp_daemon

Alike-Coherent :
    (values : Map → List Ref) (w w' : World) → Alike w w' → Coherent values w → Coherent values w'
Alike-Coherent values w w' same (inl set) = inl (sym same.flag ∙ set)
Alike-Coherent values w w' same (inr h) = inr (
    sym same.proxies
    ∙ h
    ∙ ap proxies_of (calculate-cong values w w' same.maps same.tables same.daemons))

pub get_entry-Alike : (k : IfIndex) (w : World) → Alike w (get_entry_by_ifindex k w).0
unfolding get_entry_by_ifindex
get_entry-Alike k w = elim (Option-cases (lookup k w.all.interfaces)) [
  | inl e ↦
      rw (e, get_entry_by_ifindex)
        (record {
          flag = refl;
          proxies = refl;
          maps = refl;
          tables = refl;
          daemons = λ r. sym (
              get_or-append_same (λ ifn. ifn.acp_daemon) (empty_interface 0) w.cells r
                (empty_interface k) refl);
        })
  | inr (s, e) ↦
      rw (e, get_entry_by_ifindex)
        (record { flag = refl; proxies = refl; maps = refl; tables = refl; daemons = λ r. refl })
]

pub store_addr_info-Alike : (am : AddressMessage) (w : World) → Alike w (store_addr_info am w)
unfolding store_addr_info
store_addr_info-Alike am w =
    let (w', r) = get_entry_by_ifindex am.index w in
    let alike = get_entry-Alike am.index w in
    record {
      flag = alike.flag;
      proxies = alike.proxies;
      maps = alike.maps;
      tables = alike.tables;
      daemons = λ s.
          alike.daemons s
          ∙ sym (
              get_or-set_same (λ ifn. ifn.acp_daemon) (empty_interface 0) w'.cells r s
                (store_addresses (cell w' r) am.nlas) (store_addresses-daemon (cell w' r) am.nlas));
    }

-- If the flag is set or the proxies are up to date, then so it is after any address message.
pub store_addr_info-Coherent :
    (values : Map → List Ref) (am : AddressMessage) (w : World)
    → Coherent values w
    → Coherent values (store_addr_info am w)
store_addr_info-Coherent values am w h =
    Alike-Coherent values w (store_addr_info am w) (store_addr_info-Alike am w) h
