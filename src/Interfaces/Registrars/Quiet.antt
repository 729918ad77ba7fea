-- ===== src/Interfaces/Registrars/Quiet.antt =====
-- Changes to the world of src/interfaces.rs after which a new computation of the proxies would find
-- what it found before.
use rooster.Base.{
  true, ◌≡◌, ◌↔◌, inl, inr, refl, sym, ap, ◌∙◌, subst, List, Option-cases, get_or, arith,
}
use rooster.Acp.{Available, empty_acp}
use rooster.Acp.Ports.{Kind, http, coap, stateless}
use rooster.Acp.Availability.{available}
use rooster.Interface.{Ref, World, Map}
use rooster.Interfaces.{cell}
use rooster.Interfaces.Registrars.{
  acp, daemon_available, InMap, YieldsValues, proxies_of, calculate_available_registrars,
}
use rooster.Interfaces.Registrars.Coherence.{Coherent, Offers, calculate_available_registrars_iff}
use rooster.Interfaces.Registrars.Alike.{Alike}

-- All that a new computation of the proxies would find is as it was.
pub record Quiet (w w' : World) : Type 0 where
  pub flag : w'.all.invalidate_avail ≡ w.all.invalidate_avail
  pub proxies : w'.all.proxies ≡ w.all.proxies
  pub offers : (k : Kind) (r : Ref) → Offers w' k r ↔ Offers w k r
  pub kept : (r : Ref) → InMap r w.all.acp_interfaces → InMap r w'.all.acp_interfaces
  pub silent :
      (k : Kind) (r : Ref)
      → InMap r w'.all.acp_interfaces
      → Offers w' k r
      → InMap r w.all.acp_interfaces

pub then-Quiet : (u v w : World) → Quiet u v → Quiet v w → Quiet u w
then-Quiet u v w h k = record {
  flag = k.flag ∙ h.flag;
  proxies = k.proxies ∙ h.proxies;
  offers = λ j r.
      ((λ o. (h.offers j r).0 ((k.offers j r).0 o)), (λ o. (k.offers j r).1 ((h.offers j r).1 o)));
  kept = λ r i. k.kept r (h.kept r i);
  silent = λ j r i o. h.silent j r (k.silent j r i o) ((k.offers j r).0 o);
}

pub Offers-cong :
    (w w' : World) (k : Kind) (r : Ref)
    → (cell w r).acp_daemon ≡ (cell w' r).acp_daemon
    → ((a : Ref) → acp w a ≡ acp w' a)
    → Offers w k r
    → Offers w' k r
unfolding daemon_available
Offers-cong w w' k r same tables o = elim (Option-cases (cell w r).acp_daemon) [
  | inl e ↦ rw (sym same ∙ e) (rw e at o)
  | inr (a, e) ↦ rw (sym same ∙ e, sym (tables a)) (rw e at o)
]

pub Alike-Quiet : (w w' : World) → Alike w w' → Quiet w w'
Alike-Quiet w w' same =
    let tables = λ (a : Ref). ap (λ ts. get_or ts a empty_acp) same.tables in
    record {
      flag = sym same.flag;
      proxies = sym same.proxies;
      offers = λ k r. (
        Offers-cong w' w k r (sym (same.daemons r)) (λ a. sym (tables a)),
        Offers-cong w w' k r (same.daemons r) tables,
      );
      kept = λ r i. subst (InMap r) same.maps i;
      silent = λ k r i o. subst (InMap r) (sym same.maps) i;
    }

Available-ext : (x y : Available) → ((k : Kind) → available k x ≡ available k y) → x ≡ y
Available-ext x y h = λ i. record {
  http_avail = h http i;
  stateful_avail = h coap i;
  stateless_avail = h stateless i;
}

Quiet-calculate :
    (values : Map → List Ref) (w w' : World)
    → YieldsValues values
    → Quiet w w'
    → calculate_available_registrars values w' ≡ calculate_available_registrars values w
Quiet-calculate values w w' yields q =
    Available-ext (calculate_available_registrars values w')
      (calculate_available_registrars values w)
      (λ k.
        let (there, back) = calculate_available_registrars_iff values w k yields in
        let (there', back') = calculate_available_registrars_iff values w' k yields in
        let up = λ (e : available k (calculate_available_registrars values w') ≡ true).
          let (r, i, o) = there' e in back (r, q.silent k r i o, (q.offers k r).0 o) in
        let down = λ (e : available k (calculate_available_registrars values w) ≡ true).
          let (r, i, o) = there e in back' (r, q.kept r i, (q.offers k r).1 o) in
        ground (arith, up, down))

pub Quiet-Coherent :
    (values : Map → List Ref) (w w' : World)
    → YieldsValues values
    → Quiet w w'
    → Coherent values w
    → Coherent values w'
Quiet-Coherent values w w' yields q (inl set) = inl (q.flag ∙ set)
Quiet-Coherent values w w' yields q (inr h) =
    inr (q.proxies ∙ h ∙ ap proxies_of (sym (Quiet-calculate values w w' yields q)))

pub same-Quiet : (w : World) → Quiet w w
same-Quiet w = record {
  flag = refl;
  proxies = refl;
  offers = λ k r. ((λ o. o), (λ o. o));
  kept = λ r i. i;
  silent = λ k r i o. i;
}
