-- ===== src/Interfaces/Registrars/Sources.antt =====
-- Where the registrar comes from that src/interfaces.rs picks for a pledge: from what the table of
-- some daemon was told.
use rooster.Base.{
  ℕ, true, ◌≡◌, refl, inl, inr, subst, List, [], ◌∷◌, Option, none, some, All, In, get_or-set-cases,
}
use rooster.Net.{Ipv6Addr, v6, SocketAddr}
use rooster.Grasp.{GraspObjective, GraspMessage}
use rooster.Acp.{
  RegistrarType, http_registrar, coap_registrar, stateless_coap_registrar, Registrar, Millis,
  empty_acp, hearing, heard, is_flood, announce,
}
use rooster.Acp.Sources.{Source, IsSourced, AreSourced, announce-AreSourced}
use rooster.Interface.{Ref, World, Map}
use rooster.Interfaces.{cell}
use rooster.Interfaces.Registrars.{
  acp, sockaddr_from_addr, pick_type, or_next, pick_registrar, pick_daemon, pick_among,
  pick_available_https_registrar, hear,
}

-- All that any table has comes from the source.
abbrev pub AllSourced : Source → World → Type 0
AllSourced P w = (a : Ref) → AreSourced P (acp w a)

-- The socket address is that of an HTTP registrar from the source.
abbrev pub IsSourcedAddr : Source → SocketAddr → Type 0
IsSourcedAddr P s =
    (b : Ipv6Addr) × (port : ℕ) × (s ≡ record { ip = v6 b; port = port })
    × P (http_registrar port) b

abbrev MayPick : Source → Option SocketAddr → Type 0
MayPick P none = Unit
MayPick P (some s) = IsSourcedAddr P s

or_next-MayPick :
    (P : Source) (x y : Option SocketAddr) → MayPick P x → MayPick P y → MayPick P (or_next x y)
or_next-MayPick P (some s) y h k = h
or_next-MayPick P none y h k = k

pick_type-MayPick :
    (P : Source) (b : Ipv6Addr) (rts : List RegistrarType)
    → All (λ rt. P rt b) rts
    → MayPick P (pick_type (v6 b) rts)
unfolding pick_type sockaddr_from_addr
pick_type-MayPick P b [] h = tt
pick_type-MayPick P b (http_registrar p ∷ rts) h = (b, p, refl, h.0)
pick_type-MayPick P b (coap_registrar p ∷ rts) h = pick_type-MayPick P b rts h.1
pick_type-MayPick P b (stateless_coap_registrar p ∷ rts) h = pick_type-MayPick P b rts h.1

pick_registrar-MayPick :
    (P : Source) (regs : List Registrar) → All (IsSourced P) regs → MayPick P (pick_registrar regs)
unfolding pick_registrar
pick_registrar-MayPick P [] h = tt
pick_registrar-MayPick P (r ∷ rs) ((b, e, all), h) =
    or_next-MayPick P (pick_type r.addr r.rtypes) (pick_registrar rs)
      (rw e (pick_type-MayPick P b r.rtypes all)) (pick_registrar-MayPick P rs h)

pick_daemon-MayPick :
    (P : Source) (w : World) (d : Option Ref) → AllSourced P w → MayPick P (pick_daemon w d)
unfolding pick_daemon
pick_daemon-MayPick P w none h = tt
pick_daemon-MayPick P w (some a) h = pick_registrar-MayPick P (acp w a).registrars (h a)

pick_among-MayPick :
    (P : Source) (w : World) (rs : List Ref) → AllSourced P w → MayPick P (pick_among w rs)
unfolding pick_among
pick_among-MayPick P w [] h = tt
pick_among-MayPick P w (r ∷ rs) h =
    or_next-MayPick P (pick_daemon w (cell w r).acp_daemon) (pick_among w rs)
      (pick_daemon-MayPick P w (cell w r).acp_daemon h) (pick_among-MayPick P w rs h)

-- The registrar that a pledge gets is one from the source.
pub pick_registrar-IsSourcedAddr :
    (P : Source) (values : Map → List Ref) (w : World) (s : SocketAddr)
    → AllSourced P w
    → pick_available_https_registrar values w ≡ some s
    → IsSourcedAddr P s
unfolding pick_available_https_registrar
pick_registrar-IsSourcedAddr P values w s h e =
    subst (MayPick P) e (pick_among-MayPick P w (values w.all.acp_interfaces) h)

-- If what a daemon hears comes from the source, all that any table has still does.
pub hear-AllSourced :
    (P : Source) (a : Ref) (clock : ℕ → Millis) (msg : GraspMessage) (w : World)
    → ((o : GraspObjective) (rt : RegistrarType) (b : Ipv6Addr)
        → is_flood msg.mtype ≡ true
        → In o msg.objectives
        → hearing o ≡ heard rt b
        → P rt b)
    → AllSourced P w
    → AllSourced P (hear a clock msg w)
unfolding hear
hear-AllSourced P a clock msg w f h b =
    let after = announce clock msg (acp w a, w.all.invalidate_avail) in
    elim (get_or-set-cases w.acps a b after.0 empty_acp) [
      | inl (i, e) ↦
          rw e (announce-AreSourced P clock msg (acp w a, w.all.invalidate_avail) f (h a))
      | inr e ↦ rw e (h b)
    ]
