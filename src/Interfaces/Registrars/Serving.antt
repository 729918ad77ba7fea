-- ===== src/Interfaces/Registrars/Serving.antt =====
-- What it does for pledges that a daemon has heard a registrar, in src/interfaces.rs.
use rooster.Base.{
  ℕ, true, ◌≡◌, ◌≢◌, inl, inr, sym, ap, ◌∙◌, subst, List, Option, none, some, get_or-set_self,
  get_or-set-cases, if◌then◌else◌, Option-cases, ◌<◌, length, arith,
}
use rooster.Net.{Ipv6Addr}
use rooster.Grasp.{GraspMessage}
use rooster.Acp.{http_registrar, Millis, announce, empty_acp}
use rooster.Acp.Ports.{http, port_of}
use rooster.Acp.Availability.{calculate_available_iff}
use rooster.Acp.Announce.First.{IsHeard}
use rooster.Interface.{Ref, Map, World, ProxiesEnabled}
use rooster.Interfaces.{cell}
use rooster.Interfaces.Registrars.{
  acp, hear, InMap, YieldsValues, proxies_of, daemon_available, pick_available_https_registrar,
  calculate_available_registrars, update_available_registrars,
}
use rooster.Interfaces.Registrars.Choice.{pick_available_iff, AreTables}
use rooster.Interfaces.Registrars.Coherence.{Offers, calculate_available_registrars_iff}
use rooster.Acp.Announce.{announce-IsTable, announce_forgets_none}

-- After a daemon has heard a registrar, its interface offers one, and the flag is set.
pub hear-Offers :
    (a r : Ref) (clock : ℕ → Millis) (msg : GraspMessage) (w : World) (b : Ipv6Addr) (p : ℕ)
    → a < length w.acps
    → AreTables w
    → (cell w r).acp_daemon ≡ some a
    → IsHeard (http_registrar p) b (announce clock msg (acp w a, w.all.invalidate_avail))
    → Offers (hear a clock msg w) http r × ((hear a clock msg w).all.invalidate_avail ≡ true)
unfolding hear daemon_available
hear-Offers a r clock msg w b p fits tables daemon (flag, known) =
    let after = announce clock msg (acp w a, w.all.invalidate_avail) in
    let table = announce-IsTable clock msg (acp w a, w.all.invalidate_avail) (tables a) in
    let stored : acp (hear a clock msg w) a ≡ after.0 =
      get_or-set_self w.acps a after.0 empty_acp fits in
    let (there, back) = calculate_available_iff http after.0 table in
    elim (Option-cases (port_of http b after.0.registrars)) [
      | inl e ↦ absurd (known e)
      | inr (q, e) ↦ (rw (daemon, stored) (back (b, q, e)), flag)
    ]

-- A registrar on an interface of the ACP map is picked, and the main loop will announce the proxy.
pub serves :
    (values : Map → List Ref) (w : World) (r : Ref)
    → YieldsValues values
    → InMap r w.all.acp_interfaces
    → Offers w http r
    → w.all.invalidate_avail ≡ true
    → (pick_available_https_registrar values w ≢ none)
      × ((update_available_registrars values w).all.proxies.http_avail ≡ true)
unfolding update_available_registrars
serves values w r yields listed offers flag =
    let (there, back) = calculate_available_registrars_iff values w http yields in
    let found = back (r, listed, offers) in
    let computed : ProxiesEnabled = proxies_of (calculate_available_registrars values w) in
    (
      (pick_available_iff values w).1 found,
      ap (λ f. let p = (if f then computed else w.all.proxies) in p.http_avail) flag ∙ found,
    )

-- The daemon of an interface of the ACP map has an HTTP registrar.
abbrev pub Serves : World → Type 0
Serves w = (r : Ref) × InMap r w.all.acp_interfaces × Offers w http r

pub Serves-picks :
    (values : Map → List Ref) (w : World)
    → YieldsValues values
    → Serves w
    → pick_available_https_registrar values w ≢ none
Serves-picks values w yields found =
    (pick_available_iff values w).1
      ((calculate_available_registrars_iff values w http yields).1 found)

some-none : {o : Option ℕ} {p : ℕ} → o ≡ some p → o ≢ none
some-none e n = ground arith

hear-keeps :
    (a r : Ref) (clock : ℕ → Millis) (msg : GraspMessage) (w : World)
    → AreTables w
    → Offers w http r
    → Offers (hear a clock msg w) http r
unfolding hear daemon_available
hear-keeps a r clock msg w tables offers = elim (Option-cases (cell w r).acp_daemon) [
  | inl e ↦ rw e (rw e at offers)
  | inr (d, e) ↦
      let after = announce clock msg (acp w a, w.all.invalidate_avail) in
      elim (get_or-set-cases w.acps a d after.0 empty_acp) [
        | inr same ↦ rw (e, same) (rw e at offers)
        | inl (own, changed) ↦
            let table = announce-IsTable clock msg (acp w a, w.all.invalidate_avail) (tables a) in
            let before = calculate_available_iff http (acp w d) (tables d) in
            let later = calculate_available_iff http after.0 table in
            let (b, p, known) = before.0 (rw e at offers) in
            elim (Option-cases (port_of http b after.0.registrars)) [
              | inr (q, found) ↦ rw (e, changed) (later.1 (b, q, found))
              | inl gone ↦ absurd (
                  announce_forgets_none clock msg (acp w a, w.all.invalidate_avail) http b
                    (subst (λ x. port_of http b (acp w x).registrars ≢ none) (sym own)
                      (some-none known))
                    gone)
            ]
      ]
]

-- What a daemon hears does not take a registrar from a pledge.
pub hear-Serves :
    (a : Ref) (clock : ℕ → Millis) (msg : GraspMessage) (w : World)
    → AreTables w
    → Serves w
    → Serves (hear a clock msg w)
unfolding hear
hear-Serves a clock msg w tables (r, listed, offers) =
    (r, listed, hear-keeps a r clock msg w tables offers)

pub update-Serves :
    (values : Map → List Ref) (w : World) → Serves w → Serves (update_available_registrars values w)
unfolding update_available_registrars daemon_available
update-Serves values w (r, listed, offers) = (
  r,
  listed,
  elim (Option-cases (cell w r).acp_daemon) [
    | inl e ↦ rw e (rw e at offers)
    | inr (a, e) ↦ rw e (rw e at offers)
  ],
)
