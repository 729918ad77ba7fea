-- ===== src/System/Sources.antt =====
-- Where src/join_interface.rs sends the pledges, after whatever the tasks of the program have done.
use rooster.Base.{ℕ, true, ◌≡◌, ◌⊎◌, inl, inr, refl, sym, ◌∙◌, subst, List, Option, some, In}
use rooster.Net.{Ipv6Addr, v6, SocketAddr}
use rooster.Cbor.{Cbor}
use rooster.Grasp.{GraspMessage, GraspObjective, ipv6_locator}
use rooster.Args.{RoosterOptions}
use rooster.Acp.{RegistrarType, hearing, heard, is_flood}
use rooster.Acp.Objective.{hearing-http}
use rooster.Acp.Sources.{AreSourced, AreSourced-imp}
use rooster.Acp.Daemon.{Received, datagram, read_error}
use rooster.Acp.Daemon.Outcomes.{Reads}
use rooster.Interface.{Ref, Map}
use rooster.Interfaces.Registrars.{acp, update_available_registrars}
use rooster.Interfaces.Registrars.Tables.{handle_message-Untouched}
use rooster.Interfaces.Registrars.Sources.{
  AllSourced, hear-AllSourced, pick_registrar-IsSourcedAddr,
}
use rooster.Join.{ErrorKind, Transmission}
use rooster.Join.Pledge.{Connection, proxy_https, proxy_https-target}
use rooster.Main.Round.{main_round-world}
use rooster.System.{Program, told_by, read_by, woken_by}
use rooster.System.Steps.{arrived, Reaches, started, told, read, woke, read_by-cases}

module _ ⦃cbor : Cbor⦄ (options : RoosterOptions) (cbor_decode : List ℕ → Option cbor.CborType)
    (serialize : cbor.CborType → List ℕ) (send_to : Transmission → Option ErrorKind)
    (values : Map → List Ref) where
  -- One of the datagrams is a flood with an objective that says so.
  pub record IsFlooded (h : List (List ℕ)) (rt : RegistrarType) (b : Ipv6Addr) : Type 0 where
    pub octets : List ℕ
    pub msg : GraspMessage
    pub objective : GraspObjective
    pub arrived_before : In octets h
    pub reads : Reads cbor_decode octets msg
    pub floods : is_flood msg.mtype ≡ true
    pub listed : In objective msg.objectives
    pub says : hearing objective ≡ heard rt b

  later-IsFlooded :
      (h : List (List ℕ)) (event : Received) (rt : RegistrarType) (b : Ipv6Addr)
      → IsFlooded h rt b
      → IsFlooded (arrived event h) rt b
  later-IsFlooded h read_error rt b f = f
  later-IsFlooded h (datagram octets) rt b f = record {
    octets = f.octets;
    msg = f.msg;
    objective = f.objective;
    arrived_before = inr f.arrived_before;
    reads = f.reads;
    floods = f.floods;
    listed = f.listed;
    says = f.says;
  }

  read-AllSourced :
      (h : List (List ℕ)) (a : Ref) (clock : ℕ → ℕ) (event : Received) (s : Program)
      → AllSourced (IsFlooded h) s.world
      → AllSourced (IsFlooded (arrived event h)) (read_by cbor_decode a clock event s).world
  read-AllSourced h a clock event s sourced =
      let grown : AllSourced (IsFlooded (arrived event h)) s.world = λ c.
        AreSourced-imp (IsFlooded h) (IsFlooded (arrived event h)) (later-IsFlooded h event)
          (acp s.world c) (sourced c) in
      elim (read_by-cases cbor_decode a clock event s) [
        | inl e ↦ subst (AllSourced (IsFlooded (arrived event h))) (sym e) grown
        | inr (octets, msg, arrives, reads, e) ↦
            subst (AllSourced (IsFlooded (arrived event h))) (sym e) (
              hear-AllSourced (IsFlooded (arrived event h)) a clock msg s.world
                (λ o rt b floods listed says. record {
                  octets = octets;
                  msg = msg;
                  objective = o;
                  arrived_before = subst (λ v. In octets (arrived v h)) (sym arrives) (inl refl);
                  reads = reads;
                  floods = floods;
                  listed = listed;
                  says = says;
                })
                grown)
      ]

  pub Reaches-AllSourced :
      (h : List (List ℕ)) (s : Program)
      → Reaches options cbor_decode serialize send_to values h s
      → AllSourced (IsFlooded h) s.world
  unfolding told_by woken_by update_available_registrars
  Reaches-AllSourced _ _ started = λ a. tt
  Reaches-AllSourced h _ (told {s = s} m r g l) = λ a.
      subst (AreSourced (IsFlooded h)) (sym ((handle_message-Untouched options m s.world).tables a))
        (Reaches-AllSourced h s r a)
  Reaches-AllSourced _ _ (read {h} {s} a clock event r g l) =
      read-AllSourced h a clock event s (Reaches-AllSourced h s r)
  Reaches-AllSourced h _ (woke {s = s} id r g) =
      subst (AllSourced (IsFlooded h)) (sym (main_round-world serialize send_to values id s.world))
        (Reaches-AllSourced h s r)

  -- A datagram is read as a flood with an objective for an HTTP registrar at the socket address.
  pub record Offered (octets : List ℕ) (target : SocketAddr) : Type 0 where
    pub msg : GraspMessage
    pub objective : GraspObjective
    pub addr : Ipv6Addr
    pub port : ℕ
    pub proto : ℕ
    pub reads : Reads cbor_decode octets msg
    pub floods : is_flood msg.mtype ≡ true
    pub listed : In objective msg.objectives
    pub located : objective.locator ≡ some (ipv6_locator addr proto port)
    pub valued : (objective.objective_value ≡ some "") ⊎ (objective.objective_value ≡ some "BRSKI")
    pub same : target ≡ record { ip = v6 addr; port = port }

  -- Whatever the main loop, the listener and the daemons have done, in whatever order: a pledge is
  -- connected to no socket address but one that a datagram has offered which arrived at a daemon,
  -- as a flood with an objective whose value is empty or BRSKI and whose locator is that address.
  pub pledge-Offered :
      (connect : SocketAddr → Connection) (h : List (List ℕ)) (s : Program) (target : SocketAddr)
      → Reaches options cbor_decode serialize send_to values h s
      → (proxy_https values connect s.world).0 ≡ some target
      → (octets : List ℕ) × In octets h × Offered octets target
  pledge-Offered connect h s target r e =
      let picked = sym (proxy_https-target values connect s.world) ∙ e in
      let (b, port, same, f) =
        pick_registrar-IsSourcedAddr (IsFlooded h) values s.world target (Reaches-AllSourced h s r)
          picked in
      let ((proto, located), valued) = hearing-http f.objective port b f.says in
      (
        f.octets,
        f.arrived_before,
        record {
          msg = f.msg;
          objective = f.objective;
          addr = b;
          port = port;
          proto = proto;
          reads = f.reads;
          floods = f.floods;
          listed = f.listed;
          located = located;
          valued = valued;
          same = same;
        },
      )
