-- ===== src/System/Steps.antt =====
-- Which programs the tasks of src/main.rs, src/interfaces.rs and src/acp_interface.rs can reach.
use rooster.Base.{
  ℕ, true, ◌≡◌, ap, ◌∙◌, ◌⊎◌, inl, inr, ◌<◌, List, [], ◌∷◌, Option, length, set, set-get_or,
}
use rooster.Cbor.{Cbor}
use rooster.Grasp.{GraspMessage}
use rooster.Args.{RoosterOptions}
use rooster.Acp.{Millis, Heard, empty_acp}
use rooster.Acp.Daemon.{Received, datagram, read_error}
use rooster.Acp.Daemon.Outcomes.{Reads, daemon_step-cases}
use rooster.Interface.{Ref, Map}
use rooster.Interfaces.{Message}
use rooster.Interfaces.Registrars.{hear}
use rooster.Join.{ErrorKind, Transmission}
use rooster.System.{Program, initial_program, daemon_of, told_by, read_by, woken_by}

-- The datagrams that have arrived, with one more event.
abbrev pub arrived : Received → List (List ℕ) → List (List ℕ)
arrived (datagram octets) h = octets ∷ h
arrived read_error h = h

module _ ⦃cbor : Cbor⦄ (options : RoosterOptions) (cbor_decode : List ℕ → Option cbor.CborType)
    (serialize : cbor.CborType → List ℕ) (send_to : Transmission → Option ErrorKind)
    (values : Map → List Ref) where
  -- The program is reached after the datagrams, the last of them first, with whatever netlink
  -- messages and rounds of the main loop between.
  pub data Reaches : List (List ℕ) → Program → Type 0 where
    started : Reaches [] initial_program
    told :
        {h : List (List ℕ)} {s : Program} (m : Message)
        → Reaches h s
        → s.looping ≡ true
        → s.listening ≡ true
        → Reaches h (told_by options m s)
    read :
        {h : List (List ℕ)} {s : Program} (a : Ref) (clock : ℕ → Millis) (event : Received)
        → Reaches h s
        → s.looping ≡ true
        → a < length s.world.acps
        → Reaches (arrived event h) (read_by cbor_decode a clock event s)
    woke :
        {h : List (List ℕ)} {s : Program} (id : ℕ → ℕ)
        → Reaches h s
        → s.looping ≡ true
        → Reaches h (woken_by serialize send_to values id s)

module _ ⦃cbor : Cbor⦄ (cbor_decode : List ℕ → Option cbor.CborType) where
  -- An event at a daemon leaves the world as it is, unless it is a datagram that is read as a
  -- message, which the daemon hears.
  pub read_by-cases :
      (a : Ref) (clock : ℕ → Millis) (event : Received) (s : Program)
      → ((read_by cbor_decode a clock event s).world ≡ s.world)
        ⊎ ((octets : List ℕ) × (msg : GraspMessage) × (event ≡ datagram octets)
            × Reads cbor_decode octets msg
            × ((read_by cbor_decode a clock event s).world ≡ hear a clock msg s.world))
  unfolding read_by hear
  read_by-cases a clock event s =
      let w = s.world in
      let put = λ (t : Heard). record w {
        acps = set w.acps a t.0;
        all = record w.all { invalidate_avail = t.1 };
      } in
      elim (daemon_step-cases cbor_decode (daemon_of a s) clock event) [
        | inl e ↦ inl (ap put e ∙ ap (λ ts. record w { acps = ts }) (set-get_or w.acps a empty_acp))
        | inr (octets, msg, arrives, reads, e) ↦ inr (octets, msg, arrives, reads, ap put e)
      ]
