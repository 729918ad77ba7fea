-- ===== src/System/Invariant.antt =====
-- What holds of the tables of src/interfaces.rs and src/acp_interface.rs after whatever the tasks of
-- the program have done.
use rooster.Base.{ℕ, inl, inr, sym, subst, List, Option, length-set, get_or-set-cases}
use rooster.Cbor.{Cbor}
use rooster.Grasp.{GraspMessage}
use rooster.Args.{RoosterOptions}
use rooster.Acp.{Millis, announce, empty_acp}
use rooster.Acp.Table.{IsTable, empty-IsTable}
use rooster.Acp.Announce.{announce-IsTable}
use rooster.Interface.{Ref, Map, World}
use rooster.Interfaces.Invariant.{WellFormed, initial-WellFormed}
use rooster.Interfaces.Invariant.Messages.{handle_message-WellFormed}
use rooster.Interfaces.Registrars.{acp, hear, update_available_registrars}
use rooster.Interfaces.Registrars.Choice.{AreTables}
use rooster.Interfaces.Registrars.Tables.{handle_message-Untouched}
use rooster.Join.{ErrorKind, Transmission}
use rooster.Main.Round.{main_round-world}
use rooster.System.{Program, told_by, woken_by}
use rooster.System.Steps.{Reaches, started, told, read, woke, read_by-cases}

pub hear-WellFormed :
    (a : Ref) (clock : ℕ → Millis) (msg : GraspMessage) (w : World)
    → WellFormed w
    → WellFormed (hear a clock msg w)
unfolding hear
hear-WellFormed a clock msg w h =
    let same = length-set w.acps a (announce clock msg (acp w a, w.all.invalidate_avail)).0 in
    record {
      interfaces_lead = h.interfaces_lead;
      acp_aliases = h.acp_aliases;
      joinlink_aliases = h.joinlink_aliases;
      acp_daemons_fit = λ r b e. rw same (h.acp_daemons_fit r b e);
      join_daemons_fit = h.join_daemons_fit;
    }

hear-AreTables :
    (a : Ref) (clock : ℕ → Millis) (msg : GraspMessage) (w : World)
    → AreTables w
    → AreTables (hear a clock msg w)
unfolding hear
hear-AreTables a clock msg w h b =
    let after = announce clock msg (acp w a, w.all.invalidate_avail) in
    elim (get_or-set-cases w.acps a b after.0 empty_acp) [
      | inl (i, e) ↦ rw e (announce-IsTable clock msg (acp w a, w.all.invalidate_avail) (h a))
      | inr e ↦ rw e (h b)
    ]

pub update-WellFormed :
    (values : Map → List Ref) (w : World)
    → WellFormed w
    → WellFormed (update_available_registrars values w)
unfolding update_available_registrars
update-WellFormed values w h = record {
  interfaces_lead = h.interfaces_lead;
  acp_aliases = h.acp_aliases;
  joinlink_aliases = h.joinlink_aliases;
  acp_daemons_fit = h.acp_daemons_fit;
  join_daemons_fit = h.join_daemons_fit;
}

module _ ⦃cbor : Cbor⦄ (options : RoosterOptions) (cbor_decode : List ℕ → Option cbor.CborType)
    (serialize : cbor.CborType → List ℕ) (send_to : Transmission → Option ErrorKind)
    (values : Map → List Ref) where
  -- Whatever the main loop, the listener and the daemons have done, in whatever order, a panic of
  -- one of them included: the tables of interfaces are well formed, and so is every daemon's table.
  pub Reaches-WellFormed :
      (h : List (List ℕ)) (s : Program)
      → Reaches options cbor_decode serialize send_to values h s
      → WellFormed s.world × AreTables s.world
  unfolding told_by woken_by update_available_registrars
  Reaches-WellFormed _ _ started = (initial-WellFormed, λ a. empty-IsTable)
  Reaches-WellFormed h _ (told {s = s} m r g l) =
      let (fits, tables) = Reaches-WellFormed h s r in
      (
        handle_message-WellFormed options m s.world fits,
        λ a. subst IsTable (sym ((handle_message-Untouched options m s.world).tables a)) (tables a),
      )
  Reaches-WellFormed _ _ (read {h} {s} a clock event r g l) =
      let (fits, tables) = Reaches-WellFormed h s r in
      elim (read_by-cases cbor_decode a clock event s) [
        | inl e ↦ rw e (fits, tables)
        | inr (octets, msg, arrives, reads, e) ↦
            rw e
              (hear-WellFormed a clock msg s.world fits, hear-AreTables a clock msg s.world tables)
      ]
  Reaches-WellFormed h _ (woke {s = s} id r g) =
      let (fits, tables) = Reaches-WellFormed h s r in
      rw (main_round-world serialize send_to values id s.world)
        (update-WellFormed values s.world fits, tables)
