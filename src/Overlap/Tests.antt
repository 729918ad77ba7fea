-- ===== src/Overlap/Tests.antt =====
-- Examples for the update of the proxies and the daemons together: a flood arrives while the main loop
-- is in an update, and is announced after the next.
use rooster.Base.{
  true, false, ◌≡◌, ◌↔◌, refl, sym, ap, subst, [], ◌∷◌, some, zero, suc, arith, ◌<◌, length, ◌==◌,
  equality_nat,
}
use rooster.Grasp.Sample.{host, registrar, flood}
use rooster.Acp.{
  Available, none_available, http_registrar, hearing, heard, announced, announced_type, is_flood,
}
use rooster.Acp.Ports.{http}
use rooster.Acp.Sample.{clock}
use rooster.Args.Sample.{options}
use rooster.Cbor.Sample.{sample_cbor}
use rooster.Interface.{Ref, World, initial_world}
use rooster.Interfaces.{cell, handle_message}
use rooster.Interfaces.Sample.{values, values-YieldsValues, first_up, first_up-starts, fresh_world}
use rooster.Interfaces.Registrars.{InMap, or_available, interface_available}
use rooster.Interfaces.Registrars.Coherence.{Offers}
use rooster.Overlap.{
  outside, looks, listens, hears, has_added, Running, initial_running, goes_to, begins,
}
use rooster.Overlap.Steps.{
  set_flag, add_at, finish, told, finds_set, looks_at, finishes, receives, adds, sets_flag, ends,
  Runs, rests, then_step,
}
use rooster.Overlap.Coherence.{enabled, SomeIsBetween, Runs-announces}
use rooster.Overlap.Serial.{Handled}
use rooster.Overlap.Serial.Order.{Runs-Handled}

-- The link has come up.
abbrev up_world : World
up_world = (handle_message options first_up initial_world).0

abbrev risen : Running
risen = record initial_running { world = up_world }

up_starts : up_world ≡ fresh_world
up_starts = ap (λ x. x.0) first_up-starts

flag_set : up_world.all.invalidate_avail ≡ true
flag_set = ap (λ w. w.all.invalidate_avail) up_starts

one_interface : values up_world.all.acp_interfaces ≡ (0 ∷ [])
one_interface = ap (λ w. values w.all.acp_interfaces) up_starts

one_daemon : (cell up_world 0).acp_daemon ≡ some 0
one_daemon = ap (λ w. (cell w 0).acp_daemon) up_starts

one_table : 0 < length up_world.acps
one_table = subst (λ w. 0 < length w.acps) (sym up_starts) (omega arith)

hears_registrar : hearing registrar ≡ heard (http_registrar 8993) host
unfolding hearing announced announced_type
hears_registrar = refl

begins-flood : begins clock flood ≡ hears clock 180000 1 (registrar ∷ [])
unfolding is_flood
begins-flood = refl

-- The main loop is in an update, and has looked at the only table.
abbrev looking : Running
looking = record risen { main = looks none_available (values up_world.all.acp_interfaces) }

abbrev seen : Available
seen = or_available none_available (interface_available up_world (cell up_world 0))

abbrev looked : Running
looked = record looking { main = looks seen [] }

-- Then the daemon hears the flood, and adds its registrar before the update ends.
abbrev hearing_flood : Running
hearing_flood = record looked { daemons = goes_to 0 (begins clock flood) initial_running.daemons }

abbrev later_world : World
later_world = add_at 0 (http_registrar 8993) host 180000 1001 up_world

abbrev has_heard : Running
has_heard = record hearing_flood {
  world = later_world;
  daemons = goes_to 0 (has_added clock 180000 2 []) hearing_flood.daemons;
}

abbrev missed : Running
missed = record has_heard { world = finish seen later_world; main = outside }

abbrev noted : Running
noted = record missed {
  world = set_flag missed.world;
  daemons = goes_to 0 (hears clock 180000 2 []) missed.daemons;
}

abbrev quiet : Running
quiet = record noted { daemons = goes_to 0 listens noted.daemons }

abbrev looking_again : Running
looking_again = record quiet { main = looks none_available (values up_world.all.acp_interfaces) }

abbrev seen_again : Available
seen_again = or_available none_available (interface_available quiet.world (cell quiet.world 0))

abbrev looked_again : Running
looked_again = record looking_again { main = looks seen_again [] }

abbrev announcing : Running
announcing = record looked_again { world = finish seen_again quiet.world; main = outside }

-- However the link has come up, the update and the flood overlap like this.
abbrev overlap : (s : Running) → Runs options values s risen → Runs options values s announcing
overlap s r =
    let during =
      then_step
        (then_step (then_step r (finds_set risen refl flag_set))
          (looks_at looking none_available 0 [] (rw one_interface refl) (rw one_daemon refl)))
        (receives looked 0 clock flood one_table refl) in
    let after =
      then_step
        (then_step
          (then_step during (
            adds hearing_flood 0 clock 180000 1 registrar [] (http_registrar 8993) host begins-flood
              hears_registrar))
          (finishes has_heard seen refl))
        (sets_flag missed 0 clock 180000 2 [] refl refl) in
    then_step
      (then_step
        (then_step (then_step after (ends noted 0 clock 180000 2 refl)) (finds_set quiet refl refl))
        (looks_at looking_again none_available 0 [] (rw one_interface refl) (rw one_daemon refl)))
      (finishes looked_again seen_again refl)

abbrev run : Runs options values initial_running announcing
run = overlap initial_running (then_step rests (told initial_running first_up refl))

nobody_between : ¬ SomeIsBetween announcing
nobody_between (zero, i) = i
nobody_between (suc a, i) = let e : (suc a == 0) ≡ false = ground arith in rw e at i

Runs-announces_example :
    (enabled http announcing.world.all.proxies ≡ true)
    ↔ ((q : Ref) × InMap q announcing.world.all.acp_interfaces × Offers announcing.world http q)
Runs-announces_example =
    Runs-announces options values announcing http values-YieldsValues run ((λ r e was now. cc), tt)
      refl nobody_between refl

quiet_again : (a : Ref) → announcing.daemons a ≡ listens
quiet_again zero = refl
quiet_again (suc a) = let e : (suc a == 0) ≡ false = ground arith in rw e refl

Runs-Handled_example : Handled options values announcing.world
Runs-Handled_example =
    Runs-Handled options values announcing values-YieldsValues run ((λ r e was now. cc), tt)
      (refl, quiet_again)
