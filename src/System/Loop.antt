-- ===== src/System/Loop.antt =====
-- That the main loop of src/main.rs is not left.
use rooster.Base.{ℕ, true, false, ◌≡◌, inl, inr, refl, ap, ◌∙◌, List, Option}
use rooster.Cbor.{Cbor}
use rooster.Args.{RoosterOptions}
use rooster.Interface.{Ref, Map}
use rooster.Interfaces.Registrars.{hear, update_available_registrars}
use rooster.Interfaces.Registrars.Tables.{handle_message-Untouched}
use rooster.Join.{ErrorKind, Transmission, io_ok, sending}
use rooster.Main.Round.{main_round-world, main_round-ends}
use rooster.System.{Program, told_by, read_by, woken_by}
use rooster.System.Steps.{Reaches, started, told, read, woke, read_by-cases}

module _ ⦃cbor : Cbor⦄ (options : RoosterOptions) (cbor_decode : List ℕ → Option cbor.CborType)
    (serialize : cbor.CborType → List ℕ) (send_to : Transmission → Option ErrorKind)
    (values : Map → List Ref) where
  -- Nothing sets the flag that ends the main loop.
  Reaches-exitnow :
      (h : List (List ℕ)) (s : Program)
      → Reaches options cbor_decode serialize send_to values h s
      → s.world.all.exitnow ≡ false
  unfolding told_by woken_by hear update_available_registrars
  Reaches-exitnow _ _ started = refl
  Reaches-exitnow h _ (told {s = s} m r g l) =
      (handle_message-Untouched options m s.world).exitnow ∙ Reaches-exitnow h s r
  Reaches-exitnow _ _ (read {h} {s} a clock event r g l) =
      elim (read_by-cases cbor_decode a clock event s) [
        | inl e ↦ rw e (Reaches-exitnow h s r)
        | inr (octets, msg, arrives, reads, e) ↦ rw e (Reaches-exitnow h s r)
      ]
  Reaches-exitnow h _ (woke {s = s} id r g) =
      ap (λ w. w.all.exitnow) (main_round-world serialize send_to values id s.world)
      ∙ Reaches-exitnow h s r

  -- If nothing fails to be sent but for want of the address, then whatever the listener and the
  -- daemons have done, each handler at once and their panics included, the main loop has not been left:
  -- no round of it has panicked, and the flag that would end it is never set. That a round gets the
  -- locks that it waits for is not said.
  pub Reaches-looping :
      (h : List (List ℕ)) (s : Program)
      → ((t : Transmission) → sending (send_to t) ≡ io_ok)
      → Reaches options cbor_decode serialize send_to values h s
      → (s.looping ≡ true) × (s.world.all.exitnow ≡ false)
  unfolding told_by read_by woken_by
  Reaches-looping _ _ works started = (refl, refl)
  Reaches-looping h _ works (told {s = s} m r g l) =
      (g, Reaches-exitnow h (told_by options m s) (told m r g l))
  Reaches-looping _ _ works (read {h} {s} a clock event r g l) =
      (g, Reaches-exitnow _ (read_by cbor_decode a clock event s) (read a clock event r g l))
  Reaches-looping h _ works (woke {s = s} id r g) =
      let clear = Reaches-exitnow h (woken_by serialize send_to values id s) (woke id r g) in
      (rw (main_round-ends serialize send_to values id s.world works, clear) refl, clear)
