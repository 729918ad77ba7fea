-- ===== src/System/Coherence.antt =====
-- What the main loop of src/main.rs announces, against what the daemons have heard.
use rooster.Base.{ℕ, inl, inr, refl, List, Option}
use rooster.Cbor.{Cbor}
use rooster.Args.{RoosterOptions}
use rooster.Interface.{Ref, Map}
use rooster.Interfaces.Registrars.{YieldsValues}
use rooster.Interfaces.Registrars.Coherence.{Coherent, hear-Coherent, update-Coherent}
use rooster.Interfaces.Registrars.Starts.Links.{IsFirstStart, handle_message-Coherent}
use rooster.Join.{ErrorKind, Transmission}
use rooster.Main.Round.{main_round-world}
use rooster.System.{Program, told_by, woken_by}
use rooster.System.Steps.{Reaches, started, told, read, woke, read_by-cases}

module _ ⦃cbor : Cbor⦄ (options : RoosterOptions) (cbor_decode : List ℕ → Option cbor.CborType)
    (serialize : cbor.CborType → List ℕ) (send_to : Transmission → Option ErrorKind)
    (values : Map → List Ref) where
  -- No message on the way brought up a link again that had a daemon.
  abbrev pub OnlyFirstStarts :
      (h : List (List ℕ)) (s : Program)
      → Reaches options cbor_decode serialize send_to values h s
      → Type 0
  OnlyFirstStarts _ _ started = Unit
  OnlyFirstStarts h _ (told {s = s} m r g l) = IsFirstStart m s.world × OnlyFirstStarts h s r
  OnlyFirstStarts _ _ (read {h} {s} a clock event r g l) = OnlyFirstStarts h s r
  OnlyFirstStarts h _ (woke {s = s} id r g) = OnlyFirstStarts h s r

  -- Whatever the main loop, the listener and the daemons have done, in whatever order, as long as no
  -- link that had a daemon came up again: the flag is set, or the proxies that the main loop
  -- announces are what a new look at the tables of the daemons would give.
  pub Reaches-Coherent :
      (h : List (List ℕ)) (s : Program)
      → YieldsValues values
      → (r : Reaches options cbor_decode serialize send_to values h s) → OnlyFirstStarts h s r
      → Coherent values s.world
  unfolding told_by woken_by
  Reaches-Coherent _ _ yields started f = inl refl
  Reaches-Coherent h _ yields (told {s = s} m r g l) (first, f) =
      handle_message-Coherent values options m s.world yields first
        (Reaches-Coherent h s yields r f)
  Reaches-Coherent _ _ yields (read {h} {s} a clock event r g l) f =
      elim (read_by-cases cbor_decode a clock event s) [
        | inl e ↦ rw e (Reaches-Coherent h s yields r f)
        | inr (octets, msg, arrives, reads, e) ↦
            rw e (hear-Coherent values a clock msg s.world (Reaches-Coherent h s yields r f))
      ]
  Reaches-Coherent h _ yields (woke {s = s} id r g) f =
      rw (main_round-world serialize send_to values id s.world)
        (inr (update-Coherent values s.world (Reaches-Coherent h s yields r f)).1)
