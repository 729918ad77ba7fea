-- ===== src/Main.antt =====
-- src/main.rs: one round of the main loop, after the sleep: the proxies are brought up to date and
-- announced on every join interface. Random session ids, sockets and the order in which
-- `HashMap::values` yields the entries are parameters.
pub mod Round
pub mod Uplink
mod Tests
use rooster.Base.{ℕ, suc, Bool, true, false, ◌≡◌, List, [], ◌∷◌, ◌++◌, Option, none, some}
use rooster.Cbor.{Cbor}
use rooster.Interface.{Ref, ProxiesEnabled, World, Map}
use rooster.Interfaces.{cell}
use rooster.Interfaces.Registrars.{update_available_registrars}
use rooster.Join.{ErrorKind, IoResult, io_ok, io_err, io_panic, Transmission, announce_interface}

module _ ⦃cbor : Cbor⦄ where
  open cbor use {CborType}

  module _ (serialize : CborType → List ℕ) (send_to : Transmission → Option ErrorKind) where
    -- The loop over the join interfaces, which unwraps every result: the session ids are `id n`,
    -- `id (n + 1)` and so on.
    pub announce_all :
        World → ProxiesEnabled → (ℕ → ℕ) → ℕ → List Ref → List Transmission × IoResult
    announce_all w proxies id n [] = ([], io_ok)
    announce_all w proxies id n (r ∷ rs) =
        let (sent, result) = announce_interface serialize send_to w (cell w r) proxies (id n) in
        let (sent', result') = announce_all w proxies id (suc n) rs in
        elim result [
          | io_ok ↦ (sent ++ sent', result')
          | io_err _ ↦ (sent, io_panic)
          | io_panic ↦ (sent, io_panic)
        ]

    -- One round: the world after it, what was sent, and how the round ended. Whether the loop goes on
    -- is in `exitnow`.
    pub main_round : (Map → List Ref) → (ℕ → ℕ) → World → World × List Transmission × IoResult
    unfolding announce_all
    main_round values id w =
        let w' = update_available_registrars values w in
        let (sent, result) =
          announce_all w' w'.all.proxies id 0 (values w'.all.joinlink_interfaces) in
        (w', sent, result)
