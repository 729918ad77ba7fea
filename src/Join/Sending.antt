-- ===== src/Join/Sending.antt =====
-- How the announcement of one interface in src/join_interface.rs ends.
use rooster.Base.{
  ℕ, ◌≡◌, ◌⊎◌, inl, inr, refl, ap, ◌∙◌, get_or, List, [], ◌∷◌, Option, none, some, Option-cases,
}
use rooster.Error.{ok}
use rooster.Cbor.{Cbor}
use rooster.Grasp.Encode.{encode_dull_grasp_message}
use rooster.Interface.{Ref, Interface, JoinInterface, ProxiesEnabled, World}
use rooster.Join.{
  ErrorKind, io_ok, io_unwrap, Transmission, sending, build_an_proxy, no_daemon, flood_of,
  registrar_all_announce, announce_interface,
}

module _ ⦃cbor : Cbor⦄ (serialize : cbor.CborType → List ℕ)
    (send_to : Transmission → Option ErrorKind) where
  -- The datagram `t` is the announcement of the interface by its own daemon.
  pub record Announces (w : World) (ifn : Interface) (proxies : ProxiesEnabled) (id : ℕ)
      (t : Transmission) : Type 0 where
    pub daemon : Ref
    pub is_own : ifn.join_daemon ≡ some daemon
    pub built :
        build_an_proxy serialize (get_or w.joins daemon no_daemon) ifn proxies id ≡ ok t.payload
    pub addressed : t ≡ flood_of serialize ifn t.payload

  registrar_all_announce-sends :
      (ji : JoinInterface) (ifn : Interface) (proxies : ProxiesEnabled) (id : ℕ)
      → (t : Transmission) × (build_an_proxy serialize ji ifn proxies id ≡ ok t.payload)
        × (t ≡ flood_of serialize ifn t.payload)
        × (registrar_all_announce serialize send_to ji ifn proxies id
            ≡ (t ∷ [], sending (send_to t)))
  unfolding registrar_all_announce build_an_proxy encode_dull_grasp_message
  registrar_all_announce-sends ji ifn proxies id = (flood_of serialize ifn _, refl, refl, refl)

  announce_interface-some :
      (w : World) (ifn : Interface) (proxies : ProxiesEnabled) (id : ℕ) {j : Ref}
      → ifn.join_daemon ≡ some j
      → announce_interface serialize send_to w ifn proxies id ≡ (
        (registrar_all_announce serialize send_to (get_or w.joins j no_daemon) ifn proxies id).0,
        io_unwrap
            (registrar_all_announce serialize send_to
              (get_or w.joins j no_daemon)
              ifn
              proxies
              id).1,
      )
  unfolding announce_interface
  announce_interface-some w ifn proxies id e = rw (e, announce_interface) refl

  -- Without a daemon nothing is sent, else one datagram is.
  pub announce_interface-cases :
      (w : World) (ifn : Interface) (proxies : ProxiesEnabled) (id : ℕ)
      → ((ifn.join_daemon ≡ none)
          × (announce_interface serialize send_to w ifn proxies id ≡ ([], io_ok)))
        ⊎ ((j : Ref) × (t : Transmission) × (ifn.join_daemon ≡ some j)
            × Announces w ifn proxies id t
            × (announce_interface serialize send_to w ifn proxies id
                ≡ (t ∷ [], io_unwrap (sending (send_to t)))))
  unfolding announce_interface
  announce_interface-cases w ifn proxies id = elim (Option-cases ifn.join_daemon) [
    | inl e ↦ inl (e, rw (e, announce_interface) refl)
    | inr (j, e) ↦
        let ji = get_or w.joins j no_daemon in
        let (t, built, addressed, same) = registrar_all_announce-sends ji ifn proxies id in
        inr (
          j,
          t,
          e,
          record { daemon = j; is_own = e; built = built; addressed = addressed },
          announce_interface-some w ifn proxies id e ∙ ap (λ s. (s.0, io_unwrap s.1)) same,
        )
  ]
