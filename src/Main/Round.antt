-- ===== src/Main/Round.antt =====
-- The announcements of a round of the main loop of src/main.rs.
use rooster.Base.{
  ℕ, suc, ◌≡◌, ◌≢◌, ◌⊎◌, inl, inr, refl, sym, ap, ◌∙◌, List, [], ◌∷◌, In, Option, none, some,
}
use rooster.Cbor.{Cbor}
use rooster.Interface.{Ref, Interface, ProxiesEnabled, World, Map}
use rooster.Interfaces.{cell}
use rooster.Interfaces.Registrars.{update_available_registrars}
use rooster.Join.{ErrorKind, IoResult, io_ok, io_err, io_panic, io_unwrap, Transmission, sending}
use rooster.Join.Sending.{Announces, announce_interface-cases}
use rooster.Main.{announce_all, main_round}

IoResult-cases : (x : IoResult) → (x ≡ io_ok) ⊎ ((x ≢ io_ok) × (io_unwrap x ≡ io_panic))
IoResult-cases io_ok = inl refl
IoResult-cases (io_err e) = inr (cc, refl)
IoResult-cases io_panic = inr (cc, refl)

module _ ⦃cbor : Cbor⦄ (serialize : cbor.CborType → List ℕ)
    (send_to : Transmission → Option ErrorKind) where
  -- The datagram is the announcement of one of the interfaces, by its own daemon.
  abbrev pub Announced : World → ProxiesEnabled → (ℕ → ℕ) → List Ref → Transmission → Type 0
  Announced w proxies id rs t =
      (r : Ref) × (n : ℕ) × In r rs × Announces serialize send_to w (cell w r) proxies (id n) t

  -- What the loop does at an interface.
  announce_all-cons :
      (w : World) (proxies : ProxiesEnabled) (id : ℕ → ℕ) (n : ℕ) (r : Ref) (rs : List Ref)
      → ((cell w r).join_daemon ≡ none)
          × (announce_all serialize send_to w proxies id n (r ∷ rs)
              ≡ announce_all serialize send_to w proxies id (suc n) rs)
        ⊎ ((j : Ref) × (t : Transmission) × ((cell w r).join_daemon ≡ some j)
            × Announces serialize send_to w (cell w r) proxies (id n) t
            × ((sending (send_to t) ≡ io_ok)
                  × (announce_all serialize send_to w proxies id n (r ∷ rs) ≡ (
                    t ∷ (announce_all serialize send_to w proxies id (suc n) rs).0,
                    (announce_all serialize send_to w proxies id (suc n) rs).1,
                  ))
                ⊎ ((sending (send_to t) ≢ io_ok)
                    × (announce_all serialize send_to w proxies id n (r ∷ rs)
                        ≡ (t ∷ [], io_panic)))))
  unfolding announce_all
  announce_all-cons w proxies id n r rs =
      elim (announce_interface-cases serialize send_to w (cell w r) proxies (id n)) [
        | inl (e, h) ↦ inl (e, simp (h, announce_all))
        | inr (j, t, e, sent, h) ↦ inr (
          j,
          t,
          e,
          sent,
          elim (IoResult-cases (sending (send_to t))) [
            | inl fine ↦ inl (fine, simp (h, fine, announce_all))
            | inr (broken, panics) ↦ inr (broken, simp (h, panics, announce_all))
          ],
        )
      ]

  -- Some datagram that was sent went out on the interface.
  abbrev pub Reached : Interface → List Transmission → Type 0
  Reached ifn ts = (t : Transmission) × In t ts × (t.scope ≡ ifn.ifindex)

  announce_all-sends :
      (w : World) (proxies : ProxiesEnabled) (id : ℕ → ℕ) (n : ℕ) (rs : List Ref)
      → ((t : Transmission) → sending (send_to t) ≡ io_ok)
      → ((announce_all serialize send_to w proxies id n rs).1 ≡ io_ok)
        × ((r : Ref)
            → In r rs
            → (cell w r).join_daemon ≢ none
            → Reached (cell w r) (announce_all serialize send_to w proxies id n rs).0)
  unfolding announce_all
  announce_all-sends w proxies id n [] works = (refl, λ r i. absurd i)
  announce_all-sends w proxies id n (r ∷ rs) works =
      let (ends, reached) = announce_all-sends w proxies id (suc n) rs works in
      elim (announce_all-cons w proxies id n r rs) [
        | inl (e, h) ↦ rw h (
          ends,
          λ s i d. elim i [
            | inl q ↦ absurd (d (ap (λ x. (cell w x).join_daemon) (sym q) ∙ e))
            | inr q ↦ reached s q d
          ],
        )
        | inr (j, t, e, sent, inl (fine, h)) ↦ rw h (
          ends,
          λ s i d. elim i [
            | inl q ↦
                (t, inl refl, ap (λ u. u.scope) sent.addressed ∙ ap (λ x. (cell w x).ifindex) q)
            | inr q ↦ let (u, m, scope) = reached s q d in (u, inr m, scope)
          ],
        )
        | inr (j, t, e, sent, inr (broken, h)) ↦ absurd (broken (works t))
      ]

  announce_all-fails :
      (w : World) (proxies : ProxiesEnabled) (id : ℕ → ℕ) (n : ℕ) (rs : List Ref) (r : Ref)
      → In r rs
      → (cell w r).join_daemon ≢ none
      → ((t : Transmission) → t.scope ≡ (cell w r).ifindex → sending (send_to t) ≢ io_ok)
      → (announce_all serialize send_to w proxies id n rs).1 ≡ io_panic
  announce_all-fails w proxies id n [] r i d fails = absurd i
  announce_all-fails w proxies id n (s ∷ rs) r i d fails =
      elim (announce_all-cons w proxies id n s rs) [
        | inl (e, h) ↦ rw h (elim i [
          | inl q ↦ absurd (d (ap (λ x. (cell w x).join_daemon) (sym q) ∙ e))
          | inr q ↦ announce_all-fails w proxies id (suc n) rs r q d fails
        ])
        | inr (j, t, e, sent, inl (fine, h)) ↦ rw h (elim i [
          | inl q ↦
              absurd
                (fails t (ap (λ u. u.scope) sent.addressed ∙ ap (λ x. (cell w x).ifindex) q) fine)
          | inr q ↦ announce_all-fails w proxies id (suc n) rs r q d fails
        ])
        | inr (j, t, e, sent, inr (broken, h)) ↦ rw h refl
      ]

  module _ (values : Map → List Ref) (id : ℕ → ℕ) (w : World) where
    -- If nothing fails to be sent but for want of the address, and there is a join interface with a
    -- daemon, the round ends well and reaches it.
    pub main_round-sends :
        ((t : Transmission) → sending (send_to t) ≡ io_ok)
        → (r : Ref) → In r (values w.all.joinlink_interfaces)
        → (cell w r).join_daemon ≢ none
        → ((main_round serialize send_to values id w).2 ≡ io_ok)
          × Reached (cell w r) (main_round serialize send_to values id w).1
    unfolding main_round update_available_registrars
    main_round-sends works r i d =
        let w' = update_available_registrars values w in
        let (ends, reached) =
          announce_all-sends w' w'.all.proxies id 0 (values w'.all.joinlink_interfaces) works in
        (ends, reached r i d)

    -- A join interface with a daemon, on which nothing can be sent for another reason than want of
    -- the address, makes the main loop panic.
    pub main_round-panics :
        (r : Ref)
        → In r (values w.all.joinlink_interfaces)
        → (cell w r).join_daemon ≢ none
        → ((t : Transmission) → t.scope ≡ (cell w r).ifindex → sending (send_to t) ≢ io_ok)
        → (main_round serialize send_to values id w).2 ≡ io_panic
    unfolding main_round update_available_registrars
    main_round-panics r i d fails =
        let w' = update_available_registrars values w in
        announce_all-fails w' w'.all.proxies id 0 (values w'.all.joinlink_interfaces) r i d fails

  module _ (values : Map → List Ref) (id : ℕ → ℕ) (w : World) where
    -- A round changes the world as the update of the proxies does.
    pub main_round-world :
        (main_round serialize send_to values id w).0 ≡ update_available_registrars values w
    unfolding main_round
    main_round-world = refl

    pub main_round-ends :
        ((t : Transmission) → sending (send_to t) ≡ io_ok)
        → (main_round serialize send_to values id w).2 ≡ io_ok
    unfolding main_round
    main_round-ends works =
        let w' = update_available_registrars values w in
        (announce_all-sends w' w'.all.proxies id 0 (values w'.all.joinlink_interfaces) works).0
