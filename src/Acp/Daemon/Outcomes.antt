-- ===== src/Acp/Daemon/Outcomes.antt =====
-- What one event may do to the table and the flag that a daemon of src/acp_interface.rs holds.
use rooster.Base.{
  ℕ, true, ◌≡◌, ap, ◌∙◌, ◌⊎◌, inl, inr, refl, List, Option, some, arith, Bool-cases, Option-cases,
}
use rooster.Error.{Outcome, ok, err, panic}
use rooster.Cbor.{Cbor}
use rooster.Grasp.{GraspMessage}
use rooster.Grasp.Decode.{decode_grasp_message}
use rooster.Acp.{Millis, announce}
use rooster.Acp.Daemon.{
  buffer, Received, datagram, read_error, Daemon, handle_message, daemon_round, daemon_step,
  daemon_step-datagram,
}

module _ ⦃cbor : Cbor⦄ (cbor_decode : List ℕ → Option cbor.CborType) where
  -- The octets are read as the message.
  pub record Reads (octets : List ℕ) (msg : GraspMessage) : Type 0 where
    pub thing : cbor.CborType
    pub is_cbor : cbor_decode (buffer octets) ≡ some thing
    pub is_grasp : decode_grasp_message thing ≡ ok msg

  handle_message-cases :
      (clock : ℕ → Millis) (r : Outcome GraspMessage) (d : Daemon)
      → ((handle_message clock r d).heard ≡ d.heard)
        ⊎ ((msg : GraspMessage) × (r ≡ ok msg)
            × ((handle_message clock r d).heard ≡ announce clock msg d.heard))
  unfolding handle_message
  handle_message-cases clock (ok msg) d = inr (msg, refl, refl)
  handle_message-cases clock (err _) d = inl refl
  handle_message-cases clock panic d = inl refl

  -- An event leaves the table and the flag as they are, unless it is a datagram that is read as a
  -- message, which is announced.
  pub daemon_step-cases :
      (d : Daemon) (clock : ℕ → Millis) (event : Received)
      → ((daemon_step cbor_decode d (clock, event)).heard ≡ d.heard)
        ⊎ ((octets : List ℕ) × (msg : GraspMessage) × (event ≡ datagram octets)
            × Reads octets msg
            × ((daemon_step cbor_decode d (clock, event)).heard ≡ announce clock msg d.heard))
  unfolding daemon_step daemon_round
  daemon_step-cases d clock read_error = inl (ground arith)
  daemon_step-cases d clock (datagram octets) = elim (Bool-cases d.running) [
    | inr e ↦ inl (rw e refl)
    | inl e ↦ elim (Option-cases (cbor_decode (buffer octets))) [
      | inl n ↦ inl (ground arith)
      | inr (thing, s) ↦ elim (handle_message-cases clock (decode_grasp_message thing) d) [
        | inl h ↦ inl (rw (e, s, daemon_round) h)
        | inr (msg, r, h) ↦ inr (
          octets,
          msg,
          refl,
          record { thing = thing; is_cbor = s; is_grasp = r },
          rw (e, s, daemon_round) h,
        )
      ]
    ]
  ]

  -- A datagram that is read as a message by a task that runs is announced.
  pub daemon_step-Reads :
      (d : Daemon) (clock : ℕ → Millis) (octets : List ℕ) (msg : GraspMessage)
      → d.running ≡ true
      → Reads octets msg
      → (daemon_step cbor_decode d (clock, datagram octets)).heard ≡ announce clock msg d.heard
  unfolding handle_message
  daemon_step-Reads d clock octets msg runs reads =
      ap (λ t. t.heard)
        (daemon_step-datagram cbor_decode d clock octets runs reads.is_cbor
          ∙ ap (λ t. handle_message clock t d) reads.is_grasp)
