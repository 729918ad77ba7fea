-- ===== src/Acp/Daemon.antt =====
-- The receive loop of `AcpInterface::start_daemon` in src/acp_interface.rs. The CBOR crate's decoder
-- is a parameter; what the socket delivers is a list of events.
pub mod Outcomes
pub mod Sample
use rooster.Base.{
  ℕ, ◌+◌, ◌%◌, ◌^◌, Bool, true, false, ◌≡◌, refl, ap, ◌∙◌, List, [], ◌∷◌, ◌++◌, Option, none, some,
  if◌then◌else◌, take, replicate, arith, Bool-cases, inl, inr, Option-cases,
}
use rooster.Error.{Outcome, ok, err, panic}
use rooster.Cbor.{Cbor, array, integer}
use rooster.Grasp.{GraspMessage}
use rooster.Grasp.Encode.{encode_dull_grasp_message}
use rooster.Grasp.Decode.{decode_grasp_message}
use rooster.Grasp.Decode.Wire.{IsWireFlood}
use rooster.Grasp.Decode.RoundTrip.{decode-encode}
use rooster.Grasp.Decode.Faults.{flood_without_initiator}
use rooster.Acp.{Millis, Heard, announce, registrar_announce, is_flood, empty_acp}
use rooster.Acp.Table.{IsTable}
use rooster.Acp.Announce.{announce-IsTable}

-- `recv_from` fills the buffer of 2048 octets from the front; the rest of it stays zero.
unfoldable pub buffer : List ℕ → List ℕ
buffer octets = take 2048 (octets ++ replicate 2048 0)

-- What `recv_from` returns.
pub data Received : Type 0 where
  datagram : List ℕ → Received
  read_error : Received

-- The table and the shared flag, the counter, and whether the task still runs: a panic ends it.
pub record Daemon : Type 0 where
  pub heard : Heard
  pub cnt : ℕ
  pub running : Bool

pub start_daemon : Bool → Daemon
start_daemon invalidate = record { heard = (empty_acp, invalidate); cnt = 0; running = true }

-- `cnt += 1` on a u32.
pub count : Daemon → Daemon
count d = record d { cnt = (d.cnt + 1) % 2 ^ 32 }

-- A message that was decoded is announced and counted; one that was not is skipped by `continue`.
pub handle_message : (ℕ → Millis) → Outcome GraspMessage → Daemon → Daemon
unfolding count
handle_message clock (ok msg) d = count (record d { heard = announce clock msg d.heard })
handle_message clock (err _) d = d
handle_message clock panic d = record d { running = false }

module _ ⦃cbor : Cbor⦄ where
  open cbor use {CborType, view}

  module _ (cbor_decode : List ℕ → Option CborType) where
    -- One round of the loop. The whole buffer is decoded, whatever the size of the datagram.
    pub daemon_round : Daemon → (ℕ → Millis) × Received → Daemon
    unfolding count handle_message
    daemon_round d (clock, read_error) = count d
    daemon_round d (clock, datagram octets) = elim (cbor_decode (buffer octets)) [
      | none ↦ d
      | some thing ↦ handle_message clock (decode_grasp_message thing) d
    ]

    pub daemon_step : Daemon → (ℕ → Millis) × Received → Daemon
    daemon_step d event = if d.running then daemon_round d event else d

    pub daemon_run : Daemon → List ((ℕ → Millis) × Received) → Daemon
    daemon_run d [] = d
    daemon_run d (event ∷ events) = daemon_run (daemon_step d event) events

    handle_message-IsTable :
        (clock : ℕ → Millis) (r : Outcome GraspMessage) (d : Daemon)
        → IsTable d.heard.0
        → IsTable (handle_message clock r d).heard.0
    unfolding handle_message
    handle_message-IsTable clock (ok msg) d h = announce-IsTable clock msg d.heard h
    handle_message-IsTable clock (err _) d h = h
    handle_message-IsTable clock panic d h = h

    daemon_step-IsTable :
        (d : Daemon) (event : (ℕ → Millis) × Received)
        → IsTable d.heard.0
        → IsTable (daemon_step d event).heard.0
    unfolding daemon_step daemon_round
    daemon_step-IsTable d (clock, read_error) h = ground arith
    daemon_step-IsTable d (clock, datagram octets) h = elim (Bool-cases d.running) [
      | inl e ↦ elim (Option-cases (cbor_decode (buffer octets))) [
        | inl n ↦ ground arith
        | inr (thing, s) ↦
            rw (e, s, daemon_round) (handle_message-IsTable clock (decode_grasp_message thing) d h)
      ]
      | inr e ↦ rw e h
    ]

    -- Whatever arrives, decoded or not, a table that is well formed stays well formed.
    pub daemon_run-IsTable :
        (d : Daemon) (events : List ((ℕ → Millis) × Received))
        → IsTable d.heard.0
        → IsTable (daemon_run d events).heard.0
    unfolding daemon_run
    daemon_run-IsTable d [] h = h
    daemon_run-IsTable d (event ∷ events) h =
        daemon_run-IsTable (daemon_step d event) events (daemon_step-IsTable d event h)

    stopped-daemon_step :
        (d : Daemon) (event : (ℕ → Millis) × Received) → d.running ≡ false → daemon_step d event ≡ d
    unfolding daemon_step
    stopped-daemon_step d event h = ground arith

    stopped-daemon_run :
        (d : Daemon) (events : List ((ℕ → Millis) × Received))
        → d.running ≡ false
        → daemon_run d events ≡ d
    unfolding daemon_run
    stopped-daemon_run d [] h = refl
    stopped-daemon_run d (event ∷ events) h =
        ap (λ t. daemon_run t events) (stopped-daemon_step d event h)
        ∙ stopped-daemon_run d events h

    -- The step of a running task on a datagram that is CBOR.
    pub daemon_step-datagram :
        (d : Daemon) (clock : ℕ → Millis) (octets : List ℕ) {thing : CborType}
        → d.running ≡ true
        → cbor_decode (buffer octets) ≡ some thing
        → daemon_step d (clock, datagram octets)
          ≡ handle_message clock (decode_grasp_message thing) d
    unfolding daemon_step daemon_round
    daemon_step-datagram d clock octets r e = ground arith

    -- A datagram that makes the decoder panic ends a running task: nothing that comes later is
    -- heard.
    pub panic-daemon_run :
        (d : Daemon) (clock : ℕ → Millis) (octets : List ℕ) {thing : CborType}
        (later : List ((ℕ → Millis) × Received))
        → d.running ≡ true
        → cbor_decode (buffer octets) ≡ some thing
        → decode_grasp_message thing ≡ panic
        → daemon_run d ((clock, datagram octets) ∷ later) ≡ record d { running = false }
    unfolding daemon_run handle_message
    panic-daemon_run d clock octets later r e p =
        ap (λ t. daemon_run t later)
          (daemon_step-datagram d clock octets r e ∙ ap (λ t. handle_message clock t d) p)
        ∙ stopped-daemon_run (record d { running = false }) later refl

    -- One datagram with a flood of two items, type and session id, ends a running listener for
    -- good, whatever comes later.
    pub short_flood-daemon_run :
        (d : Daemon) (clock : ℕ → Millis) (octets : List ℕ) {thing c0 c1 : CborType} {n id : ℕ}
        (later : List ((ℕ → Millis) × Received))
        → d.running ≡ true
        → cbor_decode (buffer octets) ≡ some thing
        → view thing ≡ array (c0 ∷ c1 ∷ [])
        → view c0 ≡ integer n
        → view c1 ≡ integer id
        → n % 2 ^ 32 ≡ 9
        → daemon_run d ((clock, datagram octets) ∷ later) ≡ record d { running = false }
    short_flood-daemon_run d clock octets later r e t a b f =
        panic-daemon_run d clock octets later r e (flood_without_initiator t a b f).0

    -- A flood that fits the wire, and that arrives at a running task as it was encoded, is
    -- announced to the table as it was sent.
    pub flood-daemon_step :
        (d : Daemon) (clock : ℕ → Millis) (octets : List ℕ) (msg : GraspMessage) {thing : CborType}
        → d.running ≡ true
        → IsWireFlood msg
        → encode_dull_grasp_message msg ≡ ok thing
        → cbor_decode (buffer octets) ≡ some thing
        → (daemon_step d (clock, datagram octets)).heard ≡ registrar_announce clock msg d.heard
    unfolding handle_message announce is_flood
    flood-daemon_step d clock octets msg r fits sent e =
        let back = rw sent at (decode-encode msg fits).0 in
        ap (λ t. t.heard)
          (daemon_step-datagram d clock octets r e ∙ ap (λ t. handle_message clock t d) back)
        ∙ ap (λ t. if is_flood t then registrar_announce clock msg d.heard else d.heard) fits.floods
