-- ===== src/Acp/Daemon/Sample.antt =====
-- What a daemon hears in the examples: a decoder that tells datagrams by their first octet.
use rooster.Base.{
  ℕ, Bool, true, ◌≡◌, refl, ◌∙◌, List, [], ◌∷◌, Option, none, some, get_or, if◌then◌else◌, ◌==◌,
  equality_nat,
}
use rooster.Cbor.Sample.{Tree, sample_cbor}
use rooster.Grasp.Sample.{flood, flood-IsWireFlood, flood_item, encode_flood, two_items}
use rooster.Acp.{empty_acp}
use rooster.Acp.Sample.{clock, heard_acp, announce_flood}
use rooster.Acp.Daemon.{buffer, datagram, Daemon, daemon_step, flood-daemon_step}

-- Datagrams by their first octet.
abbrev pub sample_decode : List ℕ → Option Tree
sample_decode octets =
    if get_or octets 0 0 == 1
    then some two_items
    else if get_or octets 0 0 == 2
    then some flood_item
    else none

pub decode_two : sample_decode (buffer (1 ∷ [])) ≡ some two_items
unfolding buffer
decode_two = refl

pub decode_flood : sample_decode (buffer (2 ∷ [])) ≡ some flood_item
unfolding buffer
decode_flood = refl

-- A daemon that has heard nothing.
abbrev pub fresh : Bool → Daemon
fresh flag = record { heard = (empty_acp, flag); cnt = 0; running = true }

pub hears_flood :
    (flag : Bool)
    → (daemon_step sample_decode (fresh flag) (clock, datagram (2 ∷ []))).heard ≡ (heard_acp, true)
hears_flood flag =
    flood-daemon_step sample_decode (fresh flag) clock (2 ∷ []) flood refl flood-IsWireFlood
      encode_flood decode_flood
    ∙ announce_flood flag
