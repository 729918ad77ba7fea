-- ===== src/Acp/Sample.antt =====
-- A table and a clock, for the examples.
use rooster.Base.{ℕ, Bool, true, ◌+◌, ◌≡◌, refl, [], ◌∷◌}
use rooster.Net.{v6}
use rooster.Grasp.Sample.{host, flood}
use rooster.Acp.{
  http_registrar, AcpInterface, empty_acp, Millis, add_registrar, add_to_registrars,
  registrar_announce, announce_objectives, hearing, announced, announced_type,
}
use rooster.Acp.Table.{IsTable, empty-IsTable, add_registrar-IsTable}

-- A table with one registrar, at port 8993 for HTTP.
abbrev pub known : AcpInterface
known = record {
  registrars =
      record { rtypes = http_registrar 8993 ∷ []; addr = v6 host; last_announce = 5; ttl = 180000 }
      ∷ [];
}

add_known : add_registrar (http_registrar 8993) host 180000 5 empty_acp ≡ known
unfolding add_registrar add_to_registrars
add_known = refl

pub known-IsTable : IsTable known
known-IsTable =
    rw add_known at
      (add_registrar-IsTable (http_registrar 8993) host 180000 5 empty_acp empty-IsTable)

abbrev pub clock : ℕ → Millis
clock n = 1000 + n

-- What a table has that has heard the flood of the examples and nothing else.
abbrev pub heard_acp : AcpInterface
heard_acp = record {
  registrars =
      record {
        rtypes = http_registrar 8993 ∷ [];
        addr = v6 host;
        last_announce = 1001;
        ttl = 180000;
      }
      ∷ [];
}

pub announce_flood :
    (flag : Bool) → registrar_announce clock flood (empty_acp, flag) ≡ (heard_acp, true)
unfolding registrar_announce announce_objectives hearing announced announced_type add_registrar
    add_to_registrars
announce_flood flag = refl
