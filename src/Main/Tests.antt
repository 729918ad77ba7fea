-- ===== src/Main/Tests.antt =====
-- Examples for src/main.rs.
use rooster.Base.{ℕ, ◌+◌, ◌≡◌, ◌≢◌, refl, inl, List, [], ◌∷◌, Option, some}
use rooster.Cbor.Sample.{Tree, sample_cbor}
use rooster.Netlink.{LinkMessage, LinkNla, up}
use rooster.Interfaces.{cell}
use rooster.Interfaces.Sample.{world, values}
use rooster.Join.{
  ErrorKind, addr_not_available, other_error, io_ok, io_panic, sending, Transmission,
}
use rooster.Main.{main_round}
use rooster.Main.Round.{Reached, main_round-sends, main_round-panics}

abbrev serialize : Tree → List ℕ
serialize _ = 2 ∷ []

abbrev id : ℕ → ℕ
id n = 42 + n

-- Nothing can be sent for want of an address, or for another reason.
abbrev absent : Transmission → Option ErrorKind
absent _ = some addr_not_available

abbrev broken : Transmission → Option ErrorKind
broken _ = some other_error

is_absent : (t : Transmission) → sending (absent t) ≡ io_ok
unfolding sending
is_absent t = refl

main_round-sends_example :
    ((main_round serialize absent values id world).2 ≡ io_ok)
    × Reached serialize absent (cell world 1) (main_round serialize absent values id world).1
main_round-sends_example =
    main_round-sends serialize absent values id world is_absent 1 (inl refl) (λ h. cc)

is_broken : (t : Transmission) → t.scope ≡ (cell world 1).ifindex → sending (broken t) ≢ io_ok
unfolding sending
is_broken t e = λ h. cc

main_round-panics_example : (main_round serialize broken values id world).2 ≡ io_panic
main_round-panics_example =
    main_round-panics serialize broken values id world 1 (inl refl) (λ h. cc) is_broken

-- The link of the ACP comes up again.
abbrev acp_up : LinkMessage
acp_up = record { index = 2; nlas = LinkNla.oper_state up ∷ [] }
