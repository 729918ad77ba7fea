-- ===== src/Sys.antt =====
-- The calls to the system that src/acp_interface.rs and src/join_interface.rs make to open sockets.
-- What the system answers is a parameter, which may depend on all calls before.
pub mod Opens
use rooster.Base.{ℕ, String, List, [], ◌∷◌, ◌++◌, Option, none, some}
use rooster.Error.{ErrorKind}
use rooster.Net.{Ipv6Addr}

pub data SocketKind : Type 0 where
  dgram stream : SocketKind

-- A call, with the port and the scope that a socket is bound to, or the words of a command.
pub data Call : Type 0 where
  socket : SocketKind → Call
  set_reuse_port set_reuse_address set_nonblocking from_std : Call
  bind : Ipv6Addr → ℕ → ℕ → Call
  listen : ℕ → Call
  join_multicast_v6 : Ipv6Addr → ℕ → Call
  command : List String → Call

-- How a function ends that makes such calls: `Result<A, std::io::Error>`, or a panic.
pub data Result {ℓ} (A : Type ℓ) : Type ℓ where
  finished : A → Result A
  failed : ErrorKind → Result A
  unwound : Result A

-- A function that makes calls: from the calls so far to those with its own, and how it ends.
abbrev pub Os {ℓ} : Type ℓ → Type ℓ
Os A = List Call → List Call × Result A

abbrev pub Answers : Type 0
Answers = List Call → Call → Option ErrorKind

abbrev pub answer : Option ErrorKind → Result (Unit {0})
answer none = finished tt
answer (some e) = failed e

abbrev pub call : Answers → Call → Os (Unit {0})
call answers c calls = (calls ++ (c ∷ []), answer (answers calls c))

module _ {ℓ} {A : Type ℓ} where
  abbrev pub pure : A → Os A
  pure a calls = (calls, finished a)

  abbrev pub fail : ErrorKind → Os A
  fail e calls = (calls, failed e)

  abbrev pub unwrap_result : Result A → Result A
  unwrap_result (finished a) = finished a
  unwrap_result _ = unwound

  -- `.unwrap()` and `.expect(…)`.
  abbrev pub unwrap : Os A → Os A
  unwrap m calls = let (calls', r) = m calls in (calls', unwrap_result r)

module _ {ℓ κ} {A : Type ℓ} {B : Type κ} where
  abbrev pub on_result :
      List Call × Result A → (A → Os B) → (ErrorKind → Os B) → List Call × Result B
  on_result (calls, finished a) good bad = good a calls
  on_result (calls, failed e) good bad = bad e calls
  on_result (calls, unwound) good bad = (calls, unwound)

  -- `match m { Ok(a) => good(a), Err(e) => bad(e) }`.
  abbrev pub match_result : Os A → (A → Os B) → (ErrorKind → Os B) → Os B
  match_result m good bad calls = on_result (m calls) good bad

  infixl 5 ◌>>=◌
  -- The `?` operator.
  abbrev pub ◌>>=◌ : Os A → (A → Os B) → Os B
  m >>= next = match_result m next fail
