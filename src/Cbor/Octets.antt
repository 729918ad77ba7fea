-- ===== src/Cbor/Octets.antt =====
-- The octets of the concrete CBOR type, by RFC 8949: unsigned integers, octet strings, texts of
-- printable ASCII and arrays, which is what the unit tests of src/grasp.rs send through the CBOR
-- crate. It stands for the crate in the tests only.
use rooster.Base.{
  ℕ, zero, suc, ◌+◌, ◌-◌, ◌*◌, ◌/◌, ◌%◌, ◌^◌, String, true, false, List, [], ◌∷◌, ◌++◌, Option,
  none, some, ltb, ◌==◌, equality_nat, if◌then◌else◌, length, take, drop,
}
use Prim.Native.Char.{Char, code}
use Prim.Native.String.{char_at, len}
use package.text.Mathlib.TextBridge.{of_list as text_of}
use mathlib.Core.List.{map}
use rooster.Cbor.Sample.{Tree, num, octets, text, items, null, Trees, nil, cons}

infixl 5 ◌>>=◌
abbrev ◌>>=◌ {ℓ κ} : {A : Type ℓ} {B : Type κ} → Option A → (A → Option B) → Option B
none >>= f = none
some a >>= f = f a

abbrev printable : String
printable =
    " !\"#$%&'()*+,-./0123456789:;<=>?@ABCDEFGHIJKLMNOPQRSTUVWXYZ[\\]^_`abcdefghijklmnopqrstuvwxyz{|}~"

-- So many octets of a text of ASCII, from a place on.
abbrev octets_of : ℕ → ℕ → String → List ℕ
octets_of zero i s = []
octets_of (suc k) i s = code (char_at s i) ∷ octets_of k (suc i) s

abbrev char_of : ℕ → Char
char_of n = char_at printable (n - 32)

-- A number in so many octets, the highest first.
abbrev big_endian : ℕ → ℕ → List ℕ
big_endian zero n = []
big_endian (suc k) n = (n / 256 ^ k) % 256 ∷ big_endian k n

abbrev of_big_endian : ℕ → List ℕ → ℕ
of_big_endian n [] = n
of_big_endian n (b ∷ bs) = of_big_endian (256 * n + b) bs

-- The first octets of an item: its major type, and a number in as few octets as there can be.
abbrev head : ℕ → ℕ → List ℕ
head major n =
    if ltb n 24
    then (32 * major + n) ∷ []
    else if ltb n (2 ^ 8)
    then (32 * major + 24) ∷ big_endian 1 n
    else if ltb n (2 ^ 16)
    then (32 * major + 25) ∷ big_endian 2 n
    else if ltb n (2 ^ 32)
    then (32 * major + 26) ∷ big_endian 4 n
    else (32 * major + 27) ∷ big_endian 8 n

abbrev how_many : Trees → ℕ
how_many nil = 0
how_many (cons t ts) = suc (how_many ts)

-- `serialize` of an array, without its head.
abbrev serialize_items : Trees → List ℕ
serialize_items nil = []
serialize_items (cons (num n) ts) = head 0 n ++ serialize_items ts
serialize_items (cons (octets b) ts) = head 2 (length b) ++ b ++ serialize_items ts
serialize_items (cons (text s) ts) = head 3 (len s) ++ octets_of (len s) 0 s ++ serialize_items ts
serialize_items (cons (items us) ts) =
    head 4 (how_many us) ++ serialize_items us ++ serialize_items ts
serialize_items (cons null ts) = 0xf6 ∷ serialize_items ts

abbrev pub serialize : Tree → List ℕ
serialize t = serialize_items (cons t nil)

-- The number in the head of an item, and what comes after it.
abbrev argument : ℕ → List ℕ → ℕ × List ℕ
argument low rest =
    if ltb low 24
    then (low, rest)
    else (let k = 2 ^ (low - 24) in (of_big_endian 0 (take k rest), drop k rest))

-- An item that is no array.
abbrev decode_plain : ℕ → ℕ → List ℕ → Option (Tree × List ℕ)
decode_plain major arg rest =
    if major == 0
    then some (num arg, rest)
    else if major == 2
    then some (octets (take arg rest), drop arg rest)
    else if major == 3
    then some (text (text_of (map char_of (take arg rest))), drop arg rest)
    else none

-- So many items; each of them takes fuel.
abbrev decode_items : ℕ → ℕ → List ℕ → Option (Trees × List ℕ)
decode_items fuel zero bytes = some (nil, bytes)
decode_items zero (suc n) bytes = none
decode_items (suc fuel) (suc n) [] = none
decode_items (suc fuel) (suc n) (b ∷ bytes) =
    let (arg, rest) = argument (b % 32) bytes in
    let major = b / 32 in
    do
      (t, after) ← elim (major == 4) [
        | true ↦ do (ts, end) ← decode_items fuel arg rest; some (items ts, end)
        | false ↦ decode_plain major arg rest
      ]
      (ts, end) ← decode_items fuel n after
      some (cons t ts, end)

-- `decode`, which passes over what follows the first item.
abbrev pub decode : List ℕ → Option Tree
decode bytes = do (ts, rest) ← decode_items (suc (length bytes)) 1 bytes; first ts
  where
    first : Trees → Option Tree
    first nil = none
    first (cons t ts) = some t
