-- ===== src/Cbor.antt =====
-- The CBOR crate (moz_cbor), as the program uses it: a value is built by one of four variants and
-- read by matching on these four.
pub mod Sample
pub mod Octets
use rooster.Base.{ℕ, String, List, ◌≡◌}

-- What a `match` on a `CborType` sees; `other` is any variant that the program never names.
pub data View (C : Type 0) : Type 0 where
  integer : ℕ → View C
  bytes : List ℕ → View C
  string : String → View C
  array : List C → View C
  other : View C

-- The crate's type, its constructors that the program applies, and how a match takes them apart.
pub record Cbor : Type 1 where
  pub CborType : Type 0
  pub view : CborType → View CborType
  pub make_integer : ℕ → CborType
  pub make_bytes : List ℕ → CborType
  pub make_string : String → CborType
  pub make_array : List CborType → CborType
  pub view-integer : (n : ℕ) → view (make_integer n) ≡ integer n
  pub view-bytes : (b : List ℕ) → view (make_bytes b) ≡ bytes b
  pub view-string : (s : String) → view (make_string s) ≡ string s
  pub view-array : (xs : List CborType) → view (make_array xs) ≡ array xs

-- `match c { Array(xs) => f(xs), _ => d }`, and so for the other variants.
module _ {ℓ} {C : Type 0} {A : Type ℓ} where
  abbrev pub on_array : View C → (List C → A) → A → A
  on_array (array xs) f d = f xs
  on_array _ f d = d

  abbrev pub on_bytes : View C → (List ℕ → A) → A → A
  on_bytes (bytes b) f d = f b
  on_bytes _ f d = d

  abbrev pub on_integer : View C → (ℕ → A) → A → A
  on_integer (integer n) f d = f n
  on_integer _ f d = d

  abbrev pub on_string : View C → (String → A) → A → A
  on_string (string s) f d = f s
  on_string _ f d = d
