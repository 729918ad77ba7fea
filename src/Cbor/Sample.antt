-- ===== src/Cbor/Sample.antt =====
-- A concrete CBOR type, at which the examples run.
use rooster.Base.{ℕ, String, ◌≡◌, refl, ap, List, [], ◌∷◌}
use rooster.Cbor.{Cbor, View, integer, bytes, string, array, other}

mutual
  pub data Tree : Type 0 where
    num : ℕ → Tree
    octets : List ℕ → Tree
    text : String → Tree
    items : Trees → Tree
    null : Tree

  pub data Trees : Type 0 where
    nil : Trees
    cons : Tree → Trees → Trees

abbrev pub to_list : Trees → List Tree
to_list nil = []
to_list (cons t ts) = t ∷ to_list ts

abbrev pub of_list : List Tree → Trees
of_list [] = nil
of_list (t ∷ ts) = cons t (of_list ts)

pub to_list-of_list : (ts : List Tree) → to_list (of_list ts) ≡ ts
to_list-of_list [] = refl
to_list-of_list (t ∷ ts) = ap (◌∷◌ t) (to_list-of_list ts)

abbrev pub view_tree : Tree → View Tree
view_tree (num n) = integer n
view_tree (octets b) = bytes b
view_tree (text s) = string s
view_tree (items ts) = array (to_list ts)
view_tree null = other

instance abbrev pub sample_cbor : Cbor
sample_cbor = record {
  CborType = Tree;
  view = view_tree;
  make_integer = num;
  make_bytes = octets;
  make_string = text;
  make_array = λ ts. items (of_list ts);
  view-integer = λ n. refl;
  view-bytes = λ b. refl;
  view-string = λ s. refl;
  view-array = λ ts. ap array (to_list-of_list ts);
}
