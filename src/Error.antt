-- ===== src/Error.antt =====
-- src/error.rs, and the way a fallible call ends: a value, an `Err`, or a panic.
use rooster.Base.{◌≡◌, refl, List, [], ◌∷◌, ℕ, zero, suc}

pub data ConnectError : Type 0 where
  not_ip_v6_address misformed_grasp_message misformed_grasp_objective : ConnectError
  unimplemented_grasp_stuff misformed_ipv6_addr illegal_dull_grasp_message : ConnectError

-- The kinds of `std::io::Error` that the program tells apart.
pub data ErrorKind : Type 0 where
  not_connected addr_not_available addr_in_use invalid_data other_error : ErrorKind

-- `Result<A, ConnectError>` of a call that may also panic.
pub data Outcome {ℓ} (A : Type ℓ) : Type ℓ where
  ok : A → Outcome A
  err : ConnectError → Outcome A
  panic : Outcome A

infixl 5 ◌>>=◌
-- The `?` operator; a panic unwinds past it.
abbrev pub ◌>>=◌ {ℓ κ} : {V : Type ℓ} {W : Type κ} → Outcome V → (V → Outcome W) → Outcome W
panic >>= next = panic
err why >>= next = err why
ok value >>= next = next value

-- `v[i]`, which panics out of range.
abbrev pub index {ℓ} : {A : Type ℓ} → List A → ℕ → Outcome A
index [] i = panic
index (x ∷ xs) zero = ok x
index (x ∷ xs) (suc i) = index xs i

module _ {ℓ κ} {A : Type ℓ} {B : Type κ} where
  pub >>=_cong :
      (m : Outcome A) {f g : A → Outcome B} → ((a : A) → f a ≡ g a) → (m >>= f) ≡ (m >>= g)
  >>=_cong (ok a) h = h a
  >>=_cong (err e) h = refl
  >>=_cong panic h = refl

  -- The value with which the first of two calls went on, where the second returned.
  pub record Passed (call : Outcome A) (next : A → Outcome B) (result : B) : Type (ℓ ⊔ κ) where
    pub value : A
    pub given : call ≡ ok value
    pub returned : next value ≡ ok result

  pub passed :
      (call : Outcome A) (next : A → Outcome B) {result : B}
      → call >>= next ≡ ok result
      → Passed call next result
  passed panic next e = cc
  passed (err why) next e = cc
  passed (ok value) next e = record { value = value; given = refl; returned = e }

pub >>=_assoc {ℓ κ ι} :
    {A : Type ℓ} {B : Type κ} {C : Type ι} (m : Outcome A) (f : A → Outcome B) (g : B → Outcome C)
    → ((m >>= f) >>= g) ≡ (m >>= λ a. f a >>= g)
>>=_assoc (ok a) f g = refl
>>=_assoc (err e) f g = refl
>>=_assoc panic f g = refl

-- Whatever the call returns satisfies `P`.
abbrev pub Ensures {ℓ κ} : {A : Type ℓ} → (A → Type κ) → Outcome A → Type κ
Ensures P (ok a) = P a
Ensures P (err _) = Unit
Ensures P panic = Unit

module _ {ℓ κ} {A : Type ℓ} {B : Type κ} where
  -- The rule where nothing is known of the first call.
  pub Ensures-then {μ} :
      (Q : B → Type μ) (m : Outcome A) (f : A → Outcome B)
      → ((a : A) → Ensures Q (f a))
      → Ensures Q (m >>= f)
  Ensures-then Q (ok a) f q = q a
  Ensures-then Q (err e) f q = tt
  Ensures-then Q panic f q = tt

pub Ensures-any {ℓ} : {A : Type ℓ} (m : Outcome A) → Ensures (λ _. Unit {0}) m
Ensures-any (ok a) = tt
Ensures-any (err e) = tt
Ensures-any panic = tt
