-- ===== src/Errors.antt =====
-- crates/raft-common/src/error.rs: the error type of the crates, with the texts of the messages left out,
-- and `Result`. A Rust panic is a third outcome, which no caller handles.
use raftrust.Prelude.{◌⊎◌, inl, inr, ◌≡◌, refl, ◌≡◌}
use raftrust.Prelude.{ℕ, Option}

pub data Error : Type 0 where
  storage raft io : Error
  not_leader : Option ℕ → Error
  key_not_found transaction_conflict corruption : Error

pub data Result {ℓ} (A : Type ℓ) : Type ℓ where
  ok : A → Result A
  err : Error → Result A
  panic : Result A

-- The operator `?`.
infixl 5 ◌>>=◌
abbrev pub ◌>>=◌ {ℓ κ} : {A : Type ℓ} {B : Type κ} → Result A → (A → Result B) → Result B
ok a >>= f = f a
err e >>= f = err e
panic >>= f = panic

pub ok_inj {ℓ} : {A : Type ℓ} {a b : A} → ok a ≡ ok b → a ≡ b
ok_inj h = cc

module _ {A B : Type 0} where
  -- A step of a chain that succeeded, with the result it passed on.
  abbrev pub Passed : Result A → (A → Result B) → B → Type 0
  Passed m f b = (a : A) × (m ≡ ok a) × (f a ≡ ok b)

  pub >>=-Passed : (m : Result A) (f : A → Result B) {b : B} → (m >>= f) ≡ ok b → Passed m f b
  >>=-Passed panic f done = cc
  >>=-Passed (err e) f done = cc
  >>=-Passed (ok a) f done = (a, refl, done)

pub Result-cases {ℓ} :
    {A : Type ℓ} (r : Result A)
    → ((a : A) × (r ≡ ok a)) ⊎ (((e : Error) × (r ≡ err e)) ⊎ (r ≡ panic))
Result-cases (ok a) = inl (a, refl)
Result-cases (err e) = inr (inl (e, refl))
Result-cases panic = inr (inr refl)
