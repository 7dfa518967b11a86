-- ===== src/Prelude/Result.antt =====
-- Python exceptions as values: the classes that the program raises or meets.

pub data Error : Type 0 where
  key_error index_error type_error value_error attribute_error : Error
  name_error zero_division_error exception : Error
  libyang_error sysrepo_not_found request_error : Error

pub data Result {ℓ} (T : Type ℓ) : Type ℓ where
  err : Error → Result T
  ok : T → Result T

infixl 5 ◌>>=◌ ◌>>◌
abbrev pub ◌>>=◌ {ℓ κ} : {T : Type ℓ} {U : Type κ} → Result T → (T → Result U) → Result U
err e >>= next = err e
ok t >>= next = next t

abbrev pub ◌>>◌ {ℓ κ} : {T : Type ℓ} {U : Type κ} → Result T → Result U → Result U
first >> second = first >>= λ _. second
