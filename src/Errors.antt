-- ===== src/Errors.antt =====
-- src/errors.rs: the errors of the program, and the results that carry them.
pub mod Display
use cryo.Base.{ℕ, String, ◌≡◌, refl, Bool, true, false, Option, none, some, ◌⊎◌, inl, inr}
use cryo.Base.Int.{ℤ}
use cryo.FilePath.{FilePath}

-- std::io::Error: a read behind the end of the file, or what the operating system reports.
pub data IoError : Type 0 where
  unexpected_eof : IoError
  os_error : ℕ → IoError

pub data CryoErrors : Type 0 where
  empty_archive_name compression_error decompression_error : CryoErrors
  invalid_compression_level : String → ℤ → ℤ → CryoErrors
  invalid_path serialization_failed deserialization_failed possible_zip_bomb : CryoErrors
  recursive_lookup_failed : FilePath → IoError → CryoErrors
  read_failed : FilePath → IoError → CryoErrors
  unsafe_path : FilePath → CryoErrors
  write_error : CryoErrors
  cryptographic_error : String → CryoErrors
  initialization_error : String → CryoErrors
  file_too_large block_too_large m_cost_too_large : ℕ → ℕ → CryoErrors
  index_too_large header_too_large : ℕ → ℕ → CryoErrors
  checksum_mismatch invalid_pattern thread_error not_supported invalid_magic : CryoErrors
  dir_not_recursive : CryoErrors

-- Result<T, CryoErrors>
pub data Result {i} (T : Type i) : Type i where
  err : CryoErrors → Result T
  ok : T → Result T

-- `if test { return Err(e) }`
abbrev pub reject : Bool → CryoErrors → Result (Unit {0})
reject test e = elim test [ true ↦ err e | false ↦ ok tt ]

-- The `?` operator.
infixl 5 ◌>>=◌ ◌>>◌
abbrev pub ◌>>=◌ {i j} : {T : Type i} {U : Type j} → Result T → (T → Result U) → Result U
err e >>= next = err e
ok value >>= next = next value

abbrev pub ◌>>◌ {i} : {U : Type i} → Result (Unit {0}) → Result U → Result U
done >> next = done >>= λ _. next

-- `.map_err(|_| e)` and `.ok_or(e)`
abbrev pub or_err {i} : {T : Type i} → CryoErrors → Option T → Result T
or_err e none = err e
or_err e (some value) = ok value

-- A chain that succeeds has a first part that does.
pub >>=-eq-ok {i j} :
    {T : Type i} {U : Type j} (r : Result T) (next : T → Result U) {u : U}
    → (r >>= next) ≡ ok u
    → (t : T) × (r ≡ ok t) × (next t ≡ ok u)
>>=-eq-ok (err e) next h = cc
>>=-eq-ok (ok t) next h = (t, refl, h)

pub Result-cases {ℓ} :
    {A : Type ℓ} (r : Result A) → ((a : A) × (r ≡ ok a)) ⊎ ((e : CryoErrors) × (r ≡ err e))
Result-cases (ok a) = inl (a, refl)
Result-cases (err e) = inr (e, refl)

pub >>=_assoc {ℓ} :
    {A B C : Type ℓ} (m : Result A) (f : A → Result B) (g : B → Result C)
    → (m >>= f >>= g) ≡ (m >>= λ a. f a >>= g)
>>=_assoc (ok a) f g = refl
>>=_assoc (err e) f g = refl

pub reject-eq-ok : (b : Bool) (e : CryoErrors) → reject b e ≡ ok tt → b ≡ false
reject-eq-ok true e h = cc
reject-eq-ok false e h = refl

pub or_err-eq-ok {ℓ} :
    {A : Type ℓ} (e : CryoErrors) (o : Option A) {a : A} → or_err e o ≡ ok a → o ≡ some a
or_err-eq-ok e none h = cc
or_err-eq-ok e (some x) h = cc
