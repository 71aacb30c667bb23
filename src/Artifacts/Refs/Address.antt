-- ===== src/Artifacts/Refs/Address.antt =====
-- An address is parsed back to the key and the version that it was made of.
use flow_speckit.Prelude.{
  ℕ, ◌≡◌, refl, true, Option, none, some, [], ◌∷◌, ◌++◌, arith, Text, all_digits, is_digits,
  decimal, is_digits-decimal, read_decimal-decimal,
}
use flow_speckit.Artifacts.Refs.{address, rpartition_at, parse_ref, by_key}
use flow_speckit.Base.{Uuid}

-- The digits of a number hold no `@`.
no_at : (cs : Text) → all_digits cs ≡ true → rpartition_at cs ≡ none
unfolding rpartition_at
no_at [] h = refl
no_at (c ∷ cs) h = ground (arith, no_at cs)

all_digits_of_is_digits : (cs : Text) → is_digits cs ≡ true → all_digits cs ≡ true
all_digits_of_is_digits [] h = refl
all_digits_of_is_digits (c ∷ cs) h = h

rpartition_at-append :
    (key rest : Text)
    → rpartition_at rest ≡ none
    → rpartition_at (key ++ b'@' ∷ rest) ≡ some (key, rest)
unfolding rpartition_at
rpartition_at-append [] rest h = rw h refl
rpartition_at-append (c ∷ key) rest h = rw (rpartition_at-append key rest h) refl

-- The address of a version, where it is no UUID, is parsed back to its key and its version.
pub parse_ref-address :
    (uuid_of : Text → Option Uuid) (key : Text) (version : ℕ)
    → uuid_of (address key version) ≡ none
    → parse_ref uuid_of (address key version) ≡ by_key key (some version)
unfolding parse_ref address
parse_ref-address uuid_of key version no_uuid =
    rw (no_uuid, parse_ref)
      (rw
        (rpartition_at-append key (decimal version) (
          no_at (decimal version)
            (all_digits_of_is_digits (decimal version) (is_digits-decimal version))))
        (rw (is_digits-decimal version, read_decimal-decimal version) refl))
