-- ===== src/Core/Flags/Types.antt =====
-- The numeric type that flags name is the type that they were made of.
use Prim.Native.Nat.{bit_and, bit_or}
use bomba.Base.{
  ℕ, zero, suc, ◌<◌, Bool, true, false, ◌&&◌, some, ◌≡◌, refl, arith, ◌==◌, ==_iff, if◌then◌else◌,
}
use bomba.Core.Flags.{
  Flags, determined_numeric_type, NumericType, int_8, uint_8, int_16, uint_16, int_32, uint_32,
  int_64, uint_64, float_16, float_32, float_64, type_to_flags, type_of_cleaned, type_with_flags,
  has_flag,
}

-- The flags that name no numeric type: those of the four lowest bits.
abbrev pub IsPlain : Flags → Type 0
IsPlain flags = flags < 16

every_under : (ℕ → Bool) → ℕ → Bool
every_under test zero = true
every_under test (suc bound) = every_under test bound && test bound

-- A test of all flags below a bound, by evaluation.
every_under-holds :
    (test : ℕ → Bool) (bound flags : ℕ)
    → flags < bound
    → every_under test bound ≡ true
    → test flags ≡ true
unfolding every_under
every_under-holds test zero flags under all = absurd (omega (arith, under))
every_under-holds test (suc bound) flags under all =
    ground (arith, under, all, every_under-holds test bound flags)

-- Or-ing a type's flags to plain ones adds its numeric bits.
cleaned_of :
    (t : NumericType) (flags : Flags)
    → IsPlain flags
    → bit_and (bit_or flags (type_to_flags t)) determined_numeric_type ≡ type_to_flags t
unfolding every_under type_to_flags
cleaned_of t flags h = (==_iff _ _).0 (
    every_under-holds
      (λ f. bit_and (bit_or f (type_to_flags t)) determined_numeric_type == type_to_flags t) 16
      flags h (table t))
  where
    table :
        (t : NumericType)
        → every_under
            (λ f. bit_and (bit_or f (type_to_flags t)) determined_numeric_type == type_to_flags t)
            16
          ≡ true
    table int_8 = refl
    table uint_8 = refl
    table int_16 = refl
    table uint_16 = refl
    table int_32 = refl
    table uint_32 = refl
    table int_64 = refl
    table uint_64 = refl
    table float_16 = refl
    table float_32 = refl
    table float_64 = refl

-- The type that plain flags and a type's flags name together.
pub type_with_flags-type_to_flags :
    (t : NumericType) (flags : Flags)
    → IsPlain flags
    → type_with_flags (bit_or flags (type_to_flags t)) ≡ some t
unfolding type_with_flags type_to_flags
type_with_flags-type_to_flags t flags h = rw (cleaned_of t flags h, type_with_flags) (known t)
  where
    known :
        (t : NumericType)
        → type_of_cleaned (if type_to_flags t == 0 then 0x140 else type_to_flags t) ≡ some t
    known int_8 = refl
    known uint_8 = refl
    known int_16 = refl
    known uint_16 = refl
    known int_32 = refl
    known uint_32 = refl
    known int_64 = refl
    known uint_64 = refl
    known float_16 = refl
    known float_32 = refl
    known float_64 = refl

pub plain-has_flag :
    (flags : Flags) → IsPlain flags → has_flag flags determined_numeric_type ≡ false
unfolding every_under
plain-has_flag flags h =
    ground (arith, every_under-holds (λ f. bit_and f determined_numeric_type == 0) 16 flags h refl)
