-- ===== src/Promotion/BuiltinTypes.antt =====
-- The built-in types: the first entries of `enum type_id_t` and the kinds they have, from
-- include/dynd/types/type_id.hpp, with the tables of src/dynd/types/base_type.cpp.
use libdynd.Common.{
  ℕ, ◌<◌, Bool, true, ◌≡◌, refl, sym, ap, subst, ◌∙◌, arith, get_or, List, [], ◌∷◌, accepts_up_to,
  accepts_up_to-at,
}

pub data TypeKind : Type 0 where
  bool_kind : TypeKind
  uint_kind : TypeKind
  sint_kind : TypeKind
  real_kind : TypeKind
  complex_kind : TypeKind
  void_kind : TypeKind

pub data TypeId : Type 0 where
  uninitialized_type_id : TypeId
  bool_type_id : TypeId
  int8_type_id : TypeId
  int16_type_id : TypeId
  int32_type_id : TypeId
  int64_type_id : TypeId
  int128_type_id : TypeId
  uint8_type_id : TypeId
  uint16_type_id : TypeId
  uint32_type_id : TypeId
  uint64_type_id : TypeId
  uint128_type_id : TypeId
  float16_type_id : TypeId
  float32_type_id : TypeId
  float64_type_id : TypeId
  float128_type_id : TypeId
  complex_float32_type_id : TypeId
  complex_float64_type_id : TypeId
  void_type_id : TypeId

-- The value of the enumerator.
abbrev pub type_id_value : TypeId → ℕ
type_id_value uninitialized_type_id = 0
type_id_value bool_type_id = 1
type_id_value int8_type_id = 2
type_id_value int16_type_id = 3
type_id_value int32_type_id = 4
type_id_value int64_type_id = 5
type_id_value int128_type_id = 6
type_id_value uint8_type_id = 7
type_id_value uint16_type_id = 8
type_id_value uint32_type_id = 9
type_id_value uint64_type_id = 10
type_id_value uint128_type_id = 11
type_id_value float16_type_id = 12
type_id_value float32_type_id = 13
type_id_value float64_type_id = 14
type_id_value float128_type_id = 15
type_id_value complex_float32_type_id = 16
type_id_value complex_float64_type_id = 17
type_id_value void_type_id = 18

-- `builtin_data_sizes`, in bytes.
abbrev pub data_size : TypeId → ℕ
data_size uninitialized_type_id = 0
data_size bool_type_id = 1
data_size int8_type_id = 1
data_size int16_type_id = 2
data_size int32_type_id = 4
data_size int64_type_id = 8
data_size int128_type_id = 16
data_size uint8_type_id = 1
data_size uint16_type_id = 2
data_size uint32_type_id = 4
data_size uint64_type_id = 8
data_size uint128_type_id = 16
data_size float16_type_id = 2
data_size float32_type_id = 4
data_size float64_type_id = 8
data_size float128_type_id = 16
data_size complex_float32_type_id = 8
data_size complex_float64_type_id = 16
data_size void_type_id = 0

-- `builtin_kinds`.
abbrev pub kind_of : TypeId → TypeKind
kind_of uninitialized_type_id = void_kind
kind_of bool_type_id = bool_kind
kind_of int8_type_id = sint_kind
kind_of int16_type_id = sint_kind
kind_of int32_type_id = sint_kind
kind_of int64_type_id = sint_kind
kind_of int128_type_id = sint_kind
kind_of uint8_type_id = uint_kind
kind_of uint16_type_id = uint_kind
kind_of uint32_type_id = uint_kind
kind_of uint64_type_id = uint_kind
kind_of uint128_type_id = uint_kind
kind_of float16_type_id = real_kind
kind_of float32_type_id = real_kind
kind_of float64_type_id = real_kind
kind_of float128_type_id = real_kind
kind_of complex_float32_type_id = complex_kind
kind_of complex_float64_type_id = complex_kind
kind_of void_type_id = void_kind

-- The built-in types in the order of their ids.
abbrev builtin_types : List TypeId
builtin_types =
    uninitialized_type_id ∷ bool_type_id ∷ int8_type_id ∷ int16_type_id ∷ int32_type_id
    ∷ int64_type_id ∷ int128_type_id ∷ uint8_type_id ∷ uint16_type_id ∷ uint32_type_id
    ∷ uint64_type_id ∷ uint128_type_id ∷ float16_type_id ∷ float32_type_id ∷ float64_type_id
    ∷ float128_type_id ∷ complex_float32_type_id ∷ complex_float64_type_id ∷ void_type_id ∷ []

abbrev id_of_value : ℕ → TypeId
id_of_value n = get_or builtin_types n void_type_id

id_of_value-type_id_value : (a : TypeId) → id_of_value (type_id_value a) ≡ a
id_of_value-type_id_value uninitialized_type_id = refl
id_of_value-type_id_value bool_type_id = refl
id_of_value-type_id_value int8_type_id = refl
id_of_value-type_id_value int16_type_id = refl
id_of_value-type_id_value int32_type_id = refl
id_of_value-type_id_value int64_type_id = refl
id_of_value-type_id_value int128_type_id = refl
id_of_value-type_id_value uint8_type_id = refl
id_of_value-type_id_value uint16_type_id = refl
id_of_value-type_id_value uint32_type_id = refl
id_of_value-type_id_value uint64_type_id = refl
id_of_value-type_id_value uint128_type_id = refl
id_of_value-type_id_value float16_type_id = refl
id_of_value-type_id_value float32_type_id = refl
id_of_value-type_id_value float64_type_id = refl
id_of_value-type_id_value float128_type_id = refl
id_of_value-type_id_value complex_float32_type_id = refl
id_of_value-type_id_value complex_float64_type_id = refl
id_of_value-type_id_value void_type_id = refl

pub type_id_value-lt : (a : TypeId) → type_id_value a < 19
type_id_value-lt uninitialized_type_id = omega arith
type_id_value-lt bool_type_id = omega arith
type_id_value-lt int8_type_id = omega arith
type_id_value-lt int16_type_id = omega arith
type_id_value-lt int32_type_id = omega arith
type_id_value-lt int64_type_id = omega arith
type_id_value-lt int128_type_id = omega arith
type_id_value-lt uint8_type_id = omega arith
type_id_value-lt uint16_type_id = omega arith
type_id_value-lt uint32_type_id = omega arith
type_id_value-lt uint64_type_id = omega arith
type_id_value-lt uint128_type_id = omega arith
type_id_value-lt float16_type_id = omega arith
type_id_value-lt float32_type_id = omega arith
type_id_value-lt float64_type_id = omega arith
type_id_value-lt float128_type_id = omega arith
type_id_value-lt complex_float32_type_id = omega arith
type_id_value-lt complex_float64_type_id = omega arith
type_id_value-lt void_type_id = omega arith

pub eq_of_type_id_value : (a b : TypeId) → type_id_value a ≡ type_id_value b → a ≡ b
eq_of_type_id_value a b h =
    sym (id_of_value-type_id_value a) ∙ (ap id_of_value h ∙ id_of_value-type_id_value b)

-- A test that every built-in type passes.
abbrev pub every_id : (TypeId → Bool) → Bool
every_id test = accepts_up_to (λ n. test (id_of_value n)) 19

pub every_id-at : (test : TypeId → Bool) → every_id test ≡ true → (a : TypeId) → test a ≡ true
every_id-at test h a =
    subst (λ b. test b ≡ true) (id_of_value-type_id_value a)
      (accepts_up_to-at (λ n. test (id_of_value n)) 19 (type_id_value a) (type_id_value-lt a) h)
