-- ===== src/Promotion.antt =====
-- Type promotion for arithmetic, of src/dynd/type_promotion.cpp, with the built-in type ids of
-- include/dynd/types/type_id.hpp and their tables in src/dynd/types/base_type.cpp, where `int` has 4
-- bytes. A type that the promotion tells apart has a constructor; every other one, a date or a
-- struct for example, is `other_type` with a number for its identity; symbolic types, which are the
-- patterns of signatures, are left out. A `type_error` is `none`.
mod BuiltinTypes
mod Depth
mod Numbers
mod Symmetry
mod Tests
unfoldable pub use BuiltinTypes.*
use libdynd.Common.{
  ℕ, zero, suc, ◌+◌, Bool, true, false, ◌&&◌, ◌||◌, Option, none, some, leb, ltb, ◌==◌,
  if◌then◌else◌,
}

abbrev pub int_size : ℕ
int_size = 4

abbrev pub eq_id : TypeId → TypeId → Bool
eq_id a b = type_id_value a == type_id_value b

-- `std::max` of two type ids: the first, unless it is less.
abbrev pub max_id : TypeId → TypeId → TypeId
max_id a b = if ltb (type_id_value a) (type_id_value b) then b else a

-- A type that is at least as large as `int`, or else `int`.
abbrev pub at_least_int : TypeId → TypeId
at_least_int a = if leb int_size (data_size a) then a else int32_type_id

abbrev pub at_least_float32 : TypeId → TypeId
at_least_float32 a = if eq_id a float16_type_id then float32_type_id else a

abbrev pub both_small : TypeId → TypeId → Bool
both_small a b = ltb (data_size a) int_size && ltb (data_size b) int_size

-- The larger of two types, the first of two that are of one size.
abbrev pub first_larger : TypeId → TypeId → TypeId
first_larger a b = if leb (data_size b) (data_size a) then a else b

-- The larger of two types, the second of two that are of one size.
abbrev pub second_larger : TypeId → TypeId → TypeId
second_larger a b = if ltb (data_size b) (data_size a) then a else b

-- The switch over the kind of the second type where the first is a Boolean. The switches have no
-- case for the error of a kind that no built-in type has.
unfoldable pub promote_bool : TypeId → TypeId → TypeKind → TypeId
promote_bool a b bool_kind = int32_type_id
promote_bool a b sint_kind = at_least_int b
promote_bool a b uint_kind = at_least_int b
promote_bool a b void_kind = a
promote_bool a b real_kind = at_least_float32 b
promote_bool a b complex_kind = b

unfoldable pub promote_sint : TypeId → TypeId → TypeKind → TypeId
promote_sint a b bool_kind = at_least_int a
promote_sint a b sint_kind = if both_small a b then int32_type_id else first_larger a b
promote_sint a b uint_kind = if both_small a b then int32_type_id else second_larger a b
promote_sint a b real_kind = at_least_float32 b
promote_sint a b complex_kind = b
promote_sint a b void_kind = a

unfoldable pub promote_uint : TypeId → TypeId → TypeKind → TypeId
promote_uint a b bool_kind = at_least_int a
promote_uint a b sint_kind = if both_small a b then int32_type_id else first_larger a b
promote_uint a b uint_kind = if both_small a b then int32_type_id else first_larger a b
promote_uint a b real_kind = at_least_float32 b
promote_uint a b complex_kind = b
promote_uint a b void_kind = a

unfoldable pub promote_real : TypeId → TypeId → TypeKind → TypeId
promote_real a b real_kind = max_id (max_id a b) float32_type_id
promote_real a b complex_kind =
    if eq_id a float64_type_id && eq_id b complex_float32_type_id
    then complex_float64_type_id
    else b
promote_real a b kind = a

unfoldable pub promote_complex : TypeId → TypeId → TypeKind → TypeId
promote_complex a b complex_kind = first_larger a b
promote_complex a b void_kind = a
promote_complex a b kind =
    if eq_id a complex_float32_type_id && eq_id b float64_type_id
    then complex_float64_type_id
    else a

-- The switch over the kind of the first type.
unfoldable pub promote_kinds : TypeId → TypeId → TypeKind → TypeId
promote_kinds a b bool_kind = promote_bool a b (kind_of b)
promote_kinds a b sint_kind = promote_sint a b (kind_of b)
promote_kinds a b uint_kind = promote_uint a b (kind_of b)
promote_kinds a b real_kind = promote_real a b (kind_of b)
promote_kinds a b complex_kind = promote_complex a b (kind_of b)
promote_kinds a b void_kind = b

-- The promotion of two built-in types.
unfoldable pub promote_builtin : TypeId → TypeId → TypeId
promote_builtin a b = promote_kinds a b (kind_of a)

pub data StringEncoding : Type 0 where
  ascii ucs_2 utf_8 utf_16 utf_32 latin1 invalid : StringEncoding

pub data NdtType : Type 0 where
  builtin : TypeId → NdtType
  string_type : (encoding : StringEncoding) → NdtType
  fixed_string_type : (size : ℕ) (encoding : StringEncoding) → NdtType
  json_type : NdtType
  type_type : NdtType
  option_type : (value : NdtType) → NdtType
  var_dim_type : (element : NdtType) → NdtType
  fixed_dim_type : (size : ℕ) (element : NdtType) → NdtType
  expr_type : (value operand : NdtType) → NdtType
  other_type : (identity : ℕ) → NdtType

-- `get_type_id`, an expression as `convert_type_id`, and a number past the enumeration for a type
-- that the promotion does not tell apart.
unfoldable pub get_type_id : NdtType → ℕ
get_type_id (builtin a) = type_id_value a
get_type_id (string_type encoding) = 24
get_type_id (fixed_string_type size encoding) = 25
get_type_id json_type = 31
get_type_id (fixed_dim_type size element) = 32
get_type_id (var_dim_type element) = 34
get_type_id (option_type value) = 38
get_type_id (expr_type value operand) = 44
get_type_id type_type = 53
get_type_id (other_type identity) = 101 + identity

abbrev pub is_builtin : NdtType → Bool
is_builtin t = ltb (get_type_id t) 19

-- `string_type_id` or `fixed_string_type_id`.
abbrev pub is_string : NdtType → Bool
is_string t = (get_type_id t == 24) || (get_type_id t == 25)

-- The types of `string_kind`.
abbrev pub is_string_kind : NdtType → Bool
is_string_kind t = is_string t || (get_type_id t == 31)

-- The types of `dim_kind`.
abbrev pub is_dim_kind : NdtType → Bool
is_dim_kind t = (get_type_id t == 32) || (get_type_id t == 34)

unfoldable pub value_type : NdtType → NdtType
value_type (expr_type value operand) = value
value_type t = t

-- `option_type::get_value_type`, of an option only.
unfoldable pub option_value : NdtType → NdtType
option_value (option_type value) = value
option_value t = t

-- `base_dim_type::get_element_type`, of a dimension only.
unfoldable pub element_type : NdtType → NdtType
element_type (var_dim_type element) = element
element_type (fixed_dim_type size element) = element
element_type t = t

-- A type made of the promoted one, unless the promotion throws.
abbrev pub make : (NdtType → NdtType) → Option NdtType → Option NdtType
make outer none = none
make outer (some t) = some (outer t)

-- The rest of the function, from types and texts on. `rec` is the function itself.
unfoldable pub promote_rest :
    (NdtType → NdtType → Option NdtType) → NdtType → NdtType → Option NdtType
promote_rest rec t u =
    if (get_type_id t == 53) && is_string_kind u
    then some t
    else if is_string_kind t && (get_type_id u == 53)
    then some u
    else if get_type_id t == 18
    then some u
    else if get_type_id u == 18
    then some t
    else if ((get_type_id t == 34) && is_dim_kind u) || ((get_type_id u == 34) && is_dim_kind t)
    then make var_dim_type (rec (element_type t) (element_type u))
    else none

-- What follows the promotion of two built-in types.
unfoldable pub promote_extended :
    (NdtType → NdtType → Option NdtType) → NdtType → NdtType → Option NdtType
promote_extended rec t u =
    if is_string t && is_string u
    then some (string_type utf_8)
    else if get_type_id t == 38
    then (if get_type_id u == 38
        then make option_type (rec (option_value t) (option_value u))
        else make option_type (rec (option_value t) u))
    else if get_type_id u == 38
    then make option_type (rec t (option_value u))
    else promote_rest rec t u

-- The function on two value types.
unfoldable pub promote_values :
    (NdtType → NdtType → Option NdtType) → NdtType → NdtType → Option NdtType
promote_values rec (builtin a) (builtin b) = some (builtin (promote_builtin a b))
promote_values rec t u = promote_extended rec t u

-- The function for types within each other to a depth of `fuel`.
unfoldable pub promote_within : ℕ → NdtType → NdtType → Option NdtType
promote_within zero t u = none
promote_within (suc fuel) t u = promote_values (promote_within fuel) (value_type t) (value_type u)

-- How many types stand within each other.
unfoldable pub depth : NdtType → ℕ
depth (option_type value) = suc (depth value)
depth (var_dim_type element) = suc (depth element)
depth (fixed_dim_type size element) = suc (depth element)
depth (expr_type value operand) = depth value
depth t = 0

unfoldable pub promote_types_arithmetic : NdtType → NdtType → Option NdtType
promote_types_arithmetic t u = promote_within (suc (depth t + depth u)) t u
