-- ===== src/Promotion/Tests.antt =====
-- Type promotion run on concrete types.
use libdynd.Common.{true, ◌≡◌, refl, none, some}
use libdynd.Promotion.{
  NdtType, ascii, utf_8, utf_16, builtin, string_type, fixed_string_type, option_type, var_dim_type,
  fixed_dim_type, promote_types_arithmetic, promote_within, promote_values, promote_extended,
  promote_rest, promote_builtin, promote_kinds, promote_bool, promote_sint, promote_uint,
  promote_real, promote_complex, value_type, option_value, element_type, get_type_id, depth,
}
use libdynd.Promotion.BuiltinTypes.{
  bool_type_id, int16_type_id, int32_type_id, uint32_type_id, float16_type_id, float32_type_id,
  float64_type_id, float128_type_id, complex_float32_type_id, complex_float64_type_id, data_size,
}
use libdynd.Promotion.Numbers.{
  is_integer, is_uint, promote_builtin-is_integer, common_size, unsigned_wins,
}
use libdynd.Promotion.Symmetry.{is_regular_type, promote_types_arithmetic_comm}

methods : Unit {0}
unfolding promote_types_arithmetic promote_within promote_values promote_extended promote_rest
    promote_builtin promote_kinds promote_bool promote_sint promote_uint promote_real
    promote_complex value_type option_value element_type get_type_id depth is_regular_type
methods = tt

-- A fixed dimension of optional integers.
abbrev integers : NdtType
integers = fixed_dim_type 3 (option_type (builtin int16_type_id))

abbrev floats : NdtType
floats = var_dim_type (builtin float64_type_id)

dimensions_with_option :
    promote_types_arithmetic integers floats
    ≡ some (var_dim_type (option_type (builtin float64_type_id)))
unfolding methods
dimensions_with_option = refl

two_strings :
    promote_types_arithmetic (string_type utf_16) (fixed_string_type 7 ascii)
    ≡ some (string_type utf_8)
unfolding methods
two_strings = refl

string_and_number : promote_types_arithmetic (string_type utf_8) (builtin int32_type_id) ≡ none
unfolding methods
string_and_number = refl

-- The promotion of three types depends on the order in which they are taken.
complex_and_wide :
    promote_builtin (promote_builtin complex_float32_type_id float128_type_id) float64_type_id
    ≡ complex_float64_type_id
unfolding methods
complex_and_wide = refl

wide_and_double :
    promote_builtin complex_float32_type_id (promote_builtin float128_type_id float64_type_id)
    ≡ complex_float32_type_id
unfolding methods
wide_and_double = refl

promote_types_arithmetic_comm_example :
    promote_types_arithmetic integers floats ≡ promote_types_arithmetic floats integers
unfolding methods
promote_types_arithmetic_comm_example = promote_types_arithmetic_comm integers floats refl refl

promote_builtin-is_integer_example :
    (is_integer (promote_builtin bool_type_id uint32_type_id) ≡ true)
    × (data_size (promote_builtin bool_type_id uint32_type_id)
        ≡ common_size bool_type_id uint32_type_id)
    × (is_uint (promote_builtin bool_type_id uint32_type_id)
        ≡ unsigned_wins bool_type_id uint32_type_id)
promote_builtin-is_integer_example =
    promote_builtin-is_integer bool_type_id uint32_type_id refl refl

half_float_before : promote_builtin float16_type_id int32_type_id ≡ float16_type_id
unfolding methods
half_float_before = refl

half_float_after : promote_builtin int32_type_id float16_type_id ≡ float32_type_id
unfolding methods
half_float_after = refl
