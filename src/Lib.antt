-- ===== src/Lib.antt =====
-- Calendar, text, index, shape and promotion arithmetic of libdynd, the C++ library of dynamic
-- multidimensional arrays, with its 128-bit integers and the memory blocks of its variable-sized
-- data, its JSON and the programs of its virtual machine: the functions on which its types, arrays
-- and kernels stand.
--
-- The parts, and how they meet. A date is kept as days since 1970, and a time of day as ticks of
-- 100 nanoseconds, and a datetime is both; their types convert between the count, the fields and
-- text. The texts are read by parsers that stand on the scanning primitives of `parser_util`, which
-- also turns digits into machine integers, up to those of 128 bits. An array is indexed by ranges,
-- one for each dimension, and each is turned into a start, a stride and a size; arrays of different
-- shapes are brought together by broadcasting their shapes and strides, and a result takes its axis
-- order from the strides of the operands. The value type of an arithmetic result comes from the
-- promotion of the types of its operands. Elements of variable size stand in memory blocks that
-- grow. Arrays are put out as JSON and read from it, on the same scanning primitives.
--
-- Common (with Tests, Lists and Int): the native numbers with their Boolean tests, lists measured
--   by them, and C's signed integers. An integer of C is an exact integer `ℤ`; `narrow half`
--   converts it to a narrower signed type and wraps around, for the `int8_t`, `int16_t` and
--   `int32_t` fields of a struct. C++ leaves an overflow of `int`, `int64_t` or `intptr_t` undefined.
--   In the steps of ranges, in the weekday of a date, in counts of ticks and in the lines and columns
--   of a report, sums wrap around here as well, and the theorems say for which inputs they do not.
--   Sums of indices and sizes of arrays in memory, and of an index with 1, are exact.
-- Date: `date_ymd` of include/dynd/types/date_util.hpp and src/dynd/types/date_util.cpp, function
--   by function: `is_leap_year`, `is_valid`, `get_month_length`, `to_days`, `set_from_days`,
--   `get_weekday`, `get_day_of_year`. The nested blocks of `set_from_days` are `split_400_years`,
--   `split_100_years`, `split_4_years` and `set_month_day`. The children treat the cycle of 400
--   years (Cycle, Days), the months (Month), both together (Split, RoundTrip), the length of a year
--   (Years) and the days of the week (Week). Text is `to_str`, Century the years of two digits,
--   whose clock is a parameter, and Ticks the dates of counts of ticks. Parser is
--   src/dynd/types/date_parser.cpp, each function of it: its own file has what the formats share
--   and ISO 8601, Formats the other formats and Whole the entry points. A format is true, false or
--   an exception of a century window, as `Match` says. TextRoundTrip, Accepted and Valid carry the
--   proofs.
-- Time: `time_hmst` of include/dynd/types/time_util.hpp and src/dynd/types/time_util.cpp; Text is
--   its `to_str` and Parser is src/dynd/types/time_parser.cpp, each function of it. The loop
--   over the digits of a fraction of a second has fuel 7: its divisor begins with 1000000 and loses
--   a digit in every round. Ticks, Fraction and TextRoundTrip carry the proofs.
-- Datetime: `datetime_struct` of include/dynd/types/datetime_util.hpp and
--   src/dynd/types/datetime_util.cpp, a date beside a time; Parser is
--   src/dynd/types/datetime_parser.cpp, on the parsers of both, where what a variable holds before
--   it is written is a parameter. Ticks and TextRoundTrip carry the proofs.
-- Parse: the scanning primitives of include/dynd/parser_util.hpp and src/dynd/parser_util.cpp. A
--   pair of pointers is the list of the bytes between them, and a function that moves the first
--   pointer gives back the rest. Integers has the templates that convert texts to integers, with
--   the number of values of the type for its width; IntegerLaws has their proofs. Strings has the
--   scans of names and of quoted strings and `unescape_string`, with `append_utf8_codepoint` as a
--   parameter; a loop that the source runs over the digits of an escape is a place of the loop over
--   the string. Numbers is the scan of JSON numbers. Names and StringLaws have the proofs.
-- Json: texts of JSON. Skip is `skip_json_value` and `validate_json` of src/dynd/json_parser.cpp on
--   lists of bytes, without the position that a `parse_error` carries. Its calls of itself have
--   fuel, 4 times the length of the text and 2 more: no more than 4 calls stand between two bytes
--   that are taken. Position is the rest of the report, `get_error_line_column` and
--   `print_json_parse_error_marker`, with the position as an argument. Format is
--   src/dynd/json_formatter.cpp on the values that it finds in an array, with the UTF-8 of a code
--   point as a parameter. The other children carry the proofs: StringShapes, StringScans,
--   StringAppends and StringRoundTrip those on strings, NumberLaws, Scalars, Arrays, Objects and
--   RoundTrip those on values, Lengths and Fuel that on the fuel.
-- Float16: the conversions of src/dynd/float16.cpp between half floats and floats, on the bits of
--   both. The loop that normalizes a significand has fuel 9, as many shifts as the least of 10 bits
--   needs. Bits, Single and Double carry the proofs of the conversion there and back, and Rounding
--   those of rounding.
-- Float128: the constructors of src/dynd/float128.cpp for unsigned integers up to 32 bits, on the
--   bits of a quadruple float; LeadingZeros and Exponent carry the proofs.
-- Promotion: `promote_types_arithmetic` of src/dynd/type_promotion.cpp, over a data type of types,
--   with the tables of src/dynd/types/base_type.cpp in BuiltinTypes. The recursion has fuel, one
--   more than the depths of the two types. Symmetry, Numbers and Depth carry the proofs.
-- Index: `class irange` of include/dynd/irange.hpp and `apply_single_linear_index` of
--   src/dynd/shape_tools.cpp; Forward, Backward and Bounds treat its branches, ForwardSlice and
--   BackwardSlice the slices of the first two, and Notation the operators of the class.
-- Shape: broadcasting, of src/dynd/shape_tools.cpp: `shape_can_broadcast`, `broadcast_to_shape`,
--   `incremental_broadcast` and `broadcast_input_shapes`. AxisPerm has its functions on axis
--   permutations. Strides, Merge, Inputs and the children of AxisPerm carry the proofs.
-- Wide: the 128-bit integers. Uint128 is `class uint128` of include/dynd/uint128.hpp and
--   src/dynd/uint128.cpp, two words of 64 bits; Int128 is `class int128` of include/dynd/int128.hpp
--   and src/dynd/int128.cpp, on the same two words, where a self-call of the product or the quotient
--   on a negated operand spends one of 4 units of fuel. Print is `operator<<`, whose buffer of
--   digits bounds its loop. Arith and Signed have the proofs.
-- Memblock: the memory blocks that give out parts of larger pieces of memory. Pod is
--   src/dynd/memblock/pod_memory_block.cpp, where the state is the block's fields beside an explicit
--   heap, `malloc` is a parameter that may fail and 0 is the null pointer; Zeroinit is
--   src/dynd/memblock/zeroinit_memory_block.cpp and runs the same operations. Pod's children Calls,
--   History and Lifetime run sequences of calls; Heap, Ranges, Separate and Owned carry the proofs,
--   and Contents treats what the bytes hold.
-- Vm: the element-wise virtual machine: `validate_elwise_program` of src/dynd/vm/elwise_program.cpp,
--   whose loop has one more unit of fuel than the program has numbers. Class is the class of
--   include/dynd/vm/elwise_program.hpp with its `debug_print`, where `none` is a read out of bounds,
--   and Registers the constructor of src/dynd/vm/register_allocation.cpp. Instructions, Programs and
--   Printed carry the proofs.
-- The modules called Tests that stand below a component run its functions on concrete values.
--
-- Not modelled: the objects of types, arrays, arrfuncs and kernels, which are virtual dispatch,
-- reference counts and raw memory; the code generator, which emits machine code; the system clock;
-- the arithmetic of floating-point numbers; the vendored libraries for UTF-8, dates and special
-- functions; the parsers of JSON into arrays and of datashapes, and the memory blocks that keep
-- arrays. Texts that a function only puts into an exception are left out.
pub mod Common
pub mod Date
pub mod Datetime
pub mod Json
pub mod Memblock
pub mod Parse
pub mod Promotion
pub mod Time
pub mod Vm
pub mod Wide
pub mod Float128
pub mod Float16
pub mod Index
pub mod Shape
