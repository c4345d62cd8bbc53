-- ===== src/Promotion/Numbers.antt =====
-- The promotion of the built-in types, by a test of every pair of them.
use libdynd.Common.{
  ℕ, ◌≡◌, arith, Bool, true, false, ◌&&◌, ◌||◌, not, ◌==◌, if◌then◌else◌, accepts_up_to, refl, max,
  ap₂, implied, ==_iff,
}
use libdynd.Promotion.{
  eq_id, promote_bool, promote_sint, promote_uint, promote_real, promote_complex, promote_kinds,
  promote_builtin, int_size,
}
use libdynd.Promotion.BuiltinTypes.{
  TypeId, bool_kind, sint_kind, uint_kind, kind_of, data_size, float16_type_id, float32_type_id,
  every_id, every_id-at, eq_of_type_id_value,
}

abbrev pub is_uint : TypeId → Bool
is_uint a = elim (kind_of a) [ uint_kind ↦ true | _ ↦ false ]

abbrev pub is_integer : TypeId → Bool
is_integer a = elim (kind_of a) [ sint_kind ↦ true | uint_kind ↦ true | _ ↦ false ]

-- A Boolean or an integer type.
abbrev pub is_integral : TypeId → Bool
is_integral a = elim (kind_of a) [ bool_kind ↦ true | _ ↦ is_integer a ]

-- The size of `int` or of the larger of two types.
abbrev pub common_size : TypeId → TypeId → ℕ
common_size a b = max int_size (max (data_size a) (data_size b))

-- An unsigned type of that size is one of the two.
abbrev pub unsigned_wins : TypeId → TypeId → Bool
unsigned_wins a b =
    (is_uint a && (data_size a == common_size a b))
    || (is_uint b && (data_size b == common_size a b))

abbrev pub eq_bool : Bool → Bool → Bool
eq_bool p q = if p then q else not q

eq_bool_sound : (p q : Bool) → eq_bool p q ≡ true → p ≡ q
eq_bool_sound p q h = ground arith

abbrev widens : TypeId → TypeId → Bool
widens a b =
    not (is_integral a && is_integral b)
    || (is_integer (promote_builtin a b)
        && (data_size (promote_builtin a b) == common_size a b)
        && eq_bool (is_uint (promote_builtin a b)) (unsigned_wins a b))

abbrev loses_half : TypeId → Bool
loses_half a =
    not (is_integral a)
    || (eq_id (promote_builtin float16_type_id a) float16_type_id
        && eq_id (promote_builtin a float16_type_id) float32_type_id)

widens_everywhere : every_id (λ a. every_id (widens a)) ≡ true
unfolding accepts_up_to promote_builtin promote_kinds promote_bool promote_sint promote_uint
    promote_real promote_complex
widens_everywhere = refl

loses_half_everywhere : every_id loses_half ≡ true
unfolding accepts_up_to promote_builtin promote_kinds promote_bool promote_sint promote_uint
    promote_real promote_complex
loses_half_everywhere = refl

and_left : (p q : Bool) → (p && q) ≡ true → p ≡ true
and_left p q h = ground arith

and_right : (p q : Bool) → (p && q) ≡ true → q ≡ true
and_right p q h = ground arith

-- Two Boolean or integer types are promoted to an integer type of the size of the larger, but of at
-- least that of `int`, which is unsigned exactly if one of them is unsigned and has that size.
pub promote_builtin-is_integer :
    (a b : TypeId)
    → is_integral a ≡ true
    → is_integral b ≡ true
    → (is_integer (promote_builtin a b) ≡ true)
      × (data_size (promote_builtin a b) ≡ common_size a b)
      × (is_uint (promote_builtin a b) ≡ unsigned_wins a b)
promote_builtin-is_integer a b ha hb = (
  and_left _ _ (and_left _ _ wide),
  (==_iff _ _).0 (and_right _ _ (and_left _ _ wide)),
  eq_bool_sound _ _ (and_right _ _ wide),
)
  where
    wide :
        (is_integer (promote_builtin a b)
          && (data_size (promote_builtin a b) == common_size a b)
          && eq_bool (is_uint (promote_builtin a b)) (unsigned_wins a b))
        ≡ true
    wide =
        implied (is_integral a && is_integral b) _
          (every_id-at (widens a) (every_id-at (λ x. every_id (widens x)) widens_everywhere a) b)
          (ap₂ (λ x y. x && y) ha hb)

-- A half float before a Boolean or an integer type is promoted to a half float, but after it to a
-- float of 32 bits.
pub promote_builtin-float16 :
    (a : TypeId)
    → is_integral a ≡ true
    → (promote_builtin float16_type_id a ≡ float16_type_id)
      × (promote_builtin a float16_type_id ≡ float32_type_id)
promote_builtin-float16 a h = (
  eq_of_type_id_value _ _ ((==_iff _ _).0 (and_left _ _ loss)),
  eq_of_type_id_value _ _ ((==_iff _ _).0 (and_right _ _ loss)),
)
  where
    loss :
        (eq_id (promote_builtin float16_type_id a) float16_type_id
          && eq_id (promote_builtin a float16_type_id) float32_type_id)
        ≡ true
    loss = implied (is_integral a) _ (every_id-at loses_half loses_half_everywhere a) h
