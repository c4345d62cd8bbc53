-- ===== src/Promotion/Symmetry.antt =====
-- The promotion is symmetric but for half floats.
use libdynd.Common.{
  ℕ, zero, suc, ◌+◌, ◌≡◌, ◌∙◌, refl, sym, ap, ap₂, implied, arith, Bool, true, false, ◌&&◌, ◌||◌,
  Option, some, not, accepts_up_to, ==_iff,
}
use libdynd.Promotion.{
  NdtType, builtin, string_type, fixed_string_type, json_type, type_type, option_type, var_dim_type,
  fixed_dim_type, expr_type, other_type, eq_id, promote_bool, promote_sint, promote_uint,
  promote_real, promote_complex, promote_kinds, promote_builtin, get_type_id, is_builtin,
  value_type, option_value, element_type, promote_rest, promote_extended, promote_values,
  promote_within, depth, promote_types_arithmetic,
}
use libdynd.Promotion.BuiltinTypes.{
  TypeId, uninitialized_type_id, float16_type_id, every_id, every_id-at, eq_of_type_id_value,
  type_id_value-lt,
}

-- A built-in type but the uninitialized one and the half float.
abbrev pub is_regular : TypeId → Bool
is_regular a = not (eq_id a uninitialized_type_id) && not (eq_id a float16_type_id)

abbrev commutes : TypeId → TypeId → Bool
commutes a b =
    not (is_regular a && is_regular b) || eq_id (promote_builtin a b) (promote_builtin b a)

commutes_everywhere : every_id (λ a. every_id (commutes a)) ≡ true
unfolding accepts_up_to promote_builtin promote_kinds promote_bool promote_sint promote_uint
    promote_real promote_complex
commutes_everywhere = refl

eq_id_sound : (a b : TypeId) → eq_id a b ≡ true → a ≡ b
eq_id_sound a b h = eq_of_type_id_value a b ((==_iff _ _).0 h)

promote_builtin_comm :
    (a b : TypeId)
    → is_regular a ≡ true
    → is_regular b ≡ true
    → promote_builtin a b ≡ promote_builtin b a
promote_builtin_comm a b ha hb =
    eq_id_sound (promote_builtin a b) (promote_builtin b a)
      (implied (is_regular a && is_regular b) _ commuting (ap₂ (λ x y. x && y) ha hb))
  where
    commuting : commutes a b ≡ true
    commuting =
        every_id-at (commutes a) (every_id-at (λ x. every_id (commutes x)) commutes_everywhere a) b

and_swap : (p q : Bool) → (p && q) ≡ false → (q && p) ≡ false
and_swap p q h = ground arith

and_false : (p : Bool) → (p && false) ≡ false
and_false p = ground arith

-- No half float and no uninitialized type stands in the type.
unfoldable pub is_regular_type : NdtType → Bool
is_regular_type (builtin a) = is_regular a
is_regular_type (option_type value) = is_regular_type value
is_regular_type (var_dim_type element) = is_regular_type element
is_regular_type (fixed_dim_type size element) = is_regular_type element
is_regular_type (expr_type value operand) = is_regular_type value
is_regular_type t = true

regular-element_type :
    (t : NdtType) → is_regular_type t ≡ true → is_regular_type (element_type t) ≡ true
unfolding element_type is_regular_type
regular-element_type (builtin a) h = h
regular-element_type (string_type enc) h = h
regular-element_type (fixed_string_type n enc) h = h
regular-element_type json_type h = h
regular-element_type type_type h = h
regular-element_type (option_type v) h = h
regular-element_type (var_dim_type v) h = h
regular-element_type (fixed_dim_type n v) h = h
regular-element_type (expr_type v o) h = h
regular-element_type (other_type n) h = h

regular-option_value :
    (t : NdtType) → is_regular_type t ≡ true → is_regular_type (option_value t) ≡ true
unfolding option_value is_regular_type
regular-option_value (builtin a) h = h
regular-option_value (string_type enc) h = h
regular-option_value (fixed_string_type n enc) h = h
regular-option_value json_type h = h
regular-option_value type_type h = h
regular-option_value (option_type v) h = h
regular-option_value (var_dim_type v) h = h
regular-option_value (fixed_dim_type n v) h = h
regular-option_value (expr_type v o) h = h
regular-option_value (other_type n) h = h

regular-value_type :
    (t : NdtType) → is_regular_type t ≡ true → is_regular_type (value_type t) ≡ true
unfolding value_type is_regular_type
regular-value_type (builtin a) h = h
regular-value_type (string_type enc) h = h
regular-value_type (fixed_string_type n enc) h = h
regular-value_type json_type h = h
regular-value_type type_type h = h
regular-value_type (option_type v) h = h
regular-value_type (var_dim_type v) h = h
regular-value_type (fixed_dim_type n v) h = h
regular-value_type (expr_type v o) h = h
regular-value_type (other_type n) h = h

abbrev IsSymmetric : (NdtType → NdtType → Option NdtType) → Type 0
IsSymmetric f =
    (t u : NdtType) → is_regular_type t ≡ true → is_regular_type u ≡ true → f t u ≡ f u t

module _ (rec : NdtType → NdtType → Option NdtType) (rec_comm : IsSymmetric rec) where
  promote_rest_comm :
      (t u : NdtType)
      → is_regular_type t ≡ true
      → is_regular_type u ≡ true
      → (is_builtin t && is_builtin u) ≡ false
      → promote_rest rec t u ≡ promote_rest rec u t
  unfolding promote_rest
  promote_rest_comm t u ht hu h = ground (
    arith,
    rec_comm (element_type t) (element_type u) (regular-element_type t ht)
        (regular-element_type u hu),
  )

  promote_extended_comm :
      (t u : NdtType)
      → is_regular_type t ≡ true
      → is_regular_type u ≡ true
      → (is_builtin t && is_builtin u) ≡ false
      → promote_extended rec t u ≡ promote_extended rec u t
  unfolding promote_extended
  promote_extended_comm t u ht hu h = ground (
    arith,
    promote_rest_comm t u ht hu h,
    rec_comm (option_value t) (option_value u) (regular-option_value t ht)
        (regular-option_value u hu),
    rec_comm (option_value t) u (regular-option_value t ht) hu,
    rec_comm t (option_value u) ht (regular-option_value u hu),
  )

  promote_values-promote_extended :
      (t u : NdtType)
      → (is_builtin t && is_builtin u) ≡ false
      → promote_values rec t u ≡ promote_extended rec t u
  unfolding promote_values get_type_id
  promote_values-promote_extended (builtin a) (builtin b) h =
      absurd (ground (arith, type_id_value-lt a, type_id_value-lt b))
  promote_values-promote_extended (builtin a) (string_type enc) h = refl
  promote_values-promote_extended (builtin a) (fixed_string_type n enc) h = refl
  promote_values-promote_extended (builtin a) json_type h = refl
  promote_values-promote_extended (builtin a) type_type h = refl
  promote_values-promote_extended (builtin a) (option_type v) h = refl
  promote_values-promote_extended (builtin a) (var_dim_type v) h = refl
  promote_values-promote_extended (builtin a) (fixed_dim_type n v) h = refl
  promote_values-promote_extended (builtin a) (expr_type v o) h = refl
  promote_values-promote_extended (builtin a) (other_type n) h = refl
  promote_values-promote_extended (string_type enc) u h = refl
  promote_values-promote_extended (fixed_string_type n enc) u h = refl
  promote_values-promote_extended json_type u h = refl
  promote_values-promote_extended type_type u h = refl
  promote_values-promote_extended (option_type v) u h = refl
  promote_values-promote_extended (var_dim_type v) u h = refl
  promote_values-promote_extended (fixed_dim_type n v) u h = refl
  promote_values-promote_extended (expr_type v o) u h = refl
  promote_values-promote_extended (other_type n) u h = refl

  extended_comm :
      (t u : NdtType)
      → is_regular_type t ≡ true
      → is_regular_type u ≡ true
      → (is_builtin t && is_builtin u) ≡ false
      → promote_values rec t u ≡ promote_values rec u t
  extended_comm t u ht hu h =
      promote_values-promote_extended t u h
      ∙ (promote_extended_comm t u ht hu h
          ∙ sym (promote_values-promote_extended u t (and_swap (is_builtin t) (is_builtin u) h)))

  promote_values_comm : IsSymmetric (promote_values rec)
  unfolding promote_values get_type_id is_regular_type
  promote_values_comm (builtin a) (builtin b) ha hb =
      ap (λ c. some (builtin c)) (promote_builtin_comm a b ha hb)
  promote_values_comm (builtin a) (string_type enc) ht hu =
      extended_comm (builtin a) (string_type enc) ht hu (and_false _)
  promote_values_comm (builtin a) (fixed_string_type n enc) ht hu =
      extended_comm (builtin a) (fixed_string_type n enc) ht hu (and_false _)
  promote_values_comm (builtin a) json_type ht hu =
      extended_comm (builtin a) json_type ht hu (and_false _)
  promote_values_comm (builtin a) type_type ht hu =
      extended_comm (builtin a) type_type ht hu (and_false _)
  promote_values_comm (builtin a) (option_type v) ht hu =
      extended_comm (builtin a) (option_type v) ht hu (and_false _)
  promote_values_comm (builtin a) (var_dim_type v) ht hu =
      extended_comm (builtin a) (var_dim_type v) ht hu (and_false _)
  promote_values_comm (builtin a) (fixed_dim_type n v) ht hu =
      extended_comm (builtin a) (fixed_dim_type n v) ht hu (and_false _)
  promote_values_comm (builtin a) (expr_type v o) ht hu =
      extended_comm (builtin a) (expr_type v o) ht hu (and_false _)
  promote_values_comm (builtin a) (other_type n) ht hu =
      extended_comm (builtin a) (other_type n) ht hu (ground arith)
  promote_values_comm (string_type enc) u ht hu = extended_comm (string_type enc) u ht hu refl
  promote_values_comm (fixed_string_type n enc) u ht hu =
      extended_comm (fixed_string_type n enc) u ht hu refl
  promote_values_comm json_type u ht hu = extended_comm json_type u ht hu refl
  promote_values_comm type_type u ht hu = extended_comm type_type u ht hu refl
  promote_values_comm (option_type v) u ht hu = extended_comm (option_type v) u ht hu refl
  promote_values_comm (var_dim_type v) u ht hu = extended_comm (var_dim_type v) u ht hu refl
  promote_values_comm (fixed_dim_type n v) u ht hu = extended_comm (fixed_dim_type n v) u ht hu refl
  promote_values_comm (expr_type v o) u ht hu = extended_comm (expr_type v o) u ht hu refl
  promote_values_comm (other_type n) u ht hu = extended_comm (other_type n) u ht hu (ground arith)

promote_within_comm : (fuel : ℕ) → IsSymmetric (promote_within fuel)
unfolding promote_within
promote_within_comm zero t u ht hu = refl
promote_within_comm (suc fuel) t u ht hu =
    promote_values_comm (promote_within fuel) (promote_within_comm fuel) (value_type t)
      (value_type u) (regular-value_type t ht) (regular-value_type u hu)

-- The order of two types does not change their promotion, nor whether it throws, if neither has a
-- half float or an uninitialized type in it.
pub promote_types_arithmetic_comm :
    (t u : NdtType)
    → is_regular_type t ≡ true
    → is_regular_type u ≡ true
    → promote_types_arithmetic t u ≡ promote_types_arithmetic u t
unfolding promote_types_arithmetic
promote_types_arithmetic_comm t u ht hu =
    promote_within_comm (suc (depth t + depth u)) t u ht hu
    ∙ ap (λ n. promote_within (suc n) u t) (omega arith)
