-- ===== src/Operator.antt =====
-- src/operator.h: the operators, each a 32-bit word with the fields of the header's layout, and the
-- macros that read the fields.
use phantomshell.Base.{ℕ, ◌+◌, ◌*◌, ◌/◌, ◌^◌, Bool, bit_and, bit_or, ◌==◌}

pub data Operator : Type 0 where
  post_increment post_decrement bitwise_not logical_not multiplication division : Operator
  addition subtraction assignment bitwise_shift_left bitwise_shift_right bitwise_and : Operator
  bitwise_or bitwise_xor equal_to not_equal_to greater_than less_than : Operator
  not_greater_than not_less_than logical_and logical_or logical_xor logical_implication : Operator
  ternary_conditional function_call subscript member_access unary_minus comma : Operator

abbrev pub op_unary : ℕ
op_unary = 0x00000000

abbrev pub op_binary : ℕ
op_binary = 0x40000000

abbrev pub op_ternary : ℕ
op_ternary = 0x80000000

abbrev pub op_type_incdec : ℕ
op_type_incdec = 0x00000000

abbrev pub op_type_bit : ℕ
op_type_bit = 0x01000000

abbrev pub op_type_arithm : ℕ
op_type_arithm = 0x02000000

abbrev pub op_type_prior : ℕ
op_type_prior = 0x03000000

abbrev pub op_type_comp : ℕ
op_type_comp = 0x04000000

abbrev pub op_type_logic : ℕ
op_type_logic = 0x05000000

abbrev pub op_type_access : ℕ
op_type_access = 0x06000000

abbrev pub op_type_other : ℕ
op_type_other = 0x07000000

abbrev pub op_assoc_ltr : ℕ
op_assoc_ltr = 0x00000

abbrev pub op_assoc_rtl : ℕ
op_assoc_rtl = 0x40000

abbrev pub op_arity_mask : ℕ
op_arity_mask = 0xc0000000

abbrev pub op_type_mask : ℕ
op_type_mask = 0x3f000000

abbrev pub op_precedence_mask : ℕ
op_precedence_mask = 0x00f80000

abbrev pub op_associativity_mask : ℕ
op_associativity_mask = 0x00040000

abbrev pub op_id_mask : ℕ
op_id_mask = 0x0000ffff

abbrev pub op_arity_shift : ℕ
op_arity_shift = 30

-- `OP_PRECED_0` to `OP_PRECED_15`.
abbrev pub op_preced : ℕ → ℕ
op_preced n = n * 2 ^ 20

-- The fields that the definition of an operator joins by `|`.
pub record Fields : Type 0 where
  pub arity : ℕ
  pub kind : ℕ
  pub precedence : ℕ
  pub associativity : ℕ
  pub id : ℕ

abbrev pub fields_of : ℕ → ℕ → ℕ → ℕ → ℕ → Fields
fields_of a t p s i = record {
  arity = a;
  kind = t;
  precedence = op_preced p;
  associativity = s;
  id = i;
}

unfoldable pub fields : Operator → Fields
fields post_increment = fields_of op_unary op_type_incdec 1 op_assoc_ltr 0x01
fields post_decrement = fields_of op_unary op_type_incdec 1 op_assoc_ltr 0x02
fields bitwise_not = fields_of op_unary op_type_bit 2 op_assoc_rtl 0x03
fields logical_not = fields_of op_unary op_type_logic 2 op_assoc_rtl 0x04
fields multiplication = fields_of op_binary op_type_arithm 3 op_assoc_ltr 0x05
fields division = fields_of op_binary op_type_arithm 3 op_assoc_ltr 0x06
fields addition = fields_of op_binary op_type_arithm 4 op_assoc_ltr 0x07
fields subtraction = fields_of op_binary op_type_arithm 4 op_assoc_ltr 0x08
fields assignment = fields_of op_binary op_type_arithm 14 op_assoc_rtl 0x09
fields bitwise_shift_left = fields_of op_binary op_type_bit 5 op_assoc_ltr 0x0a
fields bitwise_shift_right = fields_of op_binary op_type_bit 5 op_assoc_ltr 0x0b
fields bitwise_and = fields_of op_binary op_type_bit 8 op_assoc_ltr 0x0c
fields bitwise_or = fields_of op_binary op_type_bit 9 op_assoc_ltr 0x0d
fields bitwise_xor = fields_of op_binary op_type_bit 9 op_assoc_ltr 0x0e
fields equal_to = fields_of op_binary op_type_comp 7 op_assoc_ltr 0x11
fields not_equal_to = fields_of op_binary op_type_comp 7 op_assoc_ltr 0x12
fields greater_than = fields_of op_binary op_type_comp 6 op_assoc_ltr 0x13
fields less_than = fields_of op_binary op_type_comp 6 op_assoc_ltr 0x14
fields not_greater_than = fields_of op_binary op_type_comp 6 op_assoc_ltr 0x15
fields not_less_than = fields_of op_binary op_type_comp 6 op_assoc_ltr 0x16
fields logical_and = fields_of op_binary op_type_logic 10 op_assoc_ltr 0x17
fields logical_or = fields_of op_binary op_type_logic 12 op_assoc_ltr 0x18
fields logical_xor = fields_of op_binary op_type_logic 11 op_assoc_ltr 0x19
fields logical_implication = fields_of op_binary op_type_logic 12 op_assoc_ltr 0x1a
fields ternary_conditional = fields_of op_ternary op_type_other 13 op_assoc_rtl 0x1b
fields function_call = fields_of op_binary op_type_other 2 op_assoc_ltr 0x1c
fields subscript = fields_of op_binary op_type_access 2 op_assoc_ltr 0x1d
fields member_access = fields_of op_binary op_type_access 2 op_assoc_ltr 0x1e
fields unary_minus = fields_of op_unary op_type_arithm 2 op_assoc_ltr 0x1f
fields comma = fields_of op_binary op_type_other 15 op_assoc_ltr 0x20

-- The `#define` of the operator.
unfoldable pub operator_word : Operator → ℕ
unfolding fields
operator_word o =
    let f = fields o in
    bit_or (bit_or (bit_or (bit_or f.arity f.kind) f.precedence) f.associativity) f.id

unfoldable pub operator_id : ℕ → ℕ
operator_id oper = bit_and oper op_id_mask

unfoldable pub is_ltr_associative : ℕ → Bool
is_ltr_associative oper = bit_and oper op_associativity_mask == op_assoc_ltr

unfoldable pub operator_arity : ℕ → ℕ
operator_arity oper = bit_and oper op_arity_mask / 2 ^ op_arity_shift + 1

unfoldable pub is_unary_operator : ℕ → Bool
unfolding operator_arity
is_unary_operator oper = operator_arity oper == 1

unfoldable pub is_binary_operator : ℕ → Bool
unfolding operator_arity
is_binary_operator oper = operator_arity oper == 2

unfoldable pub is_ternary_operator : ℕ → Bool
unfolding operator_arity
is_ternary_operator oper = operator_arity oper == 3

unfoldable pub is_arithmetic_operator : ℕ → Bool
is_arithmetic_operator oper = bit_and oper op_type_mask == op_type_arithm

unfoldable pub is_comparison_operator : ℕ → Bool
is_comparison_operator oper = bit_and oper op_type_mask == op_type_comp
