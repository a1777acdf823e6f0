-- ===== src/Compiler/Func.antt =====
-- src/compiler_func.c: the descriptions of functions and their compilation; src/compiler.c: what
-- `compiler_compile_impl` makes of a node of the root. A null map is `none`. The keys of the maps are the
-- texts that they point at. `calloc` says which tables can be allocated.
use phantomshell.Base.{
  ℕ, ◌+◌, ◌/◌, ◌%◌, ◌^◌, Bool, Option, none, some, List, [], ◌∷◌, ◌++◌, length, ltb, if◌then◌else◌,
}
use phantomshell.Ast.{Stat, DeclVar, DeclFunc}
use phantomshell.Hashmap.{
  Hashmap, Status, map_ok, map_nomem, map_miss, hashmap_new, hashmap_get, hashmap_put,
}
use phantomshell.Vm.{Fault, Run, ok, fault}
use phantomshell.Vm.Pool.{ConstPool, Functions, vm_register_constant, vm_register_function}
use phantomshell.Compiler.Scope.{Scope, Compiled, done, frame_define_var}
use phantomshell.Compiler.ConstMap.{
  ConstMap, Indexed, indexed, bad_pointer, static_type_by_name, type_signature_by_name,
  const_pool_index_by_value, const_pool_register_value,
}
use phantomshell.Compiler.Stat.{Target, buffered, compile_statement, compile_scope}

-- `struct func_desc_t`, of which the number of the arguments is the length of their list.
pub record FuncDesc : Type 0 where
  pub args : List DeclVar
  pub ret_type : List ℕ
  pub signature : List ℕ

-- `global_func_map`, the map of the constants' indices, and what the machine keeps.
pub record Globals : Type 0 where
  pub global_func_map : Option (Hashmap (List ℕ) FuncDesc)
  pub const_map : ConstMap (List ℕ)
  pub consts : ConstPool
  pub functions : Functions

-- What the compilation of a function does: it returns 0 and leaves the global state; or it ends in
-- `compiler_panic`, in undefined behaviour or in a fault of the machine. `starved` means that the fuel of
-- the model ran out.
pub data FuncResult : Type 0 where
  compiled : Globals → FuncResult
  panicked undefined_behaviour starved : FuncResult
  faulted : Fault → FuncResult

abbrev pub text_key : List ℕ → List ℕ
text_key s = s

-- The size of `signature_buffer`.
abbrev pub signature_size : ℕ
signature_size = 1536

-- `strcpy` to the end of the buffer.
unfoldable pub put_text : List ℕ → List ℕ → (List ℕ → FuncResult) → FuncResult
put_text buffer s rest =
    if ltb signature_size (length buffer + length s + 1)
    then undefined_behaviour
    else rest (buffer ++ s)

-- The signatures of the types of the arguments.
unfoldable pub put_types : List DeclVar → List ℕ → (List ℕ → FuncResult) → FuncResult
unfolding put_text type_signature_by_name
put_types [] buffer rest = rest buffer
put_types (v ∷ args) buffer rest = elim (type_signature_by_name v.var_type) [
  | none ↦ panicked
  | some t ↦ put_text buffer t (λ longer. put_types args longer rest)
]

-- The text of the signature; a null return type is read by `strdup`.
unfoldable pub func_signature :
    List ℕ → List DeclVar → Option (List ℕ) → (List ℕ → List ℕ → FuncResult) → FuncResult
unfolding put_text put_types type_signature_by_name
func_signature name args ret_type rest = put_text [] name λ b0. put_text b0 (b'(' ∷ []) λ b1.
    put_types args b1 λ b2. put_text b2 (b')' ∷ []) λ b3. elim ret_type [
      | none ↦ undefined_behaviour
      | some ret ↦ elim (type_signature_by_name ret) [
        | none ↦ panicked
        | some t ↦ put_text b3 t (rest ret)
      ]
    ]

-- `func->...` is put into the map under the name.
abbrev pub after_define :
    Option (Status × Hashmap (List ℕ) FuncDesc)
    → Globals
    → FuncDesc
    → (FuncDesc → Globals → FuncResult)
    → FuncResult
after_define none g desc rest = starved
after_define (some (map_ok, m)) g desc rest = rest desc (record g { global_func_map = some m })
after_define (some (map_nomem, m)) g desc rest = panicked
after_define (some (map_miss, m)) g desc rest = panicked

abbrev pub unless_defined : Status × Option FuncDesc → FuncResult → FuncResult
unless_defined (map_miss, d) rest = rest
unless_defined (map_ok, d) rest = panicked
unless_defined (map_nomem, d) rest = panicked

-- The index that is written, or the 0 that it was set to.
abbrev pub found_index : Indexed (List ℕ) → ℕ
found_index (indexed st (some i) p) = i
found_index (indexed st none p) = 0
found_index bad_pointer = 0
found_index Indexed.stuck = 0

-- The arguments are the first variables of the function; `none` is a panic.
unfoldable pub define_args : List DeclVar → Scope → Option Scope
unfolding static_type_by_name frame_define_var
define_args [] s = some s
define_args (v ∷ args) s = elim (static_type_by_name v.var_type) [
  | none ↦ none
  | some t ↦ elim (frame_define_var s t v.var_name) [
    | none ↦ none
    | some (var, s') ↦ define_args args s'
  ]
]

abbrev pub func_scope : Scope
func_scope = record {
  vars = [];
  vars_cap = 128;
  vars_off = 0;
  vars_max_size = 0;
  parents = [];
  stack_size = 0;
  stack_max_size = 0;
  code = [];
}

-- `htobe16` of the two sizes, and the code.
unfoldable pub exec_data : ℕ → ℕ → List ℕ → List ℕ
exec_data vars_max stack_max body =
    (vars_max % 2 ^ 16 / 2 ^ 8)
    ∷ (vars_max % 2 ^ 16 % 2 ^ 8)
    ∷ (stack_max % 2 ^ 16 / 2 ^ 8)
    ∷ (stack_max % 2 ^ 16 % 2 ^ 8)
    ∷ body

-- `const_pool_register_value`, whose result is not looked at.
abbrev pub const_registered : Globals → Indexed (List ℕ) → (Globals → FuncResult) → FuncResult
const_registered g (indexed st i p) rest = rest (record g { const_map = p })
const_registered g bad_pointer rest = undefined_behaviour
const_registered g Indexed.stuck rest = starved

abbrev pub from_run {ℓ} : {A : Type ℓ} → Run A → (A → FuncResult) → FuncResult
from_run (ok a) rest = rest a
from_run (fault why) rest = faulted why
from_run Run.stuck rest = starved

abbrev pub from_body : Compiled → (Scope → FuncResult) → FuncResult
from_body (done ret s) rest = rest s
from_body Compiled.panic rest = panicked
from_body Compiled.undefined rest = undefined_behaviour
from_body Compiled.stuck rest = starved

module _ (calloc : ℕ → Bool) where
  -- `if (!global_func_map) global_func_map = hashmap_new();`
  unfoldable pub with_func_map : Globals → (Hashmap (List ℕ) FuncDesc → FuncResult) → FuncResult
  with_func_map g rest = elim g.global_func_map [
    | some m ↦ rest m
    | none ↦ elim (hashmap_new {V = FuncDesc} calloc) [
      | none ↦ undefined_behaviour
      | some m ↦ rest m
    ]
  ]

  abbrev pub lookup_in_map : Globals → Status × Option FuncDesc → Option ℕ
  lookup_in_map g (map_ok, some desc) =
      some (found_index (const_pool_index_by_value text_key calloc g.const_map desc.signature))
  lookup_in_map g (map_ok, none) = none
  lookup_in_map g (map_nomem, d) = none
  lookup_in_map g (map_miss, d) = none

  -- The index of the signature of a function, as a call reads it: `compiler_lookup_func_by_name`, of
  -- which `none` is the panic, and then `const_pool_index_by_value`, whose result is not looked at:
  -- the index stays 0 unless one is found.
  unfoldable pub function_index : Globals → List ℕ → Option ℕ
  function_index g name = elim g.global_func_map [
    | none ↦ none
    | some m ↦ lookup_in_map g (hashmap_get text_key m name)
  ]

module _ (calloc : ℕ → Bool) (fuel : ℕ) where
  -- `compiler_define_func`, and what follows it.
  unfoldable pub compiler_define_func :
      DeclFunc → Globals → (FuncDesc → Globals → FuncResult) → FuncResult
  unfolding with_func_map func_signature
  compiler_define_func f g rest = with_func_map calloc g λ m.
      unless_defined (hashmap_get text_key m f.name) (elim f.args [
        | none ↦ undefined_behaviour
        | some args ↦ func_signature f.name args f.ret_type λ ret signature.
            let desc : FuncDesc = record { args = args; ret_type = ret; signature = signature } in
            after_define (hashmap_put text_key calloc fuel m f.name desc) g desc rest
      ])

  -- The end of `compile_func`: the signature is registered as a constant of the compiler and of the
  -- machine, and the code as a function.
  unfoldable pub register_func : List ℕ → List ℕ → Globals → FuncResult
  unfolding const_pool_register_value vm_register_constant vm_register_function
  register_func signature bytecode g =
      const_registered g (const_pool_register_value text_key calloc fuel g.const_map signature)
        λ g1. from_run (vm_register_constant (length signature) signature g1.consts) λ r.
          from_run (vm_register_function calloc fuel r.0 bytecode r.1 g1.functions)
            λ h. compiled (record g1 { consts = r.1; functions = h.1 })

  -- `compile_func` in the root scope, with fuel for the expressions of the body.
  unfoldable pub compile_func : ℕ → DeclFunc → Globals → FuncResult
  unfolding compiler_define_func define_args compile_scope function_index exec_data register_func
  compile_func expr_fuel f g = compiler_define_func f g λ desc g1.
      elim (define_args desc.args func_scope) [
        | none ↦ panicked
        | some start ↦
            from_body
              (compile_scope (function_index calloc g1) expr_fuel (buffered 256) f.body start)
              λ s.
                register_func desc.signature (exec_data s.vars_max_size s.stack_max_size s.code) g1
      ]

-- A node that reaches the root: a statement, a function or another node.
pub data Node : Type 0 where
  node_stat : Stat → Node
  node_func : DeclFunc → Node
  node_other : Node

pub data RootResult : Type 0 where
  stat_result : Compiled → RootResult
  func_result : FuncResult → RootResult
  code_result : ℕ → RootResult

-- `COMPILE_UNEXPECTED_NODE`.
abbrev pub compile_unexpected_node : ℕ
compile_unexpected_node = 0x80

-- `compiler_compile_impl`, in the root scope with its emitter.
unfoldable pub compiler_compile_impl :
    (ℕ → Bool) → ℕ → ℕ → Target → Node → Globals → Scope → RootResult
unfolding compile_statement compile_func function_index
compiler_compile_impl calloc fuel expr_fuel target (node_stat stat) g s =
    stat_result (compile_statement (function_index calloc g) expr_fuel target stat s)
compiler_compile_impl calloc fuel expr_fuel target (node_func f) g s =
    func_result (compile_func calloc fuel expr_fuel f g)
compiler_compile_impl calloc fuel expr_fuel target node_other g s =
    code_result compile_unexpected_node
