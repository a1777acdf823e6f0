-- ===== src/Compiler/Recursion.antt =====
-- src/compiler_func.c beside src/compiler_expr.c: when a function is registered, and what a call of it
-- reads before and behind that.
use phantomshell.Base.{
  ℕ, ◌^◌, ◌<◌, ◌≡◌, refl, sym, ◌∙◌, Bool, Option, none, some, List, [], ◌∷◌, ◌++◌, length, drop,
  str_eq_refl,
}
use phantomshell.Ast.{DeclVar, DeclFunc}
use phantomshell.Hashmap.{Hashmap, Status, map_ok, map_nomem, map_miss, hashmap_get, hashmap_put}
use phantomshell.Hashmap.Overlay.{IsGood}
use phantomshell.Hashmap.Growth.{hashmap_put-get}
use phantomshell.Vm.{Run, ok, fault, stuck}
use phantomshell.Vm.Pool.{
  ConstPool, Functions, FuncHandle, vm_register_constant, vm_register_function,
}
use phantomshell.Compiler.ConstMap.{
  ConstMap, indexed, written, const_pool_index_by_value, const_pool_register-index,
}
use phantomshell.Compiler.Scope.{Scope, Compiled, done}
use phantomshell.Compiler.Stat.{buffered, compile_scope}
use phantomshell.Compiler.Func.{
  FuncDesc, Globals, FuncResult, compiled, panicked, text_key, func_signature, after_define,
  unless_defined, define_args, func_scope, exec_data, from_run, from_body, with_func_map,
  function_index, compiler_define_func, register_func, compile_func,
}
use phantomshell.Compiler.Register.{register-exec_data}

-- A run that ends in a registration: the function is registered with the index and the constants that
-- stand before it, and nothing else of the state is changed.
abbrev Registers : Globals → Globals → (ℕ × ConstPool → Run (FuncHandle × Functions)) → Type 0
Registers g g' next =
    (g'.global_func_map ≡ g.global_func_map)
    × (g'.const_map ≡ g.const_map)
    × (r : ℕ × ConstPool) × (h : FuncHandle) × (next r ≡ ok (h, g'.functions))

registered :
    (g g' : Globals) (r : Run (ℕ × ConstPool)) (next : ℕ × ConstPool → Run (FuncHandle × Functions))
    → from_run r
        (λ c. from_run (next c) (λ h. compiled (record g { consts = c.1; functions = h.1 })))
      ≡ compiled g'
    → Registers g g' next
registered g g' (fault why) next h = cc
registered g g' stuck next h = cc
registered g g' (ok c) next h =
    let (f, same_funcs, same_consts, at) = at_functions (next c) h in
    (same_funcs, same_consts, c, f, at)
  where
    at_functions :
        (r : Run (FuncHandle × Functions))
        → from_run r (λ f. compiled (record g { consts = c.1; functions = f.1 })) ≡ compiled g'
        → (f : FuncHandle) × (g'.global_func_map ≡ g.global_func_map)
          × (g'.const_map ≡ g.const_map)
          × (r ≡ ok (f, g'.functions))
    at_functions (fault why) e = cc
    at_functions stuck e = cc
    at_functions (ok f) e = (f.0, cc, cc, cc)

-- A constant that the map does not have.
unregistered :
    (calloc : ℕ → Bool) (p : ConstMap (List ℕ)) (c : Hashmap (List ℕ) ℕ) (s : List ℕ)
    → p.const_pool_map ≡ some c
    → hashmap_get text_key c s ≡ (map_miss, none)
    → const_pool_index_by_value text_key calloc p s
      ≡ indexed map_miss none (record p { const_pool_map = some c })
unfolding const_pool_index_by_value
unregistered calloc p c s map fresh = rw (map, fresh) refl

-- The registration of a function whose description stands in the map: a call of it reads the index 0
-- before, and the index that its signature has been given behind.
register_func_lem :
    (calloc : ℕ → Bool) (fuel : ℕ) (g g' : Globals) (m : Hashmap (List ℕ) FuncDesc)
    (c c' : Hashmap (List ℕ) ℕ) (name bytecode : List ℕ) (desc : FuncDesc)
    → g.global_func_map ≡ some m
    → hashmap_get text_key m name ≡ (map_ok, some desc)
    → g.const_map.const_pool_map ≡ some c
    → IsGood text_key c
    → g.const_map.const_pool_map_size < 2 ^ 16
    → hashmap_get text_key c desc.signature ≡ (map_miss, none)
    → hashmap_put text_key calloc fuel c desc.signature g.const_map.const_pool_map_size
      ≡ some (map_ok, c')
    → register_func calloc fuel desc.signature bytecode g ≡ compiled g'
    → (function_index calloc g name ≡ some 0)
      × (function_index calloc g' name ≡ some g.const_map.const_pool_map_size)
      × (r : ℕ × ConstPool) × (h : FuncHandle) × (vm_register_function calloc fuel r.0 bytecode r.1
            g.functions
          ≡ ok (h, g'.functions))
unfolding function_index register_func
register_func_lem calloc fuel g g' m c c' name bytecode desc here found map good small fresh put
      ends =
    let none_yet : written text_key calloc (hashmap_get text_key c desc.signature).1 ≡ 0 =
      rw fresh refl in
    let (p', at, index) =
      const_pool_register-index text_key calloc fuel g.const_map c c' desc.signature desc.signature
        map good small none_yet put (str_eq_refl desc.signature) in
    let unknown = unregistered calloc g.const_map c desc.signature map fresh in
    let ends' = rw at at ends in
    let (same_funcs, same_consts, r, h, last) =
      registered (record g { const_map = p' }) g'
        (vm_register_constant (length desc.signature) desc.signature g.consts)
        (λ r. vm_register_function calloc fuel r.0 bytecode r.1 g.functions) ends' in
    (
      rw (here, found, unknown) refl,
      rw (same_funcs, here, found, same_consts, index) refl,
      r,
      h,
      last,
    )

with_func_map_lem :
    (calloc : ℕ → Bool) (g : Globals) (m : Hashmap (List ℕ) FuncDesc)
    (rest : Hashmap (List ℕ) FuncDesc → FuncResult)
    → g.global_func_map ≡ some m
    → with_func_map calloc g rest ≡ rest m
unfolding with_func_map
with_func_map_lem calloc g m rest here = rw here refl

-- The definition of a function whose arguments are not null and whose signature is written.
define_func_lem :
    (calloc : ℕ → Bool) (fuel : ℕ) (f : DeclFunc) (g : Globals) (m : Hashmap (List ℕ) FuncDesc)
    (args : List DeclVar) (ret_type signature : List ℕ) (rest : FuncDesc → Globals → FuncResult)
    → f.args ≡ some args
    → ((next : List ℕ → List ℕ → FuncResult)
        → func_signature f.name args f.ret_type next ≡ next ret_type signature)
    → g.global_func_map ≡ some m
    → (let desc : FuncDesc = record { args = args; ret_type = ret_type; signature = signature } in
        unless_defined
          (hashmap_get text_key m f.name)
          (after_define (hashmap_put text_key calloc fuel m f.name desc) g desc rest))
      ≡ compiler_define_func calloc fuel f g rest
unfolding compiler_define_func
define_func_lem calloc fuel f g m args ret_type signature rest has_args text here =
    sym (with_func_map_lem calloc g m _ here ∙ simp (has_args, text))

-- A definition that is followed by something that ends well.
defined :
    (g g' : Globals) (desc : FuncDesc) (rest : FuncDesc → Globals → FuncResult)
    (known : Status × Option FuncDesc) (put : Option (Status × Hashmap (List ℕ) FuncDesc))
    → unless_defined known (after_define put g desc rest) ≡ compiled g'
    → (m' : Hashmap (List ℕ) FuncDesc) × (put ≡ some (map_ok, m'))
      × (rest desc (record g { global_func_map = some m' }) ≡ compiled g')
defined g g' desc rest (map_ok, d) put e = cc
defined g g' desc rest (map_nomem, d) put e = cc
defined g g' desc rest (map_miss, d) none e = cc
defined g g' desc rest (map_miss, d) (some (map_nomem, m')) e = cc
defined g g' desc rest (map_miss, d) (some (map_miss, m')) e = cc
defined g g' desc rest (map_miss, d) (some (map_ok, m')) e = (m', refl, e)

-- A body that is followed by something that ends well.
body_done :
    (b : Compiled) (rest : Scope → FuncResult) (g' : Globals)
    → from_body b rest ≡ compiled g'
    → (ret : ℕ) × (s : Scope) × (b ≡ done ret s) × (rest s ≡ compiled g')
body_done (done ret s) rest g' e = (ret, s, refl, e)
body_done Compiled.panic rest g' e = cc
body_done Compiled.undefined rest g' e = cc
body_done Compiled.stuck rest g' e = cc

args_defined :
    (start : Option Scope) (rest : Scope → FuncResult) (g' : Globals)
    → (elim start as (λ x. FuncResult) [ none ↦ panicked | some s ↦ rest s ]) ≡ compiled g'
    → (s : Scope) × (start ≡ some s) × (rest s ≡ compiled g')
args_defined none rest g' e = cc
args_defined (some s) rest g' e = (s, refl, e)

-- When a function is registered. If `compile_func` returns, it has compiled the body with the description
-- of the function in the map of functions, and a call of the function in its own body has read the
-- index 0, since its signature was not yet registered; the code of the body is that of one new
-- function behind the others; and only now a call of the function reads the index that the signature
-- has been given. The maps are in order, the arguments are not null and the signature is written
-- within its buffer, fewer than 2 ^ 16 constants are counted, the signature is not among them, and its
-- put answers `_MAP_OK`.
pub compile_func-function_index :
    (calloc : ℕ → Bool) (fuel expr_fuel : ℕ) (f : DeclFunc) (g g' : Globals)
    (m : Hashmap (List ℕ) FuncDesc) (c c' : Hashmap (List ℕ) ℕ) (args : List DeclVar)
    (ret_type signature : List ℕ)
    → f.args ≡ some args
    → ((rest : List ℕ → List ℕ → FuncResult)
        → func_signature f.name args f.ret_type rest ≡ rest ret_type signature)
    → g.global_func_map ≡ some m
    → IsGood text_key m
    → g.const_map.const_pool_map ≡ some c
    → IsGood text_key c
    → g.const_map.const_pool_map_size < 2 ^ 16
    → hashmap_get text_key c signature ≡ (map_miss, none)
    → hashmap_put text_key calloc fuel c signature g.const_map.const_pool_map_size
      ≡ some (map_ok, c')
    → compile_func calloc fuel expr_fuel f g ≡ compiled g'
    → (g1 : Globals) × (start s : Scope) × (ret : ℕ) × (h : FuncHandle) × (define_args args
          func_scope
        ≡ some start)
      × (compile_scope (function_index calloc g1) expr_fuel (buffered 256) f.body start
          ≡ done ret s)
      × (function_index calloc g1 f.name ≡ some 0)
      × (g'.functions.funcs ≡ g.functions.funcs ++ (h ∷ []))
      × (drop 4 h.bytecode_data ≡ s.code)
      × (function_index calloc g' f.name ≡ some g.const_map.const_pool_map_size)
unfolding compile_func
compile_func-function_index calloc fuel expr_fuel f g g' m c c' args ret_type signature has_args
      text here good_m map good small fresh put e =
    let desc : FuncDesc = record { args = args; ret_type = ret_type; signature = signature } in
    let behind_body = λ (d : FuncDesc) (g1 : Globals) (s : Scope).
      register_func calloc fuel d.signature (exec_data s.vars_max_size s.stack_max_size s.code)
        g1 in
    let behind_args = λ (d : FuncDesc) (g1 : Globals) (start : Scope).
      from_body (compile_scope (function_index calloc g1) expr_fuel (buffered 256) f.body start)
        (behind_body d g1) in
    let rest : FuncDesc → Globals → FuncResult = λ d g1.
      elim (define_args d.args func_scope) as (λ x. FuncResult) [
        | none ↦ panicked
        | some start ↦ behind_args d g1 start
      ] in
    let known = hashmap_get text_key m f.name in
    let put_desc = hashmap_put text_key calloc fuel m f.name desc in
    let defines : unless_defined known (after_define put_desc g desc rest) ≡ compiled g' =
      define_func_lem calloc fuel f g m args ret_type signature rest has_args text here ∙ e in
    let (m', put_ok, e1) = defined g g' desc rest known put_desc defines in
    let g1 : Globals = record g { global_func_map = some m' } in
    let (start, starts, e2) =
      args_defined (define_args args func_scope) (behind_args desc g1) g' e1 in
    let (ret, s, body, e3) =
      body_done (compile_scope (function_index calloc g1) expr_fuel (buffered 256) f.body start)
        (behind_body desc g1) g' e2 in
    let found : hashmap_get text_key m' f.name ≡ (map_ok, some desc) =
      (hashmap_put-get text_key calloc fuel m f.name desc m' good_m put_ok).1 f.name
      ∙ rw (str_eq_refl f.name) refl in
    let (before, behind, r, h, last) =
      register_func_lem calloc fuel g1 g' m' c c' f.name
        (exec_data s.vars_max_size s.stack_max_size s.code) desc refl found map good small fresh put
        e3 in
    let (_, _, code, new) =
      register-exec_data calloc fuel r.0 s.vars_max_size s.stack_max_size s.code r.1 g.functions
        g'.functions h last in
    (g1, start, s, ret, h, starts, body, before, new, code, behind)
