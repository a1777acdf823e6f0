-- ===== src/Compiler/Scope.antt =====
-- src/compiler_scope.c and src/compiler.h: the scope that code is compiled in, its variables and the
-- depth of its stack. The code emitted so far is the list of its bytes.
use phantomshell.Base.{
  ℕ, ◌+◌, ◌-◌, ◌%◌, ◌^◌, Option, none, some, List, [], ◌∷◌, ◌++◌, length, ltb, leb, str_eq,
  if◌then◌else◌,
}
use phantomshell.Base.Int.{ℤ, pos_part, neg_part}

-- `struct scope_var_t`.
pub record ScopeVar : Type 0 where
  pub static_type : ℕ
  pub name : List ℕ
  pub index : ℕ

-- `struct scope_handler_t`. `parents` has the variables of the enclosing scopes that a lookup goes
-- through, up to the function's own. The two maxima are those of the root scope, which every
-- enclosed scope points at.
pub record Scope : Type 0 where
  pub vars : List ScopeVar
  pub vars_cap : ℕ
  pub vars_off : ℕ
  pub vars_max_size : ℕ
  pub parents : List (List ScopeVar)
  pub stack_size : ℕ
  pub stack_max_size : ℕ
  pub code : List ℕ

-- What a compiling function does: it returns a code with the scope that it leaves, or ends in
-- `compiler_panic`, or reads a node as one of another type. `stuck` means that the fuel ran out.
pub data Compiled : Type 0 where
  done : ℕ → Scope → Compiled
  panic undefined stuck : Compiled

-- `if ((ret = …)) return ret;`, and else the rest.
infixl 5 ◌>>=◌
abbrev pub ◌>>=◌ : Compiled → (Scope → Compiled) → Compiled
done ret s >>= f = if ltb 0 ret then done ret s else f s
panic >>= f = panic
undefined >>= f = undefined
stuck >>= f = stuck

-- The rest follows whatever was returned.
unfoldable pub and_then : Compiled → (Scope → Compiled) → Compiled
and_then (done ret s) f = f s
and_then panic f = panic
and_then undefined f = undefined
and_then stuck f = stuck

unfoldable pub find_var : List ScopeVar → List ℕ → Option ScopeVar
find_var [] name = none
find_var (v ∷ vars) name = if str_eq v.name name then some v else find_var vars name

unfoldable pub lookup_in : List ScopeVar → List (List ScopeVar) → List ℕ → Option ScopeVar
unfolding find_var
lookup_in vars [] name = find_var vars name
lookup_in vars (above ∷ parents) name = elim (find_var vars name) [
  | some v ↦ some v
  | none ↦ lookup_in above parents name
]

-- `frame_lookup_var_by_name(scope, name, 1)`.
unfoldable pub frame_lookup_var_by_name : Scope → List ℕ → Option ScopeVar
unfolding lookup_in
frame_lookup_var_by_name scope name = lookup_in scope.vars scope.parents name

-- `frame_define_var`; `none` is its panic.
unfoldable pub frame_define_var : Scope → ℕ → List ℕ → Option (ScopeVar × Scope)
frame_define_var scope type_id name =
    let size = length scope.vars in
    let var : ScopeVar = record {
      static_type = type_id;
      name = name;
      index = (size + scope.vars_off) % 2 ^ 8;
    } in
    let used = size + 1 + scope.vars_off in
    if leb scope.vars_cap size
    then none
    else some (
      var,
      record scope {
        vars = scope.vars ++ (var ∷ []);
        vars_max_size = if ltb scope.vars_max_size used then used else scope.vars_max_size;
      },
    )

-- `frame_increment_stack_size`, on a `size_t`.
unfoldable pub frame_increment_stack_size : ℤ → Scope → Scope
frame_increment_stack_size inc scope =
    let size = (scope.stack_size + pos_part inc + 2 ^ 64 - neg_part inc) % 2 ^ 64 in
    record scope {
      stack_size = size;
      stack_max_size = if ltb scope.stack_max_size size then size else scope.stack_max_size;
    }

-- `compiler_emit_*`: the emitter takes all the bytes, so the result is 0.
unfoldable pub compiler_emit : List ℕ → Scope → Compiled
compiler_emit bytes scope = done 0 (record scope { code = scope.code ++ bytes })
