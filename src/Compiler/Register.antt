-- ===== src/Compiler/Register.antt =====
-- src/compiler_func.c beside src/vm/vm.c: the header of a function's code.
use phantomshell.Base.{
  ℕ, ◌+◌, ◌*◌, ◌/◌, ◌%◌, ◌^◌, ◌≡◌, sym, ap, ◌∙◌, Bool, List, [], ◌∷◌, ◌++◌, length, drop, ◌==◌,
  arith, Bool-cases, inl, inr,
}
use phantomshell.Hashmap.{Hashmap, hashmap_put}
use phantomshell.Vm.{Run, ok, fault, stuck, ◌>>=◌, >>=-eq-ok, ok-pair}
use phantomshell.Vm.Pool.{
  ConstPool, Functions, FuncHandle, vm_register_function, offset_of, skip_to_paren, string_at,
  sum_args, map_after,
}
use phantomshell.Compiler.Func.{exec_data}

appended :
    (new : Run (Hashmap ℕ FuncHandle)) (handle h : FuncHandle) (fs fs' : Functions)
    → ◌>>=◌ {Out = FuncHandle × Functions} new
        (λ m. ok (handle, record fs { funcs = fs.funcs ++ (handle ∷ []); func_map = m }))
      ≡ ok (h, fs')
    → (handle ≡ h) × (fs'.funcs ≡ fs.funcs ++ (handle ∷ []))
appended (fault why) handle h fs fs' e = cc
appended stuck handle h fs fs' e = cc
appended (ok m) handle h fs fs' e =
    let (same, after) = ok-pair e in (same, ap (λ (f : Functions). f.funcs) (sym after))

-- The header in front of a function's code is read back by the machine: a function that is registered with
-- it has that code, room for the greatest number of variables, in bytes, and the greatest depth of the
-- stack as the size of its stack, both counted modulo 2 ^ 16, and stands behind the other functions.
pub register-exec_data :
    (calloc : ℕ → Bool) (fuel index vars_max stack_max : ℕ) (body : List ℕ) (p : ConstPool)
    (fs fs' : Functions) (h : FuncHandle)
    → vm_register_function calloc fuel index (exec_data vars_max stack_max body) p fs ≡ ok (h, fs')
    → (h.vars_size ≡ vars_max % 2 ^ 16 * 4)
      × (h.stack_size ≡ stack_max % 2 ^ 16)
      × (drop 4 h.bytecode_data ≡ body)
      × (fs'.funcs ≡ fs.funcs ++ (h ∷ []))
unfolding vm_register_function exec_data
register-exec_data calloc fuel index vars_max stack_max body p fs fs' h e =
    elim (Bool-cases (length fs.funcs == fs.funcs_cap)) [
      | inl t ↦ let e' = rw t at e in cc
      | inr t ↦
          let e' = rw t at e in
          let (offset, _, e1) = >>=-eq-ok (offset_of p index) _ e' in
          let (types, _, e2) = >>=-eq-ok (skip_to_paren (string_at p.pool (offset + 2))) _ e1 in
          let (args_size, _, e3) = >>=-eq-ok (sum_args types 0) _ e2 in
          let handle : FuncHandle = record {
            signature_index = index;
            arg_size = args_size;
            vars_size = (vars_max % 2 ^ 16 / 2 ^ 8 * 2 ^ 8 + vars_max % 2 ^ 16 % 2 ^ 8) * 4;
            stack_size = stack_max % 2 ^ 16 / 2 ^ 8 * 2 ^ 8 + stack_max % 2 ^ 16 % 2 ^ 8;
            bytecode_data = exec_data vars_max stack_max body;
          } in
          let new =
            map_after
              (hashmap_put (string_at p.pool) calloc fuel fs.func_map (offset + 2) handle) in
          let (same, behind) = appended new handle h fs fs' e3 in
          let vars : handle.vars_size ≡ vars_max % 2 ^ 16 * 4 = omega arith in
          let stack : handle.stack_size ≡ stack_max % 2 ^ 16 = omega arith in
          (
            ap (λ (f : FuncHandle). f.vars_size) (sym same) ∙ vars,
            ap (λ (f : FuncHandle). f.stack_size) (sym same) ∙ stack,
            ap (λ (f : FuncHandle). drop 4 f.bytecode_data) (sym same),
            behind ∙ ap (λ f. fs.funcs ++ (f ∷ [])) same,
          )
    ]
