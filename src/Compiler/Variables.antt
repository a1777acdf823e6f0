-- ===== src/Compiler/Variables.antt =====
-- src/compiler_scope.c: the definition of a variable and its lookup.
use phantomshell.Base.{
  Option-cases, ℕ, ◌+◌, ◌%◌, ◌^◌, ◌<◌, ◌≡◌, refl, inl, inr, none, some, List, [], ◌∷◌, ◌++◌, arith,
  length, leb, if◌then◌else◌, str_eq, str_eq_refl, str_eq_sound, Bool-cases, some-pair_left,
  some-pair_right, sym, ap,
}
use phantomshell.Compiler.Scope.{
  Scope, ScopeVar, find_var, lookup_in, frame_lookup_var_by_name, frame_define_var,
}

find-append :
    (vars : List ScopeVar) (v : ScopeVar) (name : List ℕ)
    → find_var vars name ≡ none
    → find_var (vars ++ (v ∷ [])) name ≡ (if str_eq v.name name then some v else none)
unfolding find_var
find-append [] v name h = refl
find-append (w ∷ vars) v name h = ground (arith, find-append vars v name)

find-append_found :
    (vars : List ScopeVar) (v w : ScopeVar) (name : List ℕ)
    → find_var vars name ≡ some w
    → find_var (vars ++ (v ∷ [])) name ≡ some w
unfolding find_var
find-append_found [] v w name h = ground arith
find-append_found (u ∷ vars) v w name h = ground (arith, find-append_found vars v w name)

lookup-append :
    (vars : List ScopeVar) (parents : List (List ScopeVar)) (v : ScopeVar)
    → lookup_in vars parents v.name ≡ none
    → lookup_in (vars ++ (v ∷ [])) parents v.name ≡ some v
unfolding lookup_in
lookup-append vars [] v h = rw (find-append vars v v.name h, str_eq_refl v.name) refl
lookup-append vars (above ∷ parents) v h = elim (Option-cases (find_var vars v.name)) [
  | inl gone ↦ rw (lookup_in, find-append vars v v.name gone, str_eq_refl v.name) refl
  | inr (w, found) ↦ absurd (ground (arith, found))
]

lookup-append_found :
    (vars : List ScopeVar) (parents : List (List ScopeVar)) (v w : ScopeVar) (name : List ℕ)
    → lookup_in vars parents v.name ≡ none
    → lookup_in vars parents name ≡ some w
    → lookup_in (vars ++ (v ∷ [])) parents name ≡ some w
unfolding lookup_in
lookup-append_found vars [] v w name h e = find-append_found vars v w name e
lookup-append_found vars (above ∷ parents) v w name h e = elim (Option-cases (find_var vars name)) [
  | inr (u, found) ↦ ground (arith, found, find-append_found vars v u name found)
  | inl gone ↦ elim (Bool-cases (str_eq v.name name)) [
    | inl same ↦
        absurd
          (ground (arith, ap (lookup_in vars (above ∷ parents)) (str_eq_sound v.name name same)))
    | inr apart ↦ ground (arith, find-append vars v name gone, gone)
  ]
]

-- What is defined, and the scope with it.
abbrev new_var : Scope → ℕ → List ℕ → ScopeVar
new_var scope type_id name = record {
  static_type = type_id;
  name = name;
  index = (length scope.vars + scope.vars_off) % 2 ^ 8;
}

define-inverted :
    (scope scope' : Scope) (type_id : ℕ) (name : List ℕ) (var : ScopeVar)
    → frame_define_var scope type_id name ≡ some (var, scope')
    → (var ≡ new_var scope type_id name)
      × (scope'.vars ≡ scope.vars ++ (new_var scope type_id name ∷ []))
      × (scope'.parents ≡ scope.parents)
      × ((length scope.vars + scope.vars_off) % 2 ^ 8 < scope'.vars_max_size)
unfolding frame_define_var
define-inverted scope scope' type_id name var e =
    elim (Bool-cases (leb scope.vars_cap (length scope.vars))) [
      | inl full ↦ absurd (ground (arith, full))
      | inr room ↦
          let same = some-pair_right (rw (room, frame_define_var) at e) in
          (
            sym (some-pair_left (rw (room, frame_define_var) at e)),
            ap (λ s. s.vars) (sym same),
            ap (λ s. s.parents) (sym same),
            rw (← same) (ground arith),
          )
    ]

-- A name that is not yet in scope and is defined is found from then on, with the type given; every
-- variable that was found before is still found; and the slot of the new one is counted in the number
-- of slots that the function asks for.
pub frame_define_var-lookup :
    (scope scope' : Scope) (type_id : ℕ) (name : List ℕ) (var : ScopeVar)
    → frame_lookup_var_by_name scope name ≡ none
    → frame_define_var scope type_id name ≡ some (var, scope')
    → (frame_lookup_var_by_name scope' name ≡ some var)
      × (var.static_type ≡ type_id)
      × ((q : List ℕ) (w : ScopeVar)
          → frame_lookup_var_by_name scope q ≡ some w
          → frame_lookup_var_by_name scope' q ≡ some w)
      × (var.index < scope'.vars_max_size)
unfolding frame_lookup_var_by_name
frame_define_var-lookup scope scope' type_id name var h e =
    let (is_var, vars, parents, counted) = define-inverted scope scope' type_id name var e in
    rw (vars, parents, is_var)
      (
        lookup-append scope.vars scope.parents (new_var scope type_id name) h,
        refl,
        λ q w found.
            lookup-append_found scope.vars scope.parents (new_var scope type_id name) w q h found,
        counted,
      )
