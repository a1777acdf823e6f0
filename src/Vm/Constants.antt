-- ===== src/Vm/Constants.antt =====
-- src/vm/vm.c: what `vm_register_constant` leaves in the pool.
use mathlib.Core.List.{append_assoc}
use native.Mathlib.Nat.{mod-eq_of_lt}
use phantomshell.Base.{
  ℕ, ◌+◌, ◌/◌, ◌%◌, ◌^◌, ◌≤◌, ◌<◌, ◌≡◌, refl, ap, sym, ◌∙◌, inl, inr, some, List, [], ◌∷◌, ◌++◌,
  arith, length, get_elem?, drop, ltb, ◌==◌, Bool-cases, length-append, ltb→leb, take_all,
}
use phantomshell.Vm.{ok, ok-pair}
use phantomshell.Vm.Pool.{
  ConstPool, c_string, string_at, copy_to, pool_entry, vm_register_constant, offset_of,
}
use phantomshell.Vm.Copy.{length-copy_to, drop-copy_to}
use phantomshell.Vm.Fetch.{drop-drop}

-- No byte is the terminator.
abbrev pub IsText : List ℕ → Type 0
IsText [] = Unit
IsText (b ∷ bs) = (0 < b) × IsText bs

c_string-text : (s rest : List ℕ) → IsText s → c_string (s ++ (0 ∷ rest)) ≡ s
unfolding c_string
c_string-text [] rest h = refl
c_string-text (b ∷ s) rest h = ground (arith, h.0, c_string-text s rest h.1)

drop-two : (pool : List ℕ) (offset : ℕ) → drop (offset + 2) pool ≡ drop 2 (drop offset pool)
drop-two pool offset = drop-drop pool offset 2

read-entry :
    (pool : List ℕ) (offset : ℕ) (constant : List ℕ)
    → IsText constant
    → length constant < 2 ^ 16
    → offset + (2 + length constant + 1) ≤ length pool
    → string_at (copy_to pool offset (pool_entry (length constant % 2 ^ 16) constant)) (offset + 2)
      ≡ constant
unfolding string_at pool_entry
read-entry pool offset constant text short fits =
    rw (mod-eq_of_lt short, take_all constant (length constant) (omega arith))
      (let (rest, e) =
          drop-copy_to pool offset
            (length constant % 2 ^ 8 ∷ length constant / 2 ^ 8 ∷ (constant ++ (0 ∷ [])))
            (omega (arith, length-append constant (0 ∷ []))) in
        ap c_string (drop-two _ offset ∙ ap (drop 2) e ∙ append_assoc constant (0 ∷ []) rest)
        ∙ c_string-text constant rest text)

-- The pool is as the start of the machine leaves it, but for what has been written: no constant has
-- moved its size, and there is an offset for each index.
pub record IsPool (p : ConstPool) : Type 0 where
  pub allocated : length p.pool ≡ p.cap
  pub counted : length p.index ≡ p.index_size

-- What a registration that succeeds does.
pub record Registers (constant : List ℕ) (p : ConstPool) (i : ℕ) (p' : ConstPool) : Type 0 where
  pub given : i ≡ p.index_size
  pub good : IsPool p'
  pub size : p'.size ≡ p.size
  pub index : p'.index ≡ p.index ++ (p.size ∷ [])
  pub reads : string_at p'.pool (p.size + 2) ≡ constant

-- A constant that is registered reads back at its index.
register-Registers :
    (constant : List ℕ) (p p' : ConstPool) (i : ℕ)
    → IsPool p
    → IsText constant
    → length constant < 2 ^ 16
    → p.index_size + 1 < 2 ^ 16
    → vm_register_constant (length constant) constant p ≡ ok (i, p')
    → Registers constant p i p'
unfolding vm_register_constant string_at pool_entry
register-Registers constant p p' i good text short more h =
    elim (Bool-cases (ltb p.cap (p.size + (2 + length constant % 2 ^ 16 + 1)))) [
      | inl over ↦ absurd (ground (arith, over))
      | inr room ↦ elim (Bool-cases (p.index_size == p.index_cap)) [
        | inl full ↦ absurd (ground (arith, room, full))
        | inr slot ↦
            let (same_i, same_p) = ok-pair (rw (vm_register_constant, room, slot) at h) in
            record {
              given = sym same_i;
              good = rw (← same_p) (record {
                allocated = length-copy_to p.pool p.size _ ∙ good.allocated;
                counted =
                    length-append p.index (p.size ∷ [])
                    ∙ omega (arith, good.counted, mod-eq_of_lt more);
              });
              size = ap (λ q. q.size) (sym same_p);
              index = ap (λ q. q.index) (sym same_p);
              reads =
                  ap (λ q. string_at q.pool (p.size + 2)) (sym same_p)
                  ∙ read-entry p.pool p.size constant text short
                      (omega (arith, mod-eq_of_lt short, ltb→leb _ _ room, good.allocated));
            }
      ]
    ]

at_index : (xs ys : List ℕ) (x : ℕ) → get_elem? (xs ++ (x ∷ ys)) (length xs) ≡ some x
at_index [] ys x = refl
at_index (y ∷ xs) ys x = at_index xs ys x

-- In a pool in order with room for two more indices, two texts of fewer than 2 ^ 16 bytes that are
-- registered in turn, neither with a fault, share their place, as the size of the pool never moves: by
-- both indices the second is read.
pub vm_register_constant-aliases :
    (first second : List ℕ) (p p₁ p₂ : ConstPool) (i j : ℕ)
    → IsPool p
    → IsText first
    → IsText second
    → length first < 2 ^ 16
    → length second < 2 ^ 16
    → p.index_size + 2 < 2 ^ 16
    → vm_register_constant (length first) first p ≡ ok (i, p₁)
    → vm_register_constant (length second) second p₁ ≡ ok (j, p₂)
    → (offset_of p₂ i ≡ ok p.size)
      × (offset_of p₂ j ≡ ok p.size)
      × (string_at p₂.pool (p.size + 2) ≡ second)
unfolding offset_of
vm_register_constant-aliases first second p p₁ p₂ i j good text₁ text₂ short₁ short₂ more h₁ h₂ =
    let a = register-Registers first p p₁ i good text₁ short₁ (omega arith) h₁ in
    let more₁ : p₁.index_size + 1 < 2 ^ 16 = omega (
      arith,
      a.good.counted,
      good.counted,
      ap length a.index,
      length-append p.index (p.size ∷ []),
    ) in
    let b = register-Registers second p₁ p₂ j a.good text₂ short₂ more₁ h₂ in
    let all : p₂.index ≡ p.index ++ (p.size ∷ (p.size ∷ [])) =
      b.index ∙ rw (a.index, a.size) (append_assoc p.index (p.size ∷ []) (p.size ∷ [])) in
    let first_at = a.given ∙ sym good.counted in
    let second_at = b.given ∙ sym a.good.counted in
    (
      rw (offset_of, all, first_at, at_index p.index (p.size ∷ []) p.size) refl,
      rw (offset_of, b.index, second_at, at_index p₁.index [] p₁.size, a.size) refl,
      ap (λ n. string_at p₂.pool (n + 2)) (sym a.size) ∙ b.reads,
    )
