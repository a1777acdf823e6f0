-- ===== src/Vm/Copy.antt =====
-- `memcpy` into a block of bytes.
use phantomshell.Base.{
  ℕ, zero, suc, ◌+◌, ◌≤◌, ◌≡◌, ◌∙◌, refl, ap, sym, List, [], ◌∷◌, ◌++◌, arith, length, take, drop,
  take_all,
}
use phantomshell.Vm.Pool.{copy_to}

-- A copy that stays within the block is read back from its offset.
pub drop-copy_to :
    (pool : List ℕ) (offset : ℕ) (bytes : List ℕ)
    → offset + length bytes ≤ length pool
    → (rest : List ℕ) × (drop offset (copy_to pool offset bytes) ≡ bytes ++ rest)
unfolding copy_to
drop-copy_to [] zero [] h = ([], refl)
drop-copy_to [] zero (b ∷ bytes) h = absurd (omega arith)
drop-copy_to [] (suc offset) bytes h = absurd (omega arith)
drop-copy_to (p ∷ pool) zero [] h = (p ∷ pool, refl)
drop-copy_to (p ∷ pool) zero (b ∷ bytes) h =
    let (rest, e) = drop-copy_to pool zero bytes (omega arith) in (rest, ap (λ t. b ∷ t) e)
drop-copy_to (p ∷ pool) (suc offset) bytes h = drop-copy_to pool offset bytes (omega arith)

pub length-copy_to :
    (pool : List ℕ) (offset : ℕ) (bytes : List ℕ) → length (copy_to pool offset bytes) ≡ length pool
unfolding copy_to
length-copy_to [] offset bytes = refl
length-copy_to (p ∷ pool) zero [] = refl
length-copy_to (p ∷ pool) zero (b ∷ bytes) = ap suc (length-copy_to pool zero bytes)
length-copy_to (p ∷ pool) (suc offset) bytes = ap suc (length-copy_to pool offset bytes)

-- What a copy within the block leaves before its end.
pub take-copy_to :
    (pool : List ℕ) (offset : ℕ) (bytes : List ℕ)
    → offset + length bytes ≤ length pool
    → take (offset + length bytes) (copy_to pool offset bytes) ≡ take offset pool ++ bytes
unfolding copy_to
take-copy_to [] zero [] h = refl
take-copy_to [] zero (b ∷ bytes) h = absurd (omega arith)
take-copy_to [] (suc offset) bytes h = absurd (omega arith)
take-copy_to (p ∷ pool) zero [] h = refl
take-copy_to (p ∷ pool) zero (b ∷ bytes) h =
    let e : 0 + suc (length bytes) ≡ suc (0 + length bytes) = omega arith in
    ap (λ n. take n (b ∷ copy_to pool 0 bytes)) e
    ∙ ap (λ t. b ∷ t) (take-copy_to pool zero bytes (omega arith))
take-copy_to (p ∷ pool) (suc offset) bytes h =
    let e : suc offset + length bytes ≡ suc (offset + length bytes) = omega arith in
    ap (λ n. take n (p ∷ copy_to pool offset bytes)) e
    ∙ ap (λ t. p ∷ t) (take-copy_to pool offset bytes (omega arith))

pub copy_to_nothing : (pool : List ℕ) (offset : ℕ) → copy_to pool offset [] ≡ pool
unfolding copy_to
copy_to_nothing [] offset = refl
copy_to_nothing (p ∷ pool) zero = refl
copy_to_nothing (p ∷ pool) (suc offset) = ap (λ t. p ∷ t) (copy_to_nothing pool offset)

-- A copy up to the end of the block.
pub copy_to_end :
    (pool : List ℕ) (offset : ℕ) (bytes : List ℕ)
    → offset + length bytes ≡ length pool
    → copy_to pool offset bytes ≡ take offset pool ++ bytes
copy_to_end pool offset bytes h =
    sym (
      take_all (copy_to pool offset bytes) (offset + length bytes)
        (omega (arith, length-copy_to pool offset bytes)))
    ∙ take-copy_to pool offset bytes (omega arith)
