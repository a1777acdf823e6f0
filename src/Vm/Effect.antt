-- ===== src/Vm/Effect.antt =====
-- src/vm/vm.c: what a handler does to the frame it runs in.
use mathlib.Core.Path.{subst}
use phantomshell.Base.{
  ℕ, zero, suc, ◌+◌, ◌*◌, ◌^◌, ◌≤◌, ◌<◌, ◌≡◌, refl, inl, inr, List, [], ◌∷◌, arith, ltb, leb,
  length, get_elem?, set, length-set, some, Bool-cases, Option-cases, ap, ◌∙◌,
}
use phantomshell.Vm.{
  Frame, FloatUnit, Run, ok, push_word, pop_word, operand, load_local, save_local, ok-injective,
  ok-pair, >>=-eq-ok,
}
use phantomshell.Vm.Handlers.{binary_on, i2f_on}

abbrev pub AllWords : List ℕ → Type 0
AllWords [] = Unit
AllWords (w ∷ ws) = (w < 2 ^ 32) × AllWords ws

abbrev pub AllBytes : List ℕ → Type 0
AllBytes [] = Unit
AllBytes (b ∷ bs) = (b < 2 ^ 8) × AllBytes bs

-- The stack stays in its allocation, and every cell holds a 32-bit word.
pub record IsFrame (frame : Frame) : Type 0 where
  pub fits : 4 * length frame.stack ≤ frame.stack_bytes
  pub stack_words : AllWords frame.stack
  pub local_words : AllWords frame.locals

-- The frame after a handler: in order again, in the same allocations.
pub record Keeps (frame frame' : Frame) : Type 0 where
  pub good : IsFrame frame'
  pub bytes : frame'.stack_bytes ≡ frame.stack_bytes
  pub width : length frame'.locals ≡ length frame.locals
  pub same_pc : frame'.frame_pc ≡ frame.frame_pc

-- The frame after a handler that takes `taken` words off the stack and puts `put` on it.
pub record Effect (taken put : ℕ) (frame frame' : Frame) : Type 0 where
  pub keeps : Keeps frame frame'
  pub moved : length frame'.stack + taken ≡ length frame.stack + put

pub AllWords-get : (ws : List ℕ) (i w : ℕ) → AllWords ws → get_elem? ws i ≡ some w → w < 2 ^ 32
AllWords-get [] i w h e = ground arith
AllWords-get (x ∷ ws) zero w h e = ground arith
AllWords-get (x ∷ ws) (suc i) w h e = AllWords-get ws i w h.1 e

pub AllWords-set : (ws : List ℕ) (i w : ℕ) → AllWords ws → w < 2 ^ 32 → AllWords (set ws i w)
AllWords-set [] i w h lt = tt
AllWords-set (x ∷ ws) zero w h lt = (lt, h.1)
AllWords-set (x ∷ ws) (suc i) w h lt = (h.0, AllWords-set ws i w h.1 lt)

pub operand-lt : (bs : List ℕ) (i b : ℕ) → AllBytes bs → operand bs i ≡ ok b → b < 2 ^ 8
unfolding operand
operand-lt [] i b h e = ground arith
operand-lt (x ∷ bs) zero b h e = ground arith
operand-lt (x ∷ bs) (suc i) b h e = operand-lt bs i b h.1 e

pub stack-Keeps :
    (f : Frame) (s : List ℕ)
    → IsFrame f
    → 4 * length s ≤ f.stack_bytes
    → AllWords s
    → Keeps f (record f { stack = s })
stack-Keeps f s g h w = record {
  good = record { fits = h; stack_words = w; local_words = g.local_words };
  bytes = refl;
  width = refl;
  same_pc = refl;
}

pub Keeps-trans : (f f₁ f₂ : Frame) → Keeps f f₁ → Keeps f₁ f₂ → Keeps f f₂
Keeps-trans f f₁ f₂ a b = record {
  good = b.good;
  bytes = b.bytes ∙ a.bytes;
  width = b.width ∙ a.width;
  same_pc = b.same_pc ∙ a.same_pc;
}

module _ (f f' : Frame) (g : IsFrame f) where
  pub push-Effect : (w : ℕ) → w < 2 ^ 32 → push_word w f ≡ ok f' → Effect 0 1 f f'
  unfolding push_word
  push-Effect w lt e = elim (Bool-cases (leb (4 * length f.stack + 4) f.stack_bytes)) [
    | inr full ↦ absurd (ground arith)
    | inl room ↦
        subst (λ x. Effect 0 1 f x) (ok-injective (rw room at e))
          (record {
            keeps = stack-Keeps f (w ∷ f.stack) g (ground arith) (lt, g.stack_words);
            moved = omega arith;
          })
  ]

  pub save-Effect : (i w : ℕ) → w < 2 ^ 32 → save_local i w f ≡ ok f' → Effect 0 0 f f'
  unfolding save_local
  save-Effect i w lt e = elim (Bool-cases (ltb i (length f.locals))) [
    | inr out ↦ absurd (ground arith)
    | inl room ↦
        subst (λ x. Effect 0 0 f x) (ok-injective (rw room at e))
          (record {
            keeps = record {
              good = record {
                fits = g.fits;
                stack_words = g.stack_words;
                local_words = AllWords-set f.locals i w g.local_words lt;
              };
              bytes = refl;
              width = length-set f.locals i w;
              same_pc = refl;
            };
            moved = refl;
          })
  ]

  pub load-lt : (i w : ℕ) → load_local i f ≡ ok w → w < 2 ^ 32
  unfolding load_local
  load-lt i w e = elim (Option-cases (get_elem? f.locals i)) [
    | inl out ↦ absurd (ground arith)
    | inr (v, at) ↦ ground (arith, AllWords-get f.locals i v g.local_words at)
  ]

-- The stack as an argument, so that it can be split.
pub pop-Effect_of :
    (f f' : Frame) (s : List ℕ) (w : ℕ)
    → f.stack ≡ s
    → IsFrame f
    → pop_word f ≡ ok (w, f')
    → (w < 2 ^ 32) × Effect 1 0 f f'
unfolding pop_word
pop-Effect_of f f' [] w s g e = absurd (ground arith)
pop-Effect_of f f' (v ∷ rest) w s g e =
    let all : AllWords (v ∷ rest) = subst AllWords s g.stack_words in
    let pair : (v ≡ w) × (record f { stack = rest } ≡ f') = ground arith in
    (
      rw (← pair.0) all.0,
      subst (λ x. Effect 1 0 f x) pair.1
          (record {
            keeps = stack-Keeps f rest g (omega (arith, g.fits, ap length s)) all.1;
            moved = omega (arith, ap length s);
          }),
    )

pub pop-Effect :
    (f f' : Frame) (w : ℕ) → IsFrame f → pop_word f ≡ ok (w, f') → (w < 2 ^ 32) × Effect 1 0 f f'
pop-Effect f f' w g e = pop-Effect_of f f' f.stack w refl g e

-- One operation after another.
pub Effect-trans :
    (f f₁ f₂ : Frame) {a b c d : ℕ}
    → Effect a b f f₁
    → Effect c d f₁ f₂
    → Effect (a + c) (b + d) f f₂
Effect-trans f f₁ f₂ x y = record {
  keeps = Keeps-trans f f₁ f₂ x.keeps y.keeps;
  moved = omega (arith, x.moved, y.moved);
}

pub binary_on-Effect :
    (s : List ℕ) (f f' : Frame) (res : ℕ) (op : ℕ → ℕ → Run ℕ)
    → ((a b c : ℕ) → a < 2 ^ 32 → b < 2 ^ 32 → op a b ≡ ok c → c < 2 ^ 32)
    → f.stack ≡ s
    → IsFrame f
    → binary_on op f s ≡ ok (res, f')
    → Effect 2 1 f f'
unfolding binary_on
binary_on-Effect [] f f' res op small q g e = absurd (ground arith)
binary_on-Effect (v2 ∷ []) f f' res op small q g e = absurd (ground arith)
binary_on-Effect (v2 ∷ v1 ∷ rest) f f' res op small q g e =
    let all : AllWords (v2 ∷ v1 ∷ rest) = subst AllWords q g.stack_words in
    let a = >>=-eq-ok (op v1 v2) _ e in
    subst (λ x. Effect 2 1 f x) (ok-pair a.2).1
      (record {
        keeps =
            stack-Keeps f (a.0 ∷ rest) g (omega (arith, g.fits, ap length q))
              (small v1 v2 a.0 all.1.0 all.0 a.1, all.1.1);
        moved = omega (arith, ap length q);
      })

pub i2f_on-Effect :
    (s : List ℕ) (f f' : Frame) (res : ℕ) (fpu : FloatUnit)
    → ((w : ℕ) → fpu.of_int w < 2 ^ 32)
    → f.stack ≡ s
    → IsFrame f
    → i2f_on fpu f s ≡ ok (res, f')
    → Effect 1 1 f f'
unfolding i2f_on
i2f_on-Effect [] f f' res fpu small q g e = absurd (ground arith)
i2f_on-Effect (v ∷ rest) f f' res fpu small q g e =
    let all : AllWords (v ∷ rest) = subst AllWords q g.stack_words in
    subst (λ x. Effect 1 1 f x) (ok-pair e).1
      (record {
        keeps =
            stack-Keeps f (fpu.of_int v ∷ rest) g (omega (arith, g.fits, ap length q))
              (small v, all.1);
        moved = omega (arith, ap length q);
      })
