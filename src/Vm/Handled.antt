-- ===== src/Vm/Handled.antt =====
-- src/vm/vm.c: each handler that returns, in a frame in order.
use mathlib.Core.Path.{subst}
use phantomshell.Base.{ℕ, ◌^◌, ◌<◌, ◌≡◌, refl, List, arith}
use phantomshell.Vm.{
  Frame, FloatUnit, Run, ok, push_word, pop_word, operand, load_local, save_local, ok-pair,
  >>=-eq-ok,
}
use phantomshell.Vm.Handlers.{
  execute_save, execute_load, execute_iconst, execute_fconst, execute_binary, execute_i2f,
  execute_jez, execute_jnez, execute_jmp, execute_rjmp, jump_offset,
}
use phantomshell.Vm.Effect.{
  AllBytes, IsFrame, Effect, operand-lt, Effect-trans, binary_on-Effect, i2f_on-Effect, push-Effect,
  save-Effect, load-lt, pop-Effect,
}

module _ (f f' : Frame) (ops : List ℕ) (res : ℕ) (g : IsFrame f) where
  pub save-handler : execute_save f ops ≡ ok (res, f') → Effect 1 0 f f'
  unfolding execute_save
  save-handler e =
      let a = >>=-eq-ok (operand ops 0) _ e in
      let b = >>=-eq-ok (pop_word f) _ a.2 in
      let c = >>=-eq-ok (save_local a.0 b.0.0 b.0.1) _ b.2 in
      let popped = pop-Effect f b.0.1 b.0.0 g b.1 in
      let saved = save-Effect b.0.1 c.0 popped.1.keeps.good a.0 b.0.0 popped.0 c.1 in
      subst (λ x. Effect 1 0 f x) (ok-pair c.2).1 (Effect-trans f b.0.1 c.0 popped.1 saved)

  pub load-handler : execute_load f ops ≡ ok (res, f') → Effect 0 1 f f'
  unfolding execute_load
  load-handler e =
      let a = >>=-eq-ok (operand ops 0) _ e in
      let b = >>=-eq-ok (load_local a.0 f) _ a.2 in
      let c = >>=-eq-ok (push_word b.0 f) _ b.2 in
      subst (λ x. Effect 0 1 f x) (ok-pair c.2).1
        (push-Effect f c.0 g b.0 (load-lt f f g a.0 b.0 b.1) c.1)

  pub binary-handler :
      (op : ℕ → ℕ → Run ℕ)
      → ((a b c : ℕ) → a < 2 ^ 32 → b < 2 ^ 32 → op a b ≡ ok c → c < 2 ^ 32)
      → execute_binary op f ops ≡ ok (res, f')
      → Effect 2 1 f f'
  unfolding execute_binary
  binary-handler op small e = binary_on-Effect f.stack f f' res op small refl g e

  pub i2f-handler :
      (fpu : FloatUnit)
      → ((w : ℕ) → fpu.of_int w < 2 ^ 32)
      → execute_i2f fpu f ops ≡ ok (res, f')
      → Effect 1 1 f f'
  unfolding execute_i2f
  i2f-handler fpu small e = i2f_on-Effect f.stack f f' res fpu small refl g e

  pub jez-handler : execute_jez f ops ≡ ok (res, f') → Effect 1 0 f f'
  unfolding execute_jez
  jez-handler e =
      let a = >>=-eq-ok (jump_offset ops) _ e in
      let b = >>=-eq-ok (pop_word f) _ a.2 in
      subst (λ x. Effect 1 0 f x) (ok-pair b.2).1 (pop-Effect f b.0.1 b.0.0 g b.1).1

  pub jnez-handler : execute_jnez f ops ≡ ok (res, f') → Effect 1 0 f f'
  unfolding execute_jnez
  jnez-handler e =
      let a = >>=-eq-ok (jump_offset ops) _ e in
      let b = >>=-eq-ok (pop_word f) _ a.2 in
      subst (λ x. Effect 1 0 f x) (ok-pair b.2).1 (pop-Effect f b.0.1 b.0.0 g b.1).1

  stay : Effect 0 0 f f
  stay = record {
    keeps = record { good = g; bytes = refl; width = refl; same_pc = refl };
    moved = refl;
  }

  pub jmp-handler : execute_jmp f ops ≡ ok (res, f') → Effect 0 0 f f'
  unfolding execute_jmp
  jmp-handler e =
      let a = >>=-eq-ok (jump_offset ops) _ e in subst (λ x. Effect 0 0 f x) (ok-pair a.2).1 stay

  pub rjmp-handler : execute_rjmp f ops ≡ ok (res, f') → Effect 0 0 f f'
  unfolding execute_rjmp
  rjmp-handler e =
      let a = >>=-eq-ok (jump_offset ops) _ e in subst (λ x. Effect 0 0 f x) (ok-pair a.2).1 stay

  pub iconst-handler : AllBytes ops → execute_iconst f ops ≡ ok (res, f') → Effect 0 1 f f'
  unfolding execute_iconst
  iconst-handler bs e =
      let a = >>=-eq-ok (operand ops 0) _ e in
      let b = >>=-eq-ok (operand ops 1) _ a.2 in
      let c = >>=-eq-ok (operand ops 2) _ b.2 in
      let d = >>=-eq-ok (operand ops 3) _ c.2 in
      let p = >>=-eq-ok (push_word _ f) _ d.2 in
      subst (λ x. Effect 0 1 f x) (ok-pair p.2).1
        (push-Effect f p.0 g _
          (omega (
            arith,
            operand-lt ops 0 a.0 bs a.1,
            operand-lt ops 1 b.0 bs b.1,
            operand-lt ops 2 c.0 bs c.1,
            operand-lt ops 3 d.0 bs d.1,
          ))
          p.1)

  pub fconst-handler : AllBytes ops → execute_fconst f ops ≡ ok (res, f') → Effect 0 1 f f'
  unfolding execute_fconst
  fconst-handler bs e =
      let a = >>=-eq-ok (operand ops 0) _ e in
      let b = >>=-eq-ok (operand ops 1) _ a.2 in
      let c = >>=-eq-ok (operand ops 2) _ b.2 in
      let d = >>=-eq-ok (operand ops 3) _ c.2 in
      let p = >>=-eq-ok (push_word _ f) _ d.2 in
      subst (λ x. Effect 0 1 f x) (ok-pair p.2).1
        (push-Effect f p.0 g _
          (omega (
            arith,
            operand-lt ops 0 a.0 bs a.1,
            operand-lt ops 1 b.0 bs b.1,
            operand-lt ops 2 c.0 bs c.1,
            operand-lt ops 3 d.0 bs d.1,
          ))
          p.1)
