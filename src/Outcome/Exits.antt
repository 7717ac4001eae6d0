-- ===== src/Outcome/Exits.antt =====
-- Code that does not end the program.
use nes_emulator.Prelude.{ℕ, ◌≡◌, refl, Bool, true, false, Bytes, ltb, if◌then◌else◌}
use nes_emulator.State.{Emulator, Cpu, Ppu, Mem}
use nes_emulator.Outcome.{
  Outcome, done, exited, undefined, Run, out_of_bounds, pure, ◌>>=◌, gets, modify, modify_cpu,
  modify_ppu, modify_mem, load, store,
}

unfoldable pub is_exited : {A : Type 0} → Outcome A → Bool
is_exited exited = true
is_exited o = false

pub record GoesOn {A : Type 0} (m : Run A) : Type 0 where
  pub at : (e : Emulator) → is_exited (m e) ≡ false

module _ {A : Type 0} where
  pub GoesOn-pure : (a : A) → GoesOn (pure a)
  unfolding is_exited pure
  GoesOn-pure a = record { at = λ e. refl }

  pub GoesOn-gets : (f : Emulator → A) → GoesOn (gets f)
  unfolding is_exited gets
  GoesOn-gets f = record { at = λ e. refl }

  pub GoesOn-undefined : GoesOn (out_of_bounds {A = A})
  unfolding is_exited out_of_bounds
  GoesOn-undefined = record { at = λ e. refl }

  pub GoesOn-if : (b : Bool) (m n : Run A) → GoesOn m → GoesOn n → GoesOn (if b then m else n)
  GoesOn-if true m n km kn = km
  GoesOn-if false m n km kn = kn

pub GoesOn-modify : (f : Emulator → Emulator) → GoesOn (modify f)
unfolding is_exited modify
GoesOn-modify f = record { at = λ e. refl }

pub GoesOn-modify_cpu : (f : Cpu → Cpu) → GoesOn (modify_cpu f)
unfolding is_exited modify_cpu
GoesOn-modify_cpu f = record { at = λ e. refl }

pub GoesOn-modify_ppu : (f : Ppu → Ppu) → GoesOn (modify_ppu f)
unfolding is_exited modify_ppu
GoesOn-modify_ppu f = record { at = λ e. refl }

pub GoesOn-modify_mem : (f : Mem → Mem) → GoesOn (modify_mem f)
unfolding is_exited modify_mem
GoesOn-modify_mem f = record { at = λ e. refl }

pub GoesOn-load : (size : ℕ) (f : Bytes) (i : ℕ) → GoesOn (load size f i)
unfolding load
GoesOn-load size f i = GoesOn-if (ltb i size) _ _ (GoesOn-pure (f i)) GoesOn-undefined

pub GoesOn-store : (size i : ℕ) (m : Run (Unit {0})) → GoesOn m → GoesOn (store size i m)
unfolding store
GoesOn-store size i m k = GoesOn-if (ltb i size) m _ k GoesOn-undefined

module _ {A B : Type 0} where
  after_bind :
      (f : A → Run B) (o : Outcome (A × Emulator))
      → is_exited o ≡ false
      → ((a : A) → GoesOn (f a))
      → is_exited (elim o [ done (a, e) ↦ f a e | exited ↦ exited | undefined ↦ undefined ]) ≡ false
  unfolding is_exited
  after_bind f (done (a, e)) h k = (k a).at e
  after_bind f exited h k = h
  after_bind f undefined h k = refl

  pub GoesOn-bind :
      (m : Run A) (f : A → Run B) → GoesOn m → ((a : A) → GoesOn (f a)) → GoesOn (m >>= f)
  unfolding ◌>>=◌
  GoesOn-bind m f h k = record { at = λ e. after_bind f (m e) (h.at e) k }

pub ruleset goes_on_rules = (
  GoesOn-pure, GoesOn-gets, GoesOn-undefined, GoesOn-if, GoesOn-modify, GoesOn-modify_cpu,
  GoesOn-modify_ppu, GoesOn-modify_mem, GoesOn-load, GoesOn-store, GoesOn-bind,
)
