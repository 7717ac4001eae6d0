-- ===== src/Outcome.antt =====
-- Code that changes the emulator and may not return: `exit(EXIT_FAILURE)`, and an access outside
-- of an array, which C leaves undefined.
pub mod Ensures
pub mod Exits
pub mod Leads
pub mod Returns
use nes_emulator.Prelude.{ℕ, ◌≡◌, Bool, Bytes, ltb, update, if◌then◌else◌}
use nes_emulator.State.{Emulator, Cpu, Ppu, Mem}

pub data Outcome {ℓ} (A : Type ℓ) : Type ℓ where
  done : A → Outcome A
  exited : Outcome A
  undefined : Outcome A

abbrev pub Run : Type 0 → Type 0
Run A = Emulator → Outcome (A × Emulator)

unfoldable pub pure : {A : Type 0} → A → Run A
pure a e = done (a, e)

-- exit(EXIT_FAILURE)
unfoldable pub exit_failure : {A : Type 0} → Run A
exit_failure e = exited

-- an access outside of an array
unfoldable pub out_of_bounds : {A : Type 0} → Run A
out_of_bounds e = undefined

unfoldable pub gets : {A : Type 0} → (Emulator → A) → Run A
gets f e = done (f e, e)

unfoldable pub modify : (Emulator → Emulator) → Run (Unit {0})
modify f e = done (tt, f e)

unfoldable pub get_cpu : Run Cpu
get_cpu e = done (e.cpu, e)

unfoldable pub modify_cpu : (Cpu → Cpu) → Run (Unit {0})
modify_cpu f e = done (tt, record e { cpu = f e.cpu })

unfoldable pub modify_ppu : (Ppu → Ppu) → Run (Unit {0})
modify_ppu f e = done (tt, record e { ppu = f e.ppu })

unfoldable pub modify_mem : (Mem → Mem) → Run (Unit {0})
modify_mem f e = done (tt, record e { mem = f e.mem })

-- A read of an array of `size` entries.
unfoldable pub load : ℕ → Bytes → ℕ → Run ℕ
unfolding pure out_of_bounds
load size f i = if ltb i size then pure (f i) else out_of_bounds

-- A write to an array of `size` entries; `put` puts the new array back.
unfoldable pub store : ℕ → ℕ → Run (Unit {0}) → Run (Unit {0})
unfolding out_of_bounds
store size i put = if ltb i size then put else out_of_bounds

infixl 5 ◌>>=◌ ◌>>◌
-- opening this opens the primitives above too
unfoldable pub ◌>>=◌ : {A B : Type 0} → Run A → (A → Run B) → Run B
unfolding pure exit_failure out_of_bounds gets modify get_cpu modify_cpu modify_ppu modify_mem load
    store
◌>>=◌ m f e = elim (m e) [ done (a, e') ↦ f a e' | exited ↦ exited | undefined ↦ undefined ]

abbrev pub ◌>>◌ : {A B : Type 0} → Run A → Run B → Run B
m >> k = m >>= λ _. k

-- A bind goes on after code that returns.
pub bind-done :
    {A B : Type 0} (m : Run A) (f : A → Run B) (e e' : Emulator) (a : A)
    → m e ≡ done (a, e')
    → (m >>= f) e ≡ f a e'
unfolding ◌>>=◌
bind-done m f e e' a h = rw (h, ◌>>=◌)
