-- ===== src/Outcome/Leads.antt =====
-- Code that leads from one condition on the emulator to another, where it returns.
use nes_emulator.Prelude.{◌≡◌, refl, Bool, true, false, if◌then◌else◌}
use nes_emulator.State.{Emulator, Ppu}
use nes_emulator.Outcome.{Outcome, done, exited, undefined, Run, ◌>>=◌, gets}
use nes_emulator.Outcome.Ensures.{Holds, Ensures, Any}

pub record Leads {A : Type 0} (P : Emulator → Type 0) (Q : A → Type 0) (R : Emulator → Type 0)
    (m : Run A) : Type 0 where
  pub at : (e : Emulator) → P e → Holds R Q (m e)

-- A weaker condition holds of an outcome too.
pub Holds-map :
    {A : Type 0} (P R : Emulator → Type 0) (Q : A → Type 0) (o : Outcome (A × Emulator))
    → ((e : Emulator) → P e → R e)
    → Holds P Q o
    → Holds R Q o
Holds-map P R Q (done (a, e)) k h = (h.0, k e h.1)
Holds-map P R Q exited k h = tt
Holds-map P R Q undefined k h = tt

-- Two conditions on the emulator hold of an outcome together.
pub Holds-both :
    {A : Type 0} (P R : Emulator → Type 0) (Q : A → Type 0) (o : Outcome (A × Emulator))
    → Holds P Any o
    → Holds R Q o
    → Holds (λ e. P e × R e) Q o
Holds-both P R Q (done (a, e)) h k = (k.0, (h.1, k.1))
Holds-both P R Q exited h k = tt
Holds-both P R Q undefined h k = tt

-- Code that keeps a condition leads to each condition that follows from it.
pub Ensures-Leads :
    {A : Type 0} {P R : Emulator → Type 0} {Q : A → Type 0} (m : Run A)
    → Ensures P Q m
    → ((e : Emulator) → P e → R e)
    → Leads P Q R m
Ensures-Leads {P} {R} {Q} m k weaken = record {
  at = λ e h. Holds-map P R Q (m e) weaken (k.at e h);
}

pub Leads-if :
    {A : Type 0} {P R : Emulator → Type 0} {Q : A → Type 0} (b : Bool) (m n : Run A)
    → (b ≡ true → Leads P Q R m)
    → (b ≡ false → Leads P Q R n)
    → Leads P Q R (if b then m else n)
Leads-if true m n km kn = km refl
Leads-if false m n km kn = kn refl

module _ {A B : Type 0} {R T : Emulator → Type 0} {Q : A → Type 0} {S : B → Type 0} where
  Holds-bind :
      (f : A → Run B) (o : Outcome (A × Emulator))
      → ((a : A) → Q a → Leads R S T (f a))
      → Holds R Q o
      → Holds T S (elim o [ done (a, e) ↦ f a e | exited ↦ exited | undefined ↦ undefined ])
  Holds-bind f (done (a, e)) kf h = (kf a h.0).at e h.1
  Holds-bind f exited kf h = tt
  Holds-bind f undefined kf h = tt

  pub Leads-bind :
      {P : Emulator → Type 0} (m : Run A) (f : A → Run B)
      → Leads P Q R m
      → ((a : A) → Q a → Leads R S T (f a))
      → Leads P S T (m >>= f)
  unfolding ◌>>=◌
  Leads-bind m f km kf = record { at = λ e p. Holds-bind f (m e) kf (km.at e p) }

-- Code that leads to two conditions leads to both together.
pub Leads-both :
    {A : Type 0} {P R T : Emulator → Type 0} {Q : A → Type 0} (m : Run A)
    → Leads P Any R m
    → Leads P Q T m
    → Leads P Q (λ e. R e × T e) m
Leads-both {R} {T} {Q} m h k = record { at = λ e p. Holds-both R T Q (m e) (h.at e p) (k.at e p) }

-- A look at the PPU, where what follows may use that it is the PPU of the state.
pub Leads-get_ppu :
    {B : Type 0} {P T : Emulator → Type 0} {S : B → Type 0} (f : Ppu → Run B)
    → ((e : Emulator) → P e → Holds T S (f e.ppu e))
    → Leads P S T (gets (λ e. e.ppu) >>= f)
unfolding gets ◌>>=◌
Leads-get_ppu f k = record { at = k }
