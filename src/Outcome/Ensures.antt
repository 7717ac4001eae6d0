-- ===== src/Outcome/Ensures.antt =====
-- What code that may not return keeps true of the emulator, and of the value that it returns.
use nes_emulator.Prelude.{ℕ, ◌<◌, ◌≡◌, refl, Bool, true, false, Bytes, ltb, ltb→lt, if◌then◌else◌}
use nes_emulator.State.{Emulator}
use nes_emulator.Outcome.{
  Outcome, done, exited, undefined, Run, pure, exit_failure, out_of_bounds, ◌>>=◌, gets, modify,
  load, store,
}

abbrev pub Holds :
    {A : Type 0} → (Emulator → Type 0) → (A → Type 0) → Outcome (A × Emulator) → Type 0
Holds P Q (done (a, e)) = Q a × P e
Holds P Q exited = Unit
Holds P Q undefined = Unit

-- From a state with `P`, if `m` returns, then a value with `Q` in a state with `P`.
pub record Ensures {A : Type 0} (P : Emulator → Type 0) (Q : A → Type 0) (m : Run A) : Type 0 where
  pub at : (e : Emulator) → P e → Holds P Q (m e)

-- A value of which nothing is said.
pub data Any {A : Type 0} (a : A) : Type 0 where
  any : Any a

abbrev pub IsByte : ℕ → Type 0
IsByte n = n < 256

abbrev pub IsWord : ℕ → Type 0
IsWord n = n < 65536

module _ {P : Emulator → Type 0} where
  module _ {A : Type 0} {Q : A → Type 0} where
    pub Ensures-pure : (a : A) → Q a → Ensures P Q (pure a)
    unfolding pure
    Ensures-pure a q = record { at = λ e p. (q, p) }

    pub Ensures-out_of_bounds : Ensures P Q out_of_bounds
    unfolding out_of_bounds
    Ensures-out_of_bounds = record { at = λ e p. tt }

    pub Ensures-exit : Ensures P Q exit_failure
    unfolding exit_failure
    Ensures-exit = record { at = λ e p. tt }

    pub Ensures-gets : (f : Emulator → A) → ((e : Emulator) → P e → Q (f e)) → Ensures P Q (gets f)
    unfolding gets
    Ensures-gets f q = record { at = λ e p. (q e p, p) }

    pub Ensures-if :
        (b : Bool) (m n : Run A)
        → (b ≡ true → Ensures P Q m)
        → (b ≡ false → Ensures P Q n)
        → Ensures P Q (if b then m else n)
    Ensures-if true m n km kn = km refl
    Ensures-if false m n km kn = kn refl

  pub Ensures-modify :
      (f : Emulator → Emulator) → ((e : Emulator) → P e → P (f e)) → Ensures P Any (modify f)
  unfolding modify
  Ensures-modify f k = record { at = λ e p. (any, k e p) }

  module _ {A B : Type 0} {Q : A → Type 0} {R : B → Type 0} where
    Holds-bind :
        (f : A → Run B) (o : Outcome (A × Emulator))
        → ((a : A) → Q a → Ensures P R (f a))
        → Holds P Q o
        → Holds P R (elim o [ done (a, e) ↦ f a e | exited ↦ exited | undefined ↦ undefined ])
    Holds-bind f (done (a, e)) kf h = (kf a h.0).at e h.1
    Holds-bind f exited kf h = tt
    Holds-bind f undefined kf h = tt

    pub Ensures-bind :
        (m : Run A) (f : A → Run B)
        → Ensures P Q m
        → ((a : A) → Q a → Ensures P R (f a))
        → Ensures P R (m >>= f)
    unfolding ◌>>=◌
    Ensures-bind m f km kf = record { at = λ e p. Holds-bind f (m e) kf (km.at e p) }

  -- A read that is inside of the array.
  pub Ensures-load :
      {Q : ℕ → Type 0} (size : ℕ) (f : Bytes) (i : ℕ)
      → (i < size → Q (f i))
      → Ensures P Q (load size f i)
  unfolding load pure out_of_bounds
  Ensures-load size f i h =
      Ensures-if (ltb i size) _ _ (λ t. Ensures-pure (f i) (h (ltb→lt i size t)))
        (λ _. record { at = λ e p. tt })

  pub Ensures-store :
      (size i : ℕ) (m : Run (Unit {0}))
      → (i < size → Ensures P Any m)
      → Ensures P Any (store size i m)
  unfolding store
  Ensures-store size i m k =
      Ensures-if (ltb i size) _ _ (λ t. k (ltb→lt i size t)) (λ _. record { at = λ e p. tt })

  -- `search` takes the rule for a bind at a given condition on the value that is bound.
  module _ {A B : Type 0} {R : B → Type 0} where
    pub bind-Any :
        (m : Run A) (f : A → Run B)
        → Ensures P Any m
        → ((a : A) → Ensures P R (f a))
        → Ensures P R (m >>= f)
    bind-Any m f km kf = Ensures-bind m f km (λ a _. kf a)

  module _ {B : Type 0} {R : B → Type 0} where
    pub bind_byte :
        (m : Run ℕ) (f : ℕ → Run B)
        → Ensures P IsByte m
        → ((a : ℕ) → a < 256 → Ensures P R (f a))
        → Ensures P R (m >>= f)
    bind_byte m f km kf = Ensures-bind m f km kf

    pub bind_word :
        (m : Run ℕ) (f : ℕ → Run B)
        → Ensures P IsWord m
        → ((a : ℕ) → a < 65536 → Ensures P R (f a))
        → Ensures P R (m >>= f)
    bind_word m f km kf = Ensures-bind m f km kf

pub ruleset ensures_rules = (
  Ensures-pure, any, Ensures-exit, Ensures-out_of_bounds, Ensures-if, Ensures-store, bind-Any,
  bind_byte, bind_word,
)
