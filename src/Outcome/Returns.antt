-- ===== src/Outcome/Returns.antt =====
-- Code that returns: it neither ends the program nor leaves an array, keeps a condition on the
-- emulator, and gives a value with a condition.
use nes_emulator.Prelude.{ℕ, ◌<◌, ◌≡◌, refl, Bool, true, false, Bytes, lt→ltb, if◌then◌else◌}
use nes_emulator.State.{Emulator}
use nes_emulator.Outcome.{Outcome, done, exited, undefined, Run, pure, ◌>>=◌, gets, load, store}
use nes_emulator.Outcome.Ensures.{Any, any}

abbrev pub Succeeds :
    {A : Type 0} → (Emulator → Type 0) → (A → Type 0) → Outcome (A × Emulator) → Type 0
Succeeds P Q (done (a, e)) = Q a × P e
Succeeds P Q exited = ⊥
Succeeds P Q undefined = ⊥

pub record Returns {A : Type 0} (P : Emulator → Type 0) (Q : A → Type 0) (m : Run A) : Type 0 where
  pub at : (e : Emulator) → P e → Succeeds P Q (m e)

module _ {P : Emulator → Type 0} where
  module _ {A : Type 0} {Q : A → Type 0} where
    pub Returns-pure : (a : A) → Q a → Returns P Q (pure a)
    unfolding pure
    Returns-pure a q = record { at = λ e p. (q, p) }

    pub Returns-gets : (f : Emulator → A) → ((e : Emulator) → P e → Q (f e)) → Returns P Q (gets f)
    unfolding gets
    Returns-gets f q = record { at = λ e p. (q e p, p) }

    pub Returns-if :
        (b : Bool) (m n : Run A)
        → (b ≡ true → Returns P Q m)
        → (b ≡ false → Returns P Q n)
        → Returns P Q (if b then m else n)
    Returns-if true m n km kn = km refl
    Returns-if false m n km kn = kn refl

  pub Returns-load :
      {Q : ℕ → Type 0} (size : ℕ) (f : Bytes) (i : ℕ)
      → i < size
      → Q (f i)
      → Returns P Q (load size f i)
  unfolding load pure
  Returns-load size f i h q = record { at = λ e p. rw (lt→ltb i size h) (q, p) }

  pub Returns-store :
      (size i : ℕ) (m : Run (Unit {0}))
      → i < size
      → Returns P Any m
      → Returns P Any (store size i m)
  unfolding store
  Returns-store size i m h k = record { at = λ e p. rw (lt→ltb i size h) (k.at e p) }

  module _ {A B : Type 0} {Q : A → Type 0} {R : B → Type 0} where
    Succeeds-bind :
        (f : A → Run B) (o : Outcome (A × Emulator))
        → ((a : A) → Q a → Returns P R (f a))
        → Succeeds P Q o
        → Succeeds P R (elim o [ done (a, e) ↦ f a e | exited ↦ exited | undefined ↦ undefined ])
    Succeeds-bind f (done (a, e)) kf h = (kf a h.0).at e h.1
    Succeeds-bind f exited kf h = h
    Succeeds-bind f undefined kf h = h

    pub Returns-bind :
        (m : Run A) (f : A → Run B)
        → Returns P Q m
        → ((a : A) → Q a → Returns P R (f a))
        → Returns P R (m >>= f)
    unfolding ◌>>=◌
    Returns-bind m f km kf = record { at = λ e p. Succeeds-bind f (m e) kf (km.at e p) }

  module _ {A B : Type 0} {R : B → Type 0} where
    -- the rule for `search`, where nothing is said of the value
    pub then-Returns :
        (m : Run A) (f : A → Run B)
        → Returns P Any m
        → ((a : A) → Returns P R (f a))
        → Returns P R (m >>= f)
    then-Returns m f km kf = Returns-bind m f km (λ a _. kf a)

pub ruleset returns_rules = (Returns-pure, any, Returns-if, then-Returns)
