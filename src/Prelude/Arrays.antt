-- ===== src/Prelude/Arrays.antt =====
-- Arrays of bytes as functions of the index, with their size beside them, and tables as lists.
use Prim.Native.Nat.{ℕ, zero, suc, ◌+◌, ◌-◌, ◌<◌}
use mathlib.Core.Path.{◌≡◌}
use mathlib.Core.Logic.{◌≢◌}
use mathlib.Core.Bool.{◌&&◌}
use mathlib.Core.List.{List, [], ◌∷◌}
use native.Mathlib.Omega.{arith}
use nes_emulator.Prelude.Tests.{◌==◌, if◌then◌else◌, leb, ltb}

abbrev pub Bytes : Type 0
Bytes = ℕ → ℕ

unfoldable pub update : Bytes → ℕ → ℕ → Bytes
update f i v j = if j == i then v else f j

-- memset over a whole array
unfoldable pub fill : ℕ → Bytes
fill v j = v

-- memcpy of `n` bytes, from index `s` of `src` to index `d` of `dst`
unfoldable pub copy : Bytes → ℕ → Bytes → ℕ → ℕ → Bytes
copy dst d src s n j = if leb d j && ltb j (d + n) then src (s + (j - d)) else dst j

pub update_self : (f : Bytes) (i v : ℕ) → update f i v i ≡ v
unfolding update
update_self f i v = ground arith

pub update_ne : (f : Bytes) (i j v : ℕ) → i ≢ j → update f i v j ≡ f j
unfolding update
update_ne f i j v h = ground arith

-- Every entry is a byte.
pub record IsBytes (f : Bytes) : Type 0 where
  pub at : (j : ℕ) → f j < 256

pub update-IsBytes : (f : Bytes) (i v : ℕ) → IsBytes f → v < 256 → IsBytes (update f i v)
unfolding update
update-IsBytes f i v h hv = record { at = λ j. ground (arith, h.at j) }

pub fill-IsBytes : (v : ℕ) → v < 256 → IsBytes (fill v)
unfolding fill
fill-IsBytes v h = record { at = λ j. h }

pub copy-IsBytes :
    (dst : Bytes) (d : ℕ) (src : Bytes) (s n : ℕ)
    → IsBytes dst
    → IsBytes src
    → IsBytes (copy dst d src s n)
unfolding copy
copy-IsBytes dst d src s n hd hs = record { at = λ j. ground (arith, hd.at j, hs.at (s + (j - d))) }

module _ {ℓ} {A : Type ℓ} where
  abbrev pub length : List A → ℕ
  length [] = 0
  length (x ∷ xs) = suc (length xs)

  -- A lookup table: `d` stands for what lies outside of it.
  abbrev pub get_or : List A → ℕ → A → A
  get_or [] i d = d
  get_or (x ∷ xs) zero d = x
  get_or (x ∷ xs) (suc i) d = get_or xs i d
