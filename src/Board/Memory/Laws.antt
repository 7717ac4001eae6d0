-- ===== src/Board/Memory/Laws.antt =====
-- What the copies and the fills of memory leave behind.
use nes_emulator.Prelude.{
  ℕ, zero, suc, ◌+◌, ◌-◌, ◌≤◌, ◌<◌, ◌≡◌, ◌⊎◌, inl, inr, Bool-cases, refl, ap, ◌∙◌, arith, ◌&&◌,
  ◌==◌, Bytes, update, leb, ltb, if◌then◌else◌, u8,
}
use nes_emulator.Board.Memory.{memset_loop, memset, memcpy_loop, memcpy}

memset_loop_lem :
    (count dst dest chr j : ℕ) (f : Bytes)
    → (memset_loop count dst dest chr f).1 j ≡ (if ltb 0 count && j == dst then u8 chr else f j)
unfolding memset_loop update
memset_loop_lem zero dst dest chr j f = refl
memset_loop_lem (suc count) dst dest chr j f =
    ground (arith, memset_loop_lem count dst (dest + 1) chr j (update f dst (u8 chr)))

memset_loop-end :
    (count dst dest chr : ℕ) (f : Bytes) → (memset_loop count dst dest chr f).0 ≡ dest + count
unfolding memset_loop
memset_loop-end zero dst dest chr f = omega arith
memset_loop-end (suc count) dst dest chr f =
    memset_loop-end count dst (dest + 1) chr (update f dst (u8 chr)) ∙ omega arith

-- `memset` writes the first byte alone, whatever the count, and returns the address after the
-- bytes that it should have written.
pub memset_lem :
    (dest chr count j : ℕ) (f : Bytes)
    → ((memset dest chr count f).1 j ≡ (if ltb 0 count && j == dest then u8 chr else f j))
      × ((memset dest chr count f).0 ≡ dest + count)
unfolding memset
memset_lem dest chr count j f =
    (memset_loop_lem count dest dest chr j f, memset_loop-end count dest dest chr f)

-- A byte of the source is not the one that is written.
other_byte :
    (n s d i j : ℕ) (f : Bytes) (v : ℕ)
    → (s + n ≤ d) ⊎ (d + n ≤ s)
    → i < n
    → d ≤ j
    → j < d + n
    → update f (d + i) v (s + (j - d)) ≡ f (s + (j - d))
unfolding update
other_byte n s d i j f v (inl before) h k l = ground arith
other_byte n s d i j f v (inr after) h k l = ground arith

byte_here :
    (d i j s : ℕ) (f : Bytes)
    → update f (d + i) (f (s + i)) j ≡ (if j == d + i then f (s + (j - d)) else f j)
unfolding update
byte_here d i j s f = elim (Bool-cases (j == d + i)) [
  | inl here ↦ rw here (ap (λ k. f (s + k)) (ground arith))
  | inr there ↦ rw there refl
]

memcpy_loop_lem :
    (n left i d s j : ℕ) (f : Bytes)
    → (s + n ≤ d) ⊎ (d + n ≤ s)
    → i + left ≤ n
    → (memcpy_loop left i d s f) j
      ≡ (if leb (d + i) j && ltb j (d + i + left) then f (s + (j - d)) else f j)
unfolding memcpy_loop
memcpy_loop_lem n zero i d s j f apart h = ground arith
memcpy_loop_lem n (suc left) i d s j f apart h =
    let f' = update f (d + i) (f (s + i)) in
    ground (
      arith,
      memcpy_loop_lem n left (i + 1) d s j f' apart (omega (arith, h)),
      other_byte n s d i j f (f (s + i)) apart,
      byte_here d i j s f,
    )

-- `memcpy` between two ranges that do not overlap copies the bytes in order, leaves all others,
-- and returns its destination.
pub memcpy_lem :
    (dest src count j : ℕ) (f : Bytes)
    → (src + count ≤ dest) ⊎ (dest + count ≤ src)
    → ((memcpy dest src count f).1 j
        ≡ (if leb dest j && ltb j (dest + count) then f (src + (j - dest)) else f j))
      × ((memcpy dest src count f).0 ≡ dest)
unfolding memcpy
memcpy_lem dest src count j f apart =
    (ground (arith, memcpy_loop_lem count count 0 dest src j f apart (omega arith)), refl)
