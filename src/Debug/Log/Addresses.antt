-- ===== src/Debug/Log/Addresses.antt =====
-- The address that the log shows and the one that `set_address` of emulator/cpu.c computes.
use nes_emulator.Prelude.{
  ℕ, ◌+◌, ◌%◌, ◌<◌, ◌≡◌, refl, ap, ◌∙◌, arith, Bool, true, false, bit_and, bit_or, u16, ◌<<<◌, ltb,
  if◌then◌else◌, ◌/◌, List, [], ◌∷◌, ◌++◌, length,
}
use mathlib.Core.Path.{subst}
use nes_emulator.Board.Text.Decimal.{read_digits}
use nes_emulator.Board.Text.Laws.{value-hex_digit}
use nes_emulator.State.{Emulator, Cpu}
use nes_emulator.Outcome.{done, pure, ◌>>=◌, get_cpu}
use nes_emulator.Mem.{mem_read_8, mem_const_read_8}
use nes_emulator.Opcodes.{
  Opcode, AddressMode, acc, abs, abx, aby, imm, imp, ind, xin, yin, rel, zp0, zpx, zpy, unk,
}
use nes_emulator.Cpu.Address.{sign_extend, set_address}
use nes_emulator.Cpu.Effective.{
  IsPlain, in_ram, in_bank, IsReadable, seen, effective_address, addressed, read-seen, seen-lt,
  absolute, joined, joined_low, low_byte,
}
use nes_emulator.Mem.Rom.{HasBanks}
use nes_emulator.Prelude.Bits.{bit_and_mask}
use nes_emulator.Cpu.Effective.Laws.{same_page, word-lt, word-small, set_address_lem}
use nes_emulator.Debug.Log.{Operand, hex_2, hex_4, log_operand, log_mode}

const_read : (a : ℕ) (e : Emulator) → IsPlain a → mem_const_read_8 a e ≡ mem_read_8 a e
unfolding mem_const_read_8 mem_read_8 ◌>>=◌
const_read a e (in_ram h) = ground arith
const_read a e (in_bank h k) = ground arith

-- the modes in which the log shows an address
unfoldable pub shows_address : AddressMode → Bool
shows_address acc = false
shows_address imp = false
shows_address imm = false
shows_address unk = false
shows_address other = true

-- the number of hexadecimal digits in which the log prints an address
pub address_digits : AddressMode → ℕ
address_digits zp0 = 2
address_digits zpx = 2
address_digits zpy = 2
address_digits other = 4

-- The text ends in a number of that many hexadecimal digits, and one blank.
pub EndsIn : ℕ → ℕ → List ℕ → Type 0
EndsIn width n text =
    (front : List ℕ) × (digits : List ℕ) × (text ≡ front ++ digits ++ (b' ' ∷ []))
    × (length digits ≡ width)
    × (read_digits 16 0 digits ≡ n)

two_digits : (n : ℕ) → n < 256 → read_digits 16 0 (hex_2 n) ≡ n
two_digits n h =
    rw (value-hex_digit (n / 16 % 16) (omega arith), value-hex_digit (n % 16) (omega arith))
      (omega arith)

four_digits : (n : ℕ) → n < 65536 → read_digits 16 0 (hex_4 n) ≡ n
four_digits n h =
    rw
      (
        value-hex_digit (n / 256 / 16 % 16) (omega arith),
        value-hex_digit (n / 256 % 16) (omega arith),
        value-hex_digit (n % 256 / 16 % 16) (omega arith),
        value-hex_digit (n % 256 % 16) (omega arith),
      )
      (omega arith)

byte-EndsIn : (front : List ℕ) (n : ℕ) → n < 256 → EndsIn 2 n (front ++ hex_2 n ++ (b' ' ∷ []))
unfolding EndsIn
byte-EndsIn front n h = (front, hex_2 n, refl, refl, two_digits n h)

word-EndsIn : (front : List ℕ) (n : ℕ) → n < 65536 → EndsIn 4 n (front ++ hex_4 n ++ (b' ' ∷ []))
unfolding EndsIn
word-EndsIn front n h = (front, hex_4 n, refl, refl, four_digits n h)

masked-lt : (n : ℕ) → bit_and n 0xFF < 256
masked-lt n = omega (arith, bit_and_mask 8 n)

-- the opcode is fetched
abbrev pub fetched : Emulator → Emulator
fetched e = record e { cpu = record e.cpu { pc = u16 (e.cpu.pc + 1) } }

zero_page : (a : ℕ) → IsPlain (bit_and a 0xFF)
zero_page a = in_ram (omega (arith, bit_and_mask 8 a))

branch :
    (pc offset : ℕ)
    → offset < 256
    → u16 (pc + 2 + sign_extend offset)
      ≡ (u16 (pc + 1) + 1 + (if ltb offset 0x80 then offset else 0xFF00 + offset)) % 65536
branch pc offset h = ground arith

twice : (n : ℕ) → n % 256 % 256 ≡ n % 256
twice n = omega arith

in_byte : (n : ℕ) → n < 256 → n % 256 ≡ n
in_byte n h = omega arith

second : (pc : ℕ) → u16 (pc + 2) ≡ u16 (u16 (pc + 1) + 1)
second pc = omega arith

module _ (e : Emulator) where
  abbrev Logs : AddressMode → Type 0
  Logs mode =
      (o : Operand) × (log_operand mode (seen (fetched e) (fetched e).cpu.pc)
          (seen (fetched e) (u16 ((fetched e).cpu.pc + 1))) e.cpu e
        ≡ done (o, e))
      × (o.address ≡ effective_address mode (seen (fetched e)) (fetched e).cpu)
      × EndsIn (address_digits mode) o.address o.printed

  module _ (b : HasBanks (fetched e)) where
    const-seen : (a : ℕ) → IsPlain a → mem_const_read_8 a e ≡ done (seen (fetched e) a, e)
    unfolding seen
    const-seen a h = const_read a e h ∙ read-seen a e (record { banks = b.banks; fits = b.fits }) h

    two_reads :
        (a₁ a₂ : ℕ) (f : ℕ → ℕ → Operand)
        → IsPlain a₁
        → IsPlain a₂
        → (do x ← mem_const_read_8 a₁; y ← mem_const_read_8 a₂; pure (f x y)) e
          ≡ done (f (seen (fetched e) a₁) (seen (fetched e) a₂), e)
    unfolding ◌>>=◌ pure
    two_reads a₁ a₂ f h k = rw (◌>>=◌, const-seen a₁ h, const-seen a₂ k) refl

  module _ (mode : AddressMode) (r : IsReadable mode (fetched e)) where
    byte-lt : (a : ℕ) → seen (fetched e) a < 256
    byte-lt a = seen-lt (fetched e) r.valid r.banks a

    operand-word :
        u16 (
          bit_or
            (seen (fetched e) (u16 ((fetched e).cpu.pc + 1)) <<< 8)
            (seen (fetched e) (fetched e).cpu.pc))
        ≡ absolute (seen (fetched e)) (fetched e).cpu.pc
    operand-word = joined _ _ (byte-lt _) (byte-lt _)

  address-logged :
      (mode : AddressMode) → shows_address mode ≡ true → IsReadable mode (fetched e) → Logs mode
  unfolding log_operand ◌>>=◌ effective_address shows_address address_digits
  address-logged acc h r = absurd (ground arith)
  address-logged imp h r = absurd (ground arith)
  address-logged imm h r = absurd (ground arith)
  address-logged unk h r = absurd (ground arith)
  address-logged abs h r = (_, refl, operand-word abs r, word-EndsIn (b'$' ∷ []) _ (omega arith))
  address-logged abx h r = (
    _,
    refl,
    rw (operand-word abx r) refl,
    word-EndsIn (b'$' ∷ hex_4 _ ++ (b',' ∷ b'X' ∷ b' ' ∷ b'@' ∷ b' ' ∷ [])) _ (omega arith),
  )
  address-logged aby h r = (
    _,
    refl,
    rw (operand-word aby r) refl,
    word-EndsIn (b'$' ∷ hex_4 _ ++ (b',' ∷ b'Y' ∷ b' ' ∷ b'@' ∷ b' ' ∷ [])) _ (omega arith),
  )
  address-logged zp0 h r = (_, refl, refl, byte-EndsIn (b'$' ∷ []) _ (byte-lt zp0 r _))
  address-logged zpx h r = (
    _,
    refl,
    bit_and_mask 8 _,
    byte-EndsIn (b'$' ∷ hex_2 _ ++ (b',' ∷ b'X' ∷ b' ' ∷ b'@' ∷ b' ' ∷ [])) _ (masked-lt _),
  )
  address-logged zpy h r = (
    _,
    refl,
    bit_and_mask 8 _,
    byte-EndsIn (b'$' ∷ hex_2 _ ++ (b',' ∷ b'Y' ∷ b' ' ∷ b'@' ∷ b' ' ∷ [])) _ (masked-lt _),
  )
  address-logged rel h r = (
    _,
    refl,
    branch (e.cpu.pc) (seen (fetched e) (fetched e).cpu.pc) (byte-lt rel r _),
    word-EndsIn (b'$' ∷ []) _ (omega arith),
  )
  address-logged ind h r =
      let target = r.pointer refl in
      let pointer = absolute (seen (fetched e)) (fetched e).cpu.pc in
      let page = same_page pointer (word-small _ _ (byte-lt ind r _) (byte-lt ind r _)) in
      (
        _,
        two_reads r.banks _ _ _ (rw (operand-word ind r) target.0)
            (rw (operand-word ind r, page) target.1),
        rw (operand-word ind r, page)
            (ap u16 (joined_low _ _ (byte-lt ind r _) (byte-lt ind r _))
              ∙ word-lt _ _ (byte-lt ind r _) (byte-lt ind r _)),
        word-EndsIn (b'(' ∷ b'$' ∷ hex_4 _ ++ (b')' ∷ b' ' ∷ b'=' ∷ b' ' ∷ [])) _ (omega arith),
      )
  address-logged xin h r =
      let base = seen (fetched e) (fetched e).cpu.pc + e.cpu.x in
      (
        _,
        two_reads r.banks _ _ _ (zero_page (bit_and base 0xFF + 1)) (zero_page (bit_and base 0xFF)),
        rw (low_byte base, low_byte (base % 256 + 1), low_byte (base % 256), twice base)
            (joined _ _ (byte-lt xin r _) (byte-lt xin r _)),
        word-EndsIn
            (b'(' ∷ b'$' ∷ hex_2 _
              ++ (b',' ∷ b'X' ∷ b')' ∷ b' ' ∷ b'@' ∷ b' ' ∷ hex_2 _)
              ++ (b' ' ∷ b'=' ∷ b' ' ∷ []))
            _ (omega arith),
      )
  address-logged yin h r =
      let base = seen (fetched e) (fetched e).cpu.pc in
      (
        _,
        two_reads r.banks _ _ _ (zero_page (base + 1)) (zero_page base),
        rw
            (
              low_byte (base + 1),
              low_byte base,
              in_byte base (byte-lt yin r _),
              joined (seen (fetched e) ((base + 1) % 256)) (seen (fetched e) base) (byte-lt yin r _)
                  (byte-lt yin r _),
            )
            (bit_and_mask 16 _),
        word-EndsIn
            (b'(' ∷ b'$' ∷ hex_2 _
              ++ (b')' ∷ b',' ∷ b'Y' ∷ b' ' ∷ b'=' ∷ b' ' ∷ hex_4 _)
              ++ (b' ' ∷ b'@' ∷ b' ' ∷ []))
            _ (omega (arith, bit_and_mask 16 _)),
      )

  -- the two bytes that the log reads first
  bytes-read :
      (mode : AddressMode)
      → IsReadable mode (fetched e)
      → (o : Operand)
      → log_operand mode
          (seen (fetched e) (fetched e).cpu.pc)
          (seen (fetched e) (u16 ((fetched e).cpu.pc + 1)))
          e.cpu
          e
        ≡ done (o, e)
      → log_mode mode e ≡ done (o, e)
  unfolding log_mode ◌>>=◌
  bytes-read mode r o h =
      rw
        (
          log_mode,
          get_cpu,
          ◌>>=◌,
          const-seen r.banks (u16 (e.cpu.pc + 1)) r.low,
          second e.cpu.pc,
          const-seen r.banks (u16 (u16 (e.cpu.pc + 1) + 1)) r.high,
        )
        h

-- In each mode in which the log shows an address, for each opcode: where the operand lies in RAM
-- or in a bank of the cartridge, and an indirect jump's pointer too, both the log and the CPU
-- return, the log changes nothing, and the address that it goes on with is the one that the CPU
-- computes once the opcode is fetched. The text that the log has printed then ends in this
-- address and a blank: read as hexadecimal, its last two digits in the modes of the zero page,
-- and its last four in the others, give the address.
pub log_address-set_address :
    (o : Opcode) (mode : AddressMode) (e : Emulator)
    → shows_address mode ≡ true
    → IsReadable mode (fetched e)
    → (shown : Operand) × (c : Cpu) × (log_mode mode e ≡ done (shown, e))
      × (set_address o mode (fetched e) ≡ done (tt, record e { cpu = c }))
      × (shown.address ≡ c.address)
      × EndsIn (address_digits mode) c.address shown.printed
unfolding addressed
log_address-set_address o mode e h r =
    let logged = address-logged e mode h r in
    (
      logged.0,
      addressed o mode (seen (fetched e)) (fetched e).cpu,
      bytes-read e mode r logged.0 logged.1,
      set_address_lem o mode (fetched e) r,
      logged.2,
      subst (λ a. EndsIn (address_digits mode) a logged.0.printed) logged.2 logged.3,
    )
