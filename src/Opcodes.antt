-- ===== src/Opcodes.antt =====
-- emulator/opcodes.h: the opcodes, the addressing modes and the two lookup tables.
use nes_emulator.Prelude.{ℕ, List, [], ◌∷◌, get_or}

-- `Opcode`, the legal ones first
pub data Opcode : Type 0 where
  adc and asl bcc bcs beq bit bmi bne bpl brk bvc bvs clc : Opcode
  cld cli clv cmp cpx cpy dec dex dey eor inc inx iny jmp : Opcode
  jsr lda ldx ldy lsr nop ora pha php pla plp rol ror rti : Opcode
  rts sbc sec sed sei sta stx sty tax tay tsx txa txs tya : Opcode
  alr anc an2 ane arr dcp isb las lax lxa rla : Opcode
  rra sax sbx sha shx shy slo sre tas ubc jam : Opcode

-- `AddressMode`
pub data AddressMode : Type 0 where
  acc abs abx aby imm imp ind xin yin rel zp0 zpx zpy unk : AddressMode

-- `Instruction`
pub record Instruction : Type 0 where
  pub opcode : Opcode
  pub address_mode : AddressMode

abbrev ins : Opcode → AddressMode → Instruction
ins o m = record { opcode = o; address_mode = m }

instructions_00 : List Instruction → List Instruction
instructions_00 rest =
    ins brk imp
    ∷ ins ora xin
    ∷ ins jam unk
    ∷ ins slo xin
    ∷ ins nop zp0
    ∷ ins ora zp0
    ∷ ins asl zp0
    ∷ ins slo zp0
    ∷ ins php imp
    ∷ ins ora imm
    ∷ ins asl acc
    ∷ ins anc imm
    ∷ ins nop abs
    ∷ ins ora abs
    ∷ ins asl abs
    ∷ ins slo abs
    ∷ ins bpl rel
    ∷ ins ora yin
    ∷ ins jam unk
    ∷ ins slo yin
    ∷ ins nop zpx
    ∷ ins ora zpx
    ∷ ins asl zpx
    ∷ ins slo zpx
    ∷ ins clc imp
    ∷ ins ora aby
    ∷ ins nop imp
    ∷ ins slo aby
    ∷ ins nop abx
    ∷ ins ora abx
    ∷ ins asl abx
    ∷ ins slo abx
    ∷ rest

instructions_20 : List Instruction → List Instruction
instructions_20 rest =
    ins jsr abs
    ∷ ins and xin
    ∷ ins jam unk
    ∷ ins rla xin
    ∷ ins bit zp0
    ∷ ins and zp0
    ∷ ins rol zp0
    ∷ ins rla zp0
    ∷ ins plp imp
    ∷ ins and imm
    ∷ ins rol acc
    ∷ ins anc imm
    ∷ ins bit abs
    ∷ ins and abs
    ∷ ins rol abs
    ∷ ins rla abs
    ∷ ins bmi rel
    ∷ ins and yin
    ∷ ins jam unk
    ∷ ins rla yin
    ∷ ins nop zpx
    ∷ ins and zpx
    ∷ ins rol zpx
    ∷ ins rla zpx
    ∷ ins sec imp
    ∷ ins and aby
    ∷ ins nop imp
    ∷ ins rla aby
    ∷ ins nop abx
    ∷ ins and abx
    ∷ ins rol abx
    ∷ ins rla abx
    ∷ rest

instructions_40 : List Instruction → List Instruction
instructions_40 rest =
    ins rti imp
    ∷ ins eor xin
    ∷ ins jam unk
    ∷ ins sre xin
    ∷ ins nop zp0
    ∷ ins eor zp0
    ∷ ins lsr zp0
    ∷ ins sre zp0
    ∷ ins pha imp
    ∷ ins eor imm
    ∷ ins lsr acc
    ∷ ins alr imm
    ∷ ins jmp abs
    ∷ ins eor abs
    ∷ ins lsr abs
    ∷ ins sre abs
    ∷ ins bvc rel
    ∷ ins eor yin
    ∷ ins jam unk
    ∷ ins sre yin
    ∷ ins nop zpx
    ∷ ins eor zpx
    ∷ ins lsr zpx
    ∷ ins sre zpx
    ∷ ins cli imp
    ∷ ins eor aby
    ∷ ins nop imp
    ∷ ins sre aby
    ∷ ins nop abx
    ∷ ins eor abx
    ∷ ins lsr abx
    ∷ ins sre abx
    ∷ rest

instructions_60 : List Instruction → List Instruction
instructions_60 rest =
    ins rts imp
    ∷ ins adc xin
    ∷ ins jam unk
    ∷ ins rra xin
    ∷ ins nop zp0
    ∷ ins adc zp0
    ∷ ins ror zp0
    ∷ ins rra zp0
    ∷ ins pla imp
    ∷ ins adc imm
    ∷ ins ror acc
    ∷ ins arr imm
    ∷ ins jmp ind
    ∷ ins adc abs
    ∷ ins ror abs
    ∷ ins rra abs
    ∷ ins bvs rel
    ∷ ins adc yin
    ∷ ins jam unk
    ∷ ins rra yin
    ∷ ins nop zpx
    ∷ ins adc zpx
    ∷ ins ror zpx
    ∷ ins rra zpx
    ∷ ins sei imp
    ∷ ins adc aby
    ∷ ins nop imp
    ∷ ins rra aby
    ∷ ins nop abx
    ∷ ins adc abx
    ∷ ins ror abx
    ∷ ins rra abx
    ∷ rest

instructions_80 : List Instruction → List Instruction
instructions_80 rest =
    ins nop imm
    ∷ ins sta xin
    ∷ ins nop imm
    ∷ ins sax xin
    ∷ ins sty zp0
    ∷ ins sta zp0
    ∷ ins stx zp0
    ∷ ins sax zp0
    ∷ ins dey imp
    ∷ ins nop imm
    ∷ ins txa imp
    ∷ ins ane imm
    ∷ ins sty abs
    ∷ ins sta abs
    ∷ ins stx abs
    ∷ ins sax abs
    ∷ ins bcc rel
    ∷ ins sta yin
    ∷ ins jam unk
    ∷ ins sha yin
    ∷ ins sty zpx
    ∷ ins sta zpx
    ∷ ins stx zpy
    ∷ ins sax zpy
    ∷ ins tya imp
    ∷ ins sta aby
    ∷ ins txs imp
    ∷ ins tas aby
    ∷ ins shy abx
    ∷ ins sta abx
    ∷ ins shx aby
    ∷ ins sha aby
    ∷ rest

instructions_a0 : List Instruction → List Instruction
instructions_a0 rest =
    ins ldy imm
    ∷ ins lda xin
    ∷ ins ldx imm
    ∷ ins lax xin
    ∷ ins ldy zp0
    ∷ ins lda zp0
    ∷ ins ldx zp0
    ∷ ins lax zp0
    ∷ ins tay imp
    ∷ ins lda imm
    ∷ ins tax imp
    ∷ ins lax imm
    ∷ ins ldy abs
    ∷ ins lda abs
    ∷ ins ldx abs
    ∷ ins lax abs
    ∷ ins bcs rel
    ∷ ins lda yin
    ∷ ins jam unk
    ∷ ins lax yin
    ∷ ins ldy zpx
    ∷ ins lda zpx
    ∷ ins ldx zpy
    ∷ ins lax zpy
    ∷ ins clv imp
    ∷ ins lda aby
    ∷ ins tsx imp
    ∷ ins las aby
    ∷ ins ldy abx
    ∷ ins lda abx
    ∷ ins ldx aby
    ∷ ins lax aby
    ∷ rest

instructions_c0 : List Instruction → List Instruction
instructions_c0 rest =
    ins cpy imm
    ∷ ins cmp xin
    ∷ ins nop imm
    ∷ ins dcp xin
    ∷ ins cpy zp0
    ∷ ins cmp zp0
    ∷ ins dec zp0
    ∷ ins dcp zp0
    ∷ ins iny imp
    ∷ ins cmp imm
    ∷ ins dex imp
    ∷ ins sbx imm
    ∷ ins cpy abs
    ∷ ins cmp abs
    ∷ ins dec abs
    ∷ ins dcp abs
    ∷ ins bne rel
    ∷ ins cmp yin
    ∷ ins jam unk
    ∷ ins dcp yin
    ∷ ins nop zpx
    ∷ ins cmp zpx
    ∷ ins dec zpx
    ∷ ins dcp zpx
    ∷ ins cld imp
    ∷ ins cmp aby
    ∷ ins nop imp
    ∷ ins dcp aby
    ∷ ins nop abx
    ∷ ins cmp abx
    ∷ ins dec abx
    ∷ ins dcp abx
    ∷ rest

instructions_e0 : List Instruction → List Instruction
instructions_e0 rest =
    ins cpx imm
    ∷ ins sbc xin
    ∷ ins nop imm
    ∷ ins isb xin
    ∷ ins cpx zp0
    ∷ ins sbc zp0
    ∷ ins inc zp0
    ∷ ins isb zp0
    ∷ ins inx imp
    ∷ ins sbc imm
    ∷ ins nop imp
    ∷ ins sbc imm
    ∷ ins cpx abs
    ∷ ins sbc abs
    ∷ ins inc abs
    ∷ ins isb abs
    ∷ ins beq rel
    ∷ ins sbc yin
    ∷ ins jam unk
    ∷ ins isb yin
    ∷ ins nop zpx
    ∷ ins sbc zpx
    ∷ ins inc zpx
    ∷ ins isb zpx
    ∷ ins sed imp
    ∷ ins sbc aby
    ∷ ins nop imp
    ∷ ins isb aby
    ∷ ins nop abx
    ∷ ins sbc abx
    ∷ ins inc abx
    ∷ ins isb abx
    ∷ rest

-- `instruction_lookup`
unfoldable pub instruction_lookup : ℕ → Instruction
unfolding instructions_00 instructions_20 instructions_40 instructions_60 instructions_80
    instructions_a0 instructions_c0 instructions_e0
instruction_lookup byte =
    get_or
      (instructions_00 (
        instructions_20 (
          instructions_40 (
            instructions_60
              (instructions_80 (instructions_a0 (instructions_c0 (instructions_e0 []))))))))
      byte (ins jam unk)

-- `cycle_lookup`
unfoldable pub cycle_lookup : ℕ → ℕ
cycle_lookup byte =
    get_or
      (7 ∷ 6 ∷ 0 ∷ 8 ∷ 3 ∷ 3 ∷ 5 ∷ 5 ∷ 3 ∷ 2 ∷ 2 ∷ 2 ∷ 4 ∷ 4 ∷ 6 ∷ 6 ∷ 2 ∷ 5 ∷ 0 ∷ 8 ∷ 4 ∷ 4 ∷ 6 ∷ 6
        ∷ 2 ∷ 4 ∷ 2 ∷ 7 ∷ 4 ∷ 4 ∷ 7 ∷ 7 ∷ 6 ∷ 6 ∷ 0 ∷ 8 ∷ 3 ∷ 3 ∷ 5 ∷ 5 ∷ 4 ∷ 2 ∷ 2 ∷ 2 ∷ 4 ∷ 4 ∷ 6
        ∷ 6 ∷ 2 ∷ 5 ∷ 0 ∷ 8 ∷ 4 ∷ 4 ∷ 6 ∷ 6 ∷ 2 ∷ 4 ∷ 2 ∷ 7 ∷ 4 ∷ 4 ∷ 7 ∷ 7 ∷ 6 ∷ 6 ∷ 0 ∷ 8 ∷ 3 ∷ 3
        ∷ 5 ∷ 5 ∷ 3 ∷ 2 ∷ 2 ∷ 2 ∷ 3 ∷ 4 ∷ 6 ∷ 6 ∷ 2 ∷ 5 ∷ 0 ∷ 8 ∷ 4 ∷ 4 ∷ 6 ∷ 6 ∷ 2 ∷ 4 ∷ 2 ∷ 7 ∷ 4
        ∷ 4 ∷ 7 ∷ 7 ∷ 6 ∷ 6 ∷ 0 ∷ 8 ∷ 3 ∷ 3 ∷ 5 ∷ 5 ∷ 4 ∷ 2 ∷ 2 ∷ 2 ∷ 5 ∷ 4 ∷ 6 ∷ 6 ∷ 2 ∷ 5 ∷ 0 ∷ 8
        ∷ 4 ∷ 4 ∷ 6 ∷ 6 ∷ 2 ∷ 4 ∷ 2 ∷ 7 ∷ 4 ∷ 4 ∷ 7 ∷ 7 ∷ 2 ∷ 6 ∷ 2 ∷ 6 ∷ 3 ∷ 3 ∷ 3 ∷ 3 ∷ 2 ∷ 2 ∷ 2
        ∷ 2 ∷ 4 ∷ 4 ∷ 4 ∷ 4 ∷ 2 ∷ 6 ∷ 0 ∷ 6 ∷ 4 ∷ 4 ∷ 4 ∷ 4 ∷ 2 ∷ 5 ∷ 2 ∷ 5 ∷ 5 ∷ 5 ∷ 5 ∷ 5 ∷ 2 ∷ 6
        ∷ 2 ∷ 6 ∷ 3 ∷ 3 ∷ 3 ∷ 3 ∷ 2 ∷ 2 ∷ 2 ∷ 2 ∷ 4 ∷ 4 ∷ 4 ∷ 4 ∷ 2 ∷ 5 ∷ 0 ∷ 5 ∷ 4 ∷ 4 ∷ 4 ∷ 4 ∷ 2
        ∷ 4 ∷ 2 ∷ 4 ∷ 4 ∷ 4 ∷ 4 ∷ 4 ∷ 2 ∷ 6 ∷ 2 ∷ 8 ∷ 3 ∷ 3 ∷ 5 ∷ 5 ∷ 2 ∷ 2 ∷ 2 ∷ 2 ∷ 4 ∷ 4 ∷ 6 ∷ 6
        ∷ 2 ∷ 5 ∷ 0 ∷ 8 ∷ 4 ∷ 4 ∷ 6 ∷ 6 ∷ 2 ∷ 4 ∷ 2 ∷ 7 ∷ 4 ∷ 4 ∷ 7 ∷ 7 ∷ 2 ∷ 6 ∷ 2 ∷ 8 ∷ 3 ∷ 3 ∷ 5
        ∷ 5 ∷ 2 ∷ 2 ∷ 2 ∷ 2 ∷ 4 ∷ 4 ∷ 6 ∷ 6 ∷ 2 ∷ 5 ∷ 0 ∷ 8 ∷ 4 ∷ 4 ∷ 6 ∷ 6 ∷ 2 ∷ 4 ∷ 2 ∷ 7 ∷ 4 ∷ 4
        ∷ 7 ∷ 7 ∷ [])
      byte 0
