-- ===== src/Interrupts/PanicTexts.antt =====
-- The texts of `panic` in kernel/cpu/idt.c: `exceptions` and `opcodes`, the latter in eight rows.
use l_ost.Common.{ℕ, List, [], ◌∷◌, ◌++◌, codes}

abbrev pub exceptions : List (List ℕ)
exceptions =
    codes "Divide by 0"
    ∷ codes "Reserved"
    ∷ codes "NMI Interrupt"
    ∷ codes "Breakpoint"
    ∷ codes "Overflow"
    ∷ codes "Bounds range exceeded"
    ∷ codes "Invalid Opcode"
    ∷ codes "Device not Available"
    ∷ codes "Double Fault"
    ∷ codes "Coprocessor Segment Overrun"
    ∷ codes "Invalid TSS"
    ∷ codes "Segment not Present"
    ∷ codes "Stack-segment"
    ∷ codes "General Protection"
    ∷ codes "Page Fault"
    ∷ codes "Reserved"
    ∷ codes "x87 FPU error"
    ∷ codes "Alignment Check"
    ∷ codes "Machine Check"
    ∷ codes "SIMD FP"
    ∷ codes "Reserved"
    ∷ codes "Reserved"
    ∷ codes "Reserved"
    ∷ codes "Reserved"
    ∷ codes "Reserved"
    ∷ codes "Reserved"
    ∷ codes "Reserved"
    ∷ codes "Reserved"
    ∷ codes "Reserved"
    ∷ codes "Reserved"
    ∷ codes "Reserved"
    ∷ codes "Software Panic!"
    ∷ []

abbrev opcodes_0 : List (List ℕ)
opcodes_0 =
    codes "ADD"
    ∷ codes "ADD"
    ∷ codes "ADD"
    ∷ codes "ADD"
    ∷ codes "ADD AL, "
    ∷ codes "ADD EAX, "
    ∷ codes "PUSH ES"
    ∷ codes "POP ES"
    ∷ codes "OR"
    ∷ codes "OR"
    ∷ codes "OR"
    ∷ codes "OR"
    ∷ codes "OR AL, "
    ∷ codes "OR EAX, "
    ∷ codes "PUSH CS"
    ∷ codes "0x0F"
    ∷ codes "ADC"
    ∷ codes "ADC"
    ∷ codes "ADC"
    ∷ codes "ADC"
    ∷ codes "ADC AL,"
    ∷ codes "ADC EAX, "
    ∷ codes "PUSH SS"
    ∷ codes "POP SS"
    ∷ codes "SBB"
    ∷ codes "SBB"
    ∷ codes "SBB"
    ∷ codes "SBB"
    ∷ codes "SBB AL,"
    ∷ codes "SBB EAX,"
    ∷ codes "PUSH DS"
    ∷ codes "POP DS"
    ∷ []

abbrev opcodes_1 : List (List ℕ)
opcodes_1 =
    codes "AND"
    ∷ codes "AND"
    ∷ codes "AND"
    ∷ codes "AND"
    ∷ codes "AND AL,"
    ∷ codes "AND EAX,"
    ∷ codes "ES:"
    ∷ codes "DAA"
    ∷ codes "SUB"
    ∷ codes "SUB"
    ∷ codes "SUB"
    ∷ codes "SUB"
    ∷ codes "SUB AL,"
    ∷ codes "SUB EAX,"
    ∷ codes "CS:"
    ∷ codes "DAS"
    ∷ codes "XOR"
    ∷ codes "XOR"
    ∷ codes "XOR"
    ∷ codes "XOR"
    ∷ codes "XOR AL,"
    ∷ codes "XOR EAX,"
    ∷ codes "SS:"
    ∷ codes "AAA"
    ∷ codes "CMP"
    ∷ codes "CMP"
    ∷ codes "CMP"
    ∷ codes "CMP"
    ∷ codes "CMP AL, "
    ∷ codes "CMP EAX,"
    ∷ codes "DS:"
    ∷ codes "AAS"
    ∷ []

abbrev opcodes_2 : List (List ℕ)
opcodes_2 =
    codes "INC EAX"
    ∷ codes "INC ECX"
    ∷ codes "INC EDX"
    ∷ codes "INC EBX"
    ∷ codes "INC ESP"
    ∷ codes "INC EBP"
    ∷ codes "INC ESI"
    ∷ codes "INC EDI"
    ∷ codes "DEC EAX"
    ∷ codes "DEC ECX"
    ∷ codes "DEC EDX"
    ∷ codes "DEC EBX"
    ∷ codes "DEC ESP"
    ∷ codes "DEC EBP"
    ∷ codes "DEC ESP"
    ∷ codes "DEC EDI"
    ∷ codes "PUSH EAX"
    ∷ codes "PUSH ECX"
    ∷ codes "PUSH EDX"
    ∷ codes "PUSH EBX"
    ∷ codes "PUSH ESP"
    ∷ codes "PUSH EBP"
    ∷ codes "PUSH ESI"
    ∷ codes "PUSH EDI"
    ∷ codes "POP EAX"
    ∷ codes "POP ECX"
    ∷ codes "POP EDX"
    ∷ codes "POP EBX"
    ∷ codes "POP ESP"
    ∷ codes "POP EBP"
    ∷ codes "POP ESI"
    ∷ codes "POP EDI"
    ∷ []

abbrev opcodes_3 : List (List ℕ)
opcodes_3 =
    codes "PUSHA"
    ∷ codes "POPA"
    ∷ codes "BOUND"
    ∷ codes "ARPL"
    ∷ codes "FS:"
    ∷ codes "GS:"
    ∷ codes "OPSIZE:"
    ∷ codes "ADSIZE"
    ∷ codes "PUSH"
    ∷ codes "IMUL"
    ∷ codes "PUSH"
    ∷ codes "IMUL"
    ∷ codes "INSB"
    ∷ codes "INSW"
    ∷ codes "OUTSB"
    ∷ codes "OUTSW"
    ∷ codes "JO"
    ∷ codes "JNO"
    ∷ codes "JB"
    ∷ codes "JNB"
    ∷ codes "JZ"
    ∷ codes "JNZ"
    ∷ codes "JBE"
    ∷ codes "JA"
    ∷ codes "JS"
    ∷ codes "JNS"
    ∷ codes "JP"
    ∷ codes "JNP"
    ∷ codes "JL"
    ∷ codes "JNL"
    ∷ codes "JLE"
    ∷ codes "JNLE"
    ∷ []

abbrev opcodes_4 : List (List ℕ)
opcodes_4 =
    codes "ADD"
    ∷ codes "ADD"
    ∷ codes "SUB"
    ∷ codes "SUB"
    ∷ codes "TEST"
    ∷ codes "TEST"
    ∷ codes "XCHG"
    ∷ codes "XCHG"
    ∷ codes "MOV"
    ∷ codes "MOV"
    ∷ codes "MOV"
    ∷ codes "MOV"
    ∷ codes "MOV"
    ∷ codes "LEA"
    ∷ codes "MOV"
    ∷ codes "POP"
    ∷ codes "NOP"
    ∷ codes "XCHG EAX, ECX"
    ∷ codes "XCHG EAX, EDX"
    ∷ codes "XCHG EAX, EBX"
    ∷ codes "XCHG EAX, ESP"
    ∷ codes "XCHG EAX, EBP"
    ∷ codes "XCHG EAX, ESI"
    ∷ codes "XCHG EAX, EDI"
    ∷ codes "CBW"
    ∷ codes "CWD"
    ∷ codes "CALL"
    ∷ codes "WAIT"
    ∷ codes "PUSHF"
    ∷ codes "POPF"
    ∷ codes "SAHF"
    ∷ codes "LAHF"
    ∷ []

abbrev opcodes_5 : List (List ℕ)
opcodes_5 =
    codes "MOV AL,"
    ∷ codes "MOV EAX"
    ∷ codes "MOV X, AL"
    ∷ codes "MOV X, EAX"
    ∷ codes "MOVSB"
    ∷ codes "MOVSW"
    ∷ codes "CMPSB"
    ∷ codes "CMPSW"
    ∷ codes "TEST AL, "
    ∷ codes "TEST EAX"
    ∷ codes "STOSB"
    ∷ codes "STOSW"
    ∷ codes "LODSB"
    ∷ codes "LODSW"
    ∷ codes "SCASB"
    ∷ codes "SCASW"
    ∷ codes "MOV AL,"
    ∷ codes "MOV CL,"
    ∷ codes "MOV DL,"
    ∷ codes "MOV BL,"
    ∷ codes "MOV AH,"
    ∷ codes "MOV CH,"
    ∷ codes "MOV DH, "
    ∷ codes "MOV BH,"
    ∷ codes "MOV EAX,"
    ∷ codes "MOV ECX, "
    ∷ codes "MOV EDX, "
    ∷ codes "MOV EBX,"
    ∷ codes "MOV ESP,"
    ∷ codes "MOV EBP,"
    ∷ codes "MOV ESI,"
    ∷ codes "MOV EDI,"
    ∷ []

abbrev opcodes_6 : List (List ℕ)
opcodes_6 =
    codes "N/A"
    ∷ codes "N/A"
    ∷ codes "RETN"
    ∷ codes "RETN"
    ∷ codes "LES"
    ∷ codes "LDS"
    ∷ codes "MOV"
    ∷ codes "MOV"
    ∷ codes "ENTER"
    ∷ codes "LEAVE"
    ∷ codes "RETF"
    ∷ codes "RETF"
    ∷ codes "INT3"
    ∷ codes "INT"
    ∷ codes "INTO"
    ∷ codes "IRET"
    ∷ codes "N/A"
    ∷ codes "N/A"
    ∷ codes "N/A"
    ∷ codes "N/A"
    ∷ codes "AAM"
    ∷ codes "AAD"
    ∷ codes "SALC"
    ∷ codes "XLAT"
    ∷ codes "ESC"
    ∷ codes "ESC"
    ∷ codes "ESC"
    ∷ codes "ESC"
    ∷ codes "ESC"
    ∷ codes "ESC"
    ∷ codes "ESC"
    ∷ codes "ESC"
    ∷ []

abbrev opcodes_7 : List (List ℕ)
opcodes_7 =
    codes "LOOPNZ"
    ∷ codes "LOOPZ"
    ∷ codes "LOOP"
    ∷ codes "JCXZ"
    ∷ codes "IN AL"
    ∷ codes "IN EAX"
    ∷ codes "OUT AL"
    ∷ codes "OUT EAX"
    ∷ codes "CALL"
    ∷ codes "JMP"
    ∷ codes "JMP"
    ∷ codes "JMP"
    ∷ codes "IN AL, DX"
    ∷ codes "IN EAX, DX"
    ∷ codes "OUT DX, AL"
    ∷ codes "OUT DX, EAX"
    ∷ codes "LOCK"
    ∷ codes "INT1"
    ∷ codes "REPNE:"
    ∷ codes "REP:"
    ∷ codes "HLT"
    ∷ codes "CMC"
    ∷ codes "N/A"
    ∷ codes "N/A"
    ∷ codes "CLC"
    ∷ codes "STC"
    ∷ codes "CLI"
    ∷ codes "STI"
    ∷ codes "CLD"
    ∷ codes "STD"
    ∷ codes "N/A"
    ∷ codes "N/A"
    ∷ []

abbrev pub opcodes : List (List ℕ)
opcodes =
    opcodes_0
    ++ (opcodes_1
        ++ (opcodes_2 ++ (opcodes_3 ++ (opcodes_4 ++ (opcodes_5 ++ (opcodes_6 ++ (opcodes_7)))))))
