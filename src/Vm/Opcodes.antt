-- ===== src/Vm/Opcodes.antt =====
-- The opcodes of the VM and their names (crates/http-api/src/support.rs).
use explorer_backend.Base.{
  List, Option, Text, [], codes, none, some, to_string, ℕ, ◌∷◌, text_key, nat_eq,
}
use explorer_backend.Base.Map.{lookup}

abbrev pub vm_type_number : ℕ
vm_type_number = 3

abbrev pub vm_type_string : ℕ
vm_type_string = 4

abbrev pub opcode_nop : ℕ
opcode_nop = 0

abbrev pub opcode_move : ℕ
opcode_move = 1

abbrev pub opcode_copy : ℕ
opcode_copy = 2

abbrev pub opcode_push : ℕ
opcode_push = 3

abbrev pub opcode_pop : ℕ
opcode_pop = 4

abbrev pub opcode_swap : ℕ
opcode_swap = 5

abbrev pub opcode_call : ℕ
opcode_call = 6

abbrev pub opcode_extcall : ℕ
opcode_extcall = 7

abbrev pub opcode_jmp : ℕ
opcode_jmp = 8

abbrev pub opcode_jmpif : ℕ
opcode_jmpif = 9

abbrev pub opcode_jmpnot : ℕ
opcode_jmpnot = 10

abbrev pub opcode_ret : ℕ
opcode_ret = 11

abbrev pub opcode_throw : ℕ
opcode_throw = 12

abbrev pub opcode_load : ℕ
opcode_load = 13

abbrev pub opcode_cast : ℕ
opcode_cast = 14

abbrev pub opcode_cat : ℕ
opcode_cat = 15

abbrev pub opcode_range : ℕ
opcode_range = 16

abbrev pub opcode_left : ℕ
opcode_left = 17

abbrev pub opcode_right : ℕ
opcode_right = 18

abbrev pub opcode_size : ℕ
opcode_size = 19

abbrev pub opcode_count : ℕ
opcode_count = 20

abbrev pub opcode_not : ℕ
opcode_not = 21

abbrev pub opcode_and : ℕ
opcode_and = 22

abbrev pub opcode_or : ℕ
opcode_or = 23

abbrev pub opcode_xor : ℕ
opcode_xor = 24

abbrev pub opcode_equal : ℕ
opcode_equal = 25

abbrev pub opcode_lt : ℕ
opcode_lt = 26

abbrev pub opcode_gt : ℕ
opcode_gt = 27

abbrev pub opcode_lte : ℕ
opcode_lte = 28

abbrev pub opcode_gte : ℕ
opcode_gte = 29

abbrev pub opcode_inc : ℕ
opcode_inc = 30

abbrev pub opcode_dec : ℕ
opcode_dec = 31

abbrev pub opcode_sign : ℕ
opcode_sign = 32

abbrev pub opcode_negate : ℕ
opcode_negate = 33

abbrev pub opcode_abs : ℕ
opcode_abs = 34

abbrev pub opcode_add : ℕ
opcode_add = 35

abbrev pub opcode_sub : ℕ
opcode_sub = 36

abbrev pub opcode_mul : ℕ
opcode_mul = 37

abbrev pub opcode_div : ℕ
opcode_div = 38

abbrev pub opcode_mod : ℕ
opcode_mod = 39

abbrev pub opcode_shl : ℕ
opcode_shl = 40

abbrev pub opcode_shr : ℕ
opcode_shr = 41

abbrev pub opcode_min : ℕ
opcode_min = 42

abbrev pub opcode_max : ℕ
opcode_max = 43

abbrev pub opcode_pow : ℕ
opcode_pow = 44

abbrev pub opcode_ctx : ℕ
opcode_ctx = 45

abbrev pub opcode_switch : ℕ
opcode_switch = 46

abbrev pub opcode_put : ℕ
opcode_put = 47

abbrev pub opcode_get : ℕ
opcode_get = 48

abbrev pub opcode_clear : ℕ
opcode_clear = 49

abbrev pub opcode_unpack : ℕ
opcode_unpack = 50

abbrev pub opcode_pack : ℕ
opcode_pack = 51

abbrev pub opcode_debug : ℕ
opcode_debug = 52

abbrev pub opcode_substr : ℕ
opcode_substr = 53

abbrev pub opcode_remove : ℕ
opcode_remove = 54

abbrev pub opcode_evm : ℕ
opcode_evm = 255

-- The arms of the match in `opcode_name`.
abbrev opcode_names : List (ℕ × Text)
opcode_names =
    (opcode_nop, codes "NOP")
    ∷ (opcode_move, codes "MOVE")
    ∷ (opcode_copy, codes "COPY")
    ∷ (opcode_push, codes "PUSH")
    ∷ (opcode_pop, codes "POP")
    ∷ (opcode_swap, codes "SWAP")
    ∷ (opcode_call, codes "CALL")
    ∷ (opcode_extcall, codes "EXTCALL")
    ∷ (opcode_jmp, codes "JMP")
    ∷ (opcode_jmpif, codes "JMPIF")
    ∷ (opcode_jmpnot, codes "JMPNOT")
    ∷ (opcode_ret, codes "RET")
    ∷ (opcode_throw, codes "THROW")
    ∷ (opcode_load, codes "LOAD")
    ∷ (opcode_cast, codes "CAST")
    ∷ (opcode_cat, codes "CAT")
    ∷ (opcode_range, codes "RANGE")
    ∷ (opcode_left, codes "LEFT")
    ∷ (opcode_right, codes "RIGHT")
    ∷ (opcode_size, codes "SIZE")
    ∷ (opcode_count, codes "COUNT")
    ∷ (opcode_not, codes "NOT")
    ∷ (opcode_and, codes "AND")
    ∷ (opcode_or, codes "OR")
    ∷ (opcode_xor, codes "XOR")
    ∷ (opcode_equal, codes "EQUAL")
    ∷ (opcode_lt, codes "LT")
    ∷ (opcode_gt, codes "GT")
    ∷ (opcode_lte, codes "LTE")
    ∷ (opcode_gte, codes "GTE")
    ∷ (opcode_inc, codes "INC")
    ∷ (opcode_dec, codes "DEC")
    ∷ (opcode_sign, codes "SIGN")
    ∷ (opcode_negate, codes "NEGATE")
    ∷ (opcode_abs, codes "ABS")
    ∷ (opcode_add, codes "ADD")
    ∷ (opcode_sub, codes "SUB")
    ∷ (opcode_mul, codes "MUL")
    ∷ (opcode_div, codes "DIV")
    ∷ (opcode_mod, codes "MOD")
    ∷ (opcode_shl, codes "SHL")
    ∷ (opcode_shr, codes "SHR")
    ∷ (opcode_min, codes "MIN")
    ∷ (opcode_max, codes "MAX")
    ∷ (opcode_pow, codes "POW")
    ∷ (opcode_ctx, codes "CTX")
    ∷ (opcode_switch, codes "SWITCH")
    ∷ (opcode_put, codes "PUT")
    ∷ (opcode_get, codes "GET")
    ∷ (opcode_clear, codes "CLEAR")
    ∷ (opcode_unpack, codes "UNPACK")
    ∷ (opcode_pack, codes "PACK")
    ∷ (opcode_debug, codes "DEBUG")
    ∷ (opcode_substr, codes "SUBSTR")
    ∷ (opcode_remove, codes "REMOVE")
    ∷ (opcode_evm, codes "EVM")
    ∷ []

abbrev name_or : Text → Option Text → Text
name_or other none = other
name_or other (some name) = name

unfoldable pub opcode_name : ℕ → Text
opcode_name opcode = name_or (to_string opcode) (lookup opcode opcode_names)
