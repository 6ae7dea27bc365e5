-- ===== src/Opcode.antt =====
-- bitcoinsuite-core/src/opcode.rs: the opcodes of the script language, one byte each.
use bitcoinsuite.Base.{ℕ}

abbrev pub op_0 : ℕ
op_0 = 0x00

abbrev pub op_false : ℕ
op_false = op_0

abbrev pub op_pushdata1 : ℕ
op_pushdata1 = 0x4c

abbrev pub op_pushdata2 : ℕ
op_pushdata2 = 0x4d

abbrev pub op_pushdata4 : ℕ
op_pushdata4 = 0x4e

abbrev pub op_1negate : ℕ
op_1negate = 0x4f

abbrev pub op_reserved : ℕ
op_reserved = 0x50

abbrev pub op_1 : ℕ
op_1 = 0x51

abbrev pub op_true : ℕ
op_true = op_1

abbrev pub op_2 : ℕ
op_2 = 0x52

abbrev pub op_3 : ℕ
op_3 = 0x53

abbrev pub op_4 : ℕ
op_4 = 0x54

abbrev pub op_5 : ℕ
op_5 = 0x55

abbrev pub op_6 : ℕ
op_6 = 0x56

abbrev pub op_7 : ℕ
op_7 = 0x57

abbrev pub op_8 : ℕ
op_8 = 0x58

abbrev pub op_9 : ℕ
op_9 = 0x59

abbrev pub op_10 : ℕ
op_10 = 0x5a

abbrev pub op_11 : ℕ
op_11 = 0x5b

abbrev pub op_12 : ℕ
op_12 = 0x5c

abbrev pub op_13 : ℕ
op_13 = 0x5d

abbrev pub op_14 : ℕ
op_14 = 0x5e

abbrev pub op_15 : ℕ
op_15 = 0x5f

abbrev pub op_16 : ℕ
op_16 = 0x60

abbrev pub op_nop : ℕ
op_nop = 0x61

abbrev pub op_scripttype : ℕ
op_scripttype = 0x62

abbrev pub op_if : ℕ
op_if = 0x63

abbrev pub op_notif : ℕ
op_notif = 0x64

abbrev pub op_verif : ℕ
op_verif = 0x65

abbrev pub op_vernotif : ℕ
op_vernotif = 0x66

abbrev pub op_else : ℕ
op_else = 0x67

abbrev pub op_endif : ℕ
op_endif = 0x68

abbrev pub op_verify : ℕ
op_verify = 0x69

abbrev pub op_return : ℕ
op_return = 0x6a

abbrev pub op_toaltstack : ℕ
op_toaltstack = 0x6b

abbrev pub op_fromaltstack : ℕ
op_fromaltstack = 0x6c

abbrev pub op_2drop : ℕ
op_2drop = 0x6d

abbrev pub op_2dup : ℕ
op_2dup = 0x6e

abbrev pub op_3dup : ℕ
op_3dup = 0x6f

abbrev pub op_2over : ℕ
op_2over = 0x70

abbrev pub op_2rot : ℕ
op_2rot = 0x71

abbrev pub op_2swap : ℕ
op_2swap = 0x72

abbrev pub op_ifdup : ℕ
op_ifdup = 0x73

abbrev pub op_depth : ℕ
op_depth = 0x74

abbrev pub op_drop : ℕ
op_drop = 0x75

abbrev pub op_dup : ℕ
op_dup = 0x76

abbrev pub op_nip : ℕ
op_nip = 0x77

abbrev pub op_over : ℕ
op_over = 0x78

abbrev pub op_pick : ℕ
op_pick = 0x79

abbrev pub op_roll : ℕ
op_roll = 0x7a

abbrev pub op_rot : ℕ
op_rot = 0x7b

abbrev pub op_swap : ℕ
op_swap = 0x7c

abbrev pub op_tuck : ℕ
op_tuck = 0x7d

abbrev pub op_cat : ℕ
op_cat = 0x7e

abbrev pub op_split : ℕ
op_split = 0x7f

abbrev pub op_num2bin : ℕ
op_num2bin = 0x80

abbrev pub op_bin2num : ℕ
op_bin2num = 0x81

abbrev pub op_size : ℕ
op_size = 0x82

abbrev pub op_invert : ℕ
op_invert = 0x83

abbrev pub op_and : ℕ
op_and = 0x84

abbrev pub op_or : ℕ
op_or = 0x85

abbrev pub op_xor : ℕ
op_xor = 0x86

abbrev pub op_equal : ℕ
op_equal = 0x87

abbrev pub op_equalverify : ℕ
op_equalverify = 0x88

abbrev pub op_reserved1 : ℕ
op_reserved1 = 0x89

abbrev pub op_reserved2 : ℕ
op_reserved2 = 0x8a

abbrev pub op_1add : ℕ
op_1add = 0x8b

abbrev pub op_1sub : ℕ
op_1sub = 0x8c

abbrev pub op_2mul : ℕ
op_2mul = 0x8d

abbrev pub op_2div : ℕ
op_2div = 0x8e

abbrev pub op_negate : ℕ
op_negate = 0x8f

abbrev pub op_abs : ℕ
op_abs = 0x90

abbrev pub op_not : ℕ
op_not = 0x91

abbrev pub op_0notequal : ℕ
op_0notequal = 0x92

abbrev pub op_add : ℕ
op_add = 0x93

abbrev pub op_sub : ℕ
op_sub = 0x94

abbrev pub op_mul : ℕ
op_mul = 0x95

abbrev pub op_div : ℕ
op_div = 0x96

abbrev pub op_mod : ℕ
op_mod = 0x97

abbrev pub op_rawleftbitshift : ℕ
op_rawleftbitshift = 0x98

abbrev pub op_mulpow2 : ℕ
op_mulpow2 = 0x99

abbrev pub op_booland : ℕ
op_booland = 0x9a

abbrev pub op_boolor : ℕ
op_boolor = 0x9b

abbrev pub op_numequal : ℕ
op_numequal = 0x9c

abbrev pub op_numequalverify : ℕ
op_numequalverify = 0x9d

abbrev pub op_numnotequal : ℕ
op_numnotequal = 0x9e

abbrev pub op_lessthan : ℕ
op_lessthan = 0x9f

abbrev pub op_greaterthan : ℕ
op_greaterthan = 0xa0

abbrev pub op_lessthanorequal : ℕ
op_lessthanorequal = 0xa1

abbrev pub op_greaterthanorequal : ℕ
op_greaterthanorequal = 0xa2

abbrev pub op_min : ℕ
op_min = 0xa3

abbrev pub op_max : ℕ
op_max = 0xa4

abbrev pub op_within : ℕ
op_within = 0xa5

abbrev pub op_ripemd160 : ℕ
op_ripemd160 = 0xa6

abbrev pub op_sha1 : ℕ
op_sha1 = 0xa7

abbrev pub op_sha256 : ℕ
op_sha256 = 0xa8

abbrev pub op_hash160 : ℕ
op_hash160 = 0xa9

abbrev pub op_hash256 : ℕ
op_hash256 = 0xaa

abbrev pub op_codeseparator : ℕ
op_codeseparator = 0xab

abbrev pub op_checksig : ℕ
op_checksig = 0xac

abbrev pub op_checksigverify : ℕ
op_checksigverify = 0xad

abbrev pub op_checkmultisig : ℕ
op_checkmultisig = 0xae

abbrev pub op_checkmultisigverify : ℕ
op_checkmultisigverify = 0xaf

abbrev pub op_nop1 : ℕ
op_nop1 = 0xb0

abbrev pub op_checklocktimeverify : ℕ
op_checklocktimeverify = 0xb1

abbrev pub op_nop2 : ℕ
op_nop2 = op_checklocktimeverify

abbrev pub op_checksequenceverify : ℕ
op_checksequenceverify = 0xb2

abbrev pub op_nop3 : ℕ
op_nop3 = op_checksequenceverify

abbrev pub op_nop4 : ℕ
op_nop4 = 0xb3

abbrev pub op_nop5 : ℕ
op_nop5 = 0xb4

abbrev pub op_nop6 : ℕ
op_nop6 = 0xb5

abbrev pub op_nop7 : ℕ
op_nop7 = 0xb6

abbrev pub op_nop8 : ℕ
op_nop8 = 0xb7

abbrev pub op_nop9 : ℕ
op_nop9 = 0xb8

abbrev pub op_nop10 : ℕ
op_nop10 = 0xb9

abbrev pub op_checkdatasig : ℕ
op_checkdatasig = 0xba

abbrev pub op_checkdatasigverify : ℕ
op_checkdatasigverify = 0xbb

abbrev pub op_reversebytes : ℕ
op_reversebytes = 0xbc

abbrev pub op_prefix_begin : ℕ
op_prefix_begin = 0xf0

abbrev pub op_prefix_end : ℕ
op_prefix_end = 0xf7

abbrev pub op_invalidopcode : ℕ
op_invalidopcode = 0xff
