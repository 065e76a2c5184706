-- ===== src/Tlv/Types.antt =====
-- tlv.go, the constants: the type byte of an item (TLVTypeNull and so on), the length formats
-- (TLVLenShort and so on) and the largest length of each.
use fragmenta.Base.{ℕ}

abbrev pub null : ℕ
null = 0

abbrev pub int8 : ℕ
int8 = 1

abbrev pub uint8 : ℕ
uint8 = 2

abbrev pub int16 : ℕ
int16 = 3

abbrev pub uint16 : ℕ
uint16 = 4

abbrev pub int32 : ℕ
int32 = 5

abbrev pub uint32 : ℕ
uint32 = 6

abbrev pub int64 : ℕ
int64 = 7

abbrev pub uint64 : ℕ
uint64 = 8

abbrev pub float32 : ℕ
float32 = 9

abbrev pub float64 : ℕ
float64 = 10

abbrev pub string : ℕ
string = 11

abbrev pub bytes : ℕ
bytes = 12

abbrev pub bool : ℕ
bool = 13

abbrev pub array : ℕ
array = 14

abbrev pub map : ℕ
map = 15

abbrev pub custom : ℕ
custom = 16

abbrev pub len_mask : ℕ
len_mask = 0x07

abbrev pub len_short : ℕ
len_short = 0x00

abbrev pub len_medium : ℕ
len_medium = 0x01

abbrev pub len_long : ℕ
len_long = 0x02

abbrev pub len_very_long : ℕ
len_very_long = 0x03

abbrev pub max_short_len : ℕ
max_short_len = 0xff

abbrev pub max_medium_len : ℕ
max_medium_len = 0xffff

abbrev pub max_long_len : ℕ
max_long_len = 0xffff_ffff
