-- ===== src/Store/Header.antt =====
-- structs.go (FragmentaHeader), types.go (the codecs of numbers, the classes of tags) and format.go
-- (initializeHeader, writeHeader, readHeader, validateHeader): the header of the container file.
pub mod RoundTrip
use fragmenta.Base.{
  ℕ, ◌+◌, ◌<◌, ◌≡◌, ◌≢◌, ◌^◌, List, [], ◌∷◌, ◌++◌, length, take, ltb, leb, ◌==◌, if◌then◌else◌,
}
use fragmenta.Base.{Bool, ◌&&◌, ◌||◌, not, bit_and}
use fragmenta.Base.{Result, ok, err, ◌>>=◌, ◌>>◌, map_err}
use fragmenta.Base.Int.{ℤ, pos, to_unsigned, to_signed}
use fragmenta.Base.Bytes.{ReadError, be_bytes, be_value, read_full}
use fragmenta.Store.Disk.{File, seek, write_each, ahead, read_be, read_some, zeros, front}

-- FragmentaHeader. The two time stamps are int64 values.
pub record Header : Type 0 where
  pub magic : ℕ
  pub version : ℕ
  pub flags : ℕ
  pub timestamp : ℤ
  pub last_modified : ℤ
  pub storage_mode : ℕ
  pub reserved1 : ℕ
  pub reserved2 : ℕ
  pub metadata_offset : ℕ
  pub metadata_size : ℕ
  pub block_offset : ℕ
  pub block_size : ℕ
  pub index_offset : ℕ
  pub index_size : ℕ
  pub total_size : ℕ
  pub user_defined_id : List ℕ
  pub check_sum : List ℕ

abbrev pub magic_number : ℕ
magic_number = 0x44654653

abbrev pub current_version : ℕ
current_version = 0x0100

abbrev pub min_supported_version : ℕ
min_supported_version = 0x0100

abbrev pub container_mode : ℕ
container_mode = 1

abbrev pub directory_mode : ℕ
directory_mode = 2

abbrev pub word : ℕ
word = 2 ^ 64

-- EncodeInt64.
unfoldable pub encode_int64 : ℤ → List ℕ
encode_int64 v = be_bytes 8 (to_unsigned word v)

abbrev pub int64 : ℕ → ℤ
int64 = to_signed (2 ^ 63)

-- DecodeInt64: zero for fewer than eight bytes, and the first eight of more.
unfoldable pub decode_int64 : List ℕ → ℤ
decode_int64 bytes = if ltb (length bytes) 8 then pos 0 else int64 (be_value (take 8 bytes))

-- UserTag, IsUserTag, IsSystemTag and IsAppTag.
unfoldable pub user_tag : ℕ → ℕ
user_tag id = 0x1000 + bit_and id 0x0fff

unfoldable pub is_user_tag : ℕ → Bool
is_user_tag tag = leb 0x1000 tag

unfoldable pub is_system_tag : ℕ → Bool
is_system_tag tag = ltb tag 0x0100

unfoldable pub is_app_tag : ℕ → Bool
is_app_tag tag = leb 0x0100 tag && ltb tag 0x1000

-- initializeHeader. `created` and `modified` are the two readings of time.Now().
unfoldable pub initialize_header : ℤ → ℤ → Header
initialize_header created modified = record {
  magic = magic_number;
  version = current_version;
  flags = 0;
  timestamp = created;
  last_modified = modified;
  storage_mode = container_mode;
  reserved1 = 0;
  reserved2 = 0;
  metadata_offset = 256;
  metadata_size = 0;
  block_offset = 0;
  block_size = 0;
  index_offset = 0;
  index_size = 0;
  total_size = 256;
  user_defined_id = zeros 16;
  check_sum = zeros 32;
}

-- The writes of writeHeader, in order.
unfoldable pub header_chunks : Header → List (List ℕ)
header_chunks h =
    be_bytes 4 h.magic
    ∷ be_bytes 2 h.version
    ∷ be_bytes 2 h.flags
    ∷ be_bytes 8 (to_unsigned word h.timestamp)
    ∷ be_bytes 8 (to_unsigned word h.last_modified)
    ∷ be_bytes 1 h.storage_mode
    ∷ be_bytes 1 h.reserved1
    ∷ be_bytes 2 h.reserved2
    ∷ be_bytes 8 h.metadata_offset
    ∷ be_bytes 8 h.metadata_size
    ∷ be_bytes 8 h.block_offset
    ∷ be_bytes 8 h.block_size
    ∷ be_bytes 8 h.index_offset
    ∷ be_bytes 8 h.index_size
    ∷ be_bytes 8 h.total_size
    ∷ h.user_defined_id
    ∷ h.check_sum
    ∷ []

-- writeHeader.
unfoldable pub write_header : Header → File → File
write_header h f = write_each (header_chunks h) (seek 0 f)

pub data HeaderError : Type 0 where
  reading : ReadError → HeaderError
  invalid_fragmenta unsupported_version : HeaderError

abbrev pub field : ℕ → List ℕ → Result HeaderError (ℕ × List ℕ)
field k src = map_err reading (read_be k src)

abbrev pub guard : Bool → HeaderError → Result HeaderError (Unit {0})
guard b e = if b then err e else ok tt

-- readHeader, from the file's first byte on.
unfoldable pub read_header : List ℕ → Result HeaderError Header
read_header src = do
  (magic, s1) ← field 4 src
  guard (not (magic == magic_number)) invalid_fragmenta
  (version, s2) ← field 2 s1
  guard (ltb version min_supported_version || ltb current_version version) unsupported_version
  (flags, s3) ← field 2 s2
  (timestamp, s4) ← field 8 s3
  (last_modified, s5) ← field 8 s4
  (storage_mode, s6) ← field 1 s5
  (reserved1, s7) ← field 1 s6
  (reserved2, s8) ← field 2 s7
  (metadata_offset, s9) ← field 8 s8
  (metadata_size, s10) ← field 8 s9
  (block_offset, s11) ← field 8 s10
  (block_size, s12) ← field 8 s11
  (index_offset, s13) ← field 8 s12
  (index_size, s14) ← field 8 s13
  (total_size, s15) ← field 8 s14
  (user_defined_id, s16) ← map_err reading (read_some 16 s15)
  (check_sum, s17) ← map_err reading (read_some 32 s16)
  ok (record {
    magic = magic;
    version = version;
    flags = flags;
    timestamp = int64 timestamp;
    last_modified = int64 last_modified;
    storage_mode = storage_mode;
    reserved1 = reserved1;
    reserved2 = reserved2;
    metadata_offset = metadata_offset;
    metadata_size = metadata_size;
    block_offset = block_offset;
    block_size = block_size;
    index_offset = index_offset;
    index_size = index_size;
    total_size = total_size;
    user_defined_id = user_defined_id;
    check_sum = check_sum;
  })

-- validateHeader.
unfoldable pub validate_header : Header → Result HeaderError (Unit {0})
validate_header h =
    if not (h.magic == magic_number)
    then err invalid_fragmenta
    else if ltb current_version h.version
    then err unsupported_version
    else ok tt
