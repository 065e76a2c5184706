-- ===== src/Tlv/Values.antt =====
-- tlv.go, the typed values: the encoders of integers, floats, strings, arrays and maps, and
-- DecodeTLVValue with DecodeTLVArray and DecodeTLVMap.
mod Encode
mod Decode
pub mod Total
pub mod RoundTrip
unfoldable pub use Encode.*
unfoldable pub use Decode.*
