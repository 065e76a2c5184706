-- ===== src/Tlv/Values/RoundTrip.antt =====
-- What the decoders of typed values make of the encoders' output: each number comes back in the
-- smallest type that holds it.
mod Normal
mod Scalars
mod Steps
mod Nested
mod Total
pub use Normal.*
pub use Total.*
