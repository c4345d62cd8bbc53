-- ===== src/Json.antt =====
-- JSON: the validation of texts, of src/dynd/json_parser.cpp, and the formatting of values, of
-- src/dynd/json_formatter.cpp.
pub mod Arrays
pub mod Format
pub mod Fuel
pub mod Lengths
pub mod NumberLaws
pub mod Objects
pub mod Position
pub mod RoundTrip
pub mod Scalars
pub mod Skip
pub mod StringAppends
pub mod StringRoundTrip
pub mod StringScans
pub mod StringShapes
mod Tests
