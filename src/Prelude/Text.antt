-- ===== src/Prelude/Text.antt =====
-- The functions of Go's `strings`, `bytes` and `strconv` that the program calls, over native texts.
-- A Go string that is valid UTF-8 is such a text; case is changed for the letters that become ASCII ones.
mod Affix
mod Parts
mod SplitJoin
mod Number
mod Order
mod Decimal
unfoldable pub use Affix.*
unfoldable pub use Parts.*
unfoldable pub use Number.*
unfoldable pub use Order.*
pub use Decimal.*
pub use SplitJoin.*
