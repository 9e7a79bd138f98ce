-- ===== src/Go.antt =====
-- What the program uses of Go's standard library: strings, instants of time and calls.
pub mod Text
pub mod Time
pub mod Call
