-- ===== src/Js.antt =====
-- The JavaScript values that the program inspects, and what the program uses of the language.
pub mod Text
pub mod Map
pub mod Value
pub mod Record
pub mod Parse
