-- ===== src/Std.antt =====
-- What the source uses of Go's standard library where it walks strings: packages strings, net, path,
-- strconv and net/http. They are modelled for ASCII text, where a byte is a character.
pub mod Text
pub mod Net
pub mod Path
pub mod Http
