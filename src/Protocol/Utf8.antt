-- ===== src/Protocol/Utf8.antt =====
-- `str::from_utf8` and `String::from_utf8` of Rust's standard library, which the reader task and
-- `MessageParser::deserialize` call: the validation of a byte string, one byte after another.
pub mod Pieces
use ac_signalr_client_lib_rs.Base.{
  ℕ, zero, suc, ◌+◌, ◌&&◌, ◌++◌, [], ◌∷◌, Text, lit, show_nat, Res, ok, err, ltb, leb, ◌==◌,
  if◌then◌else◌,
}

-- Between two characters at an index; within a character that began at an index, with the bytes
-- seen, the bytes that follow the next one, and the range of the next one; or stopped.
pub data Utf8State : Type 0 where
  idle : ℕ → Utf8State
  within : ℕ → ℕ → ℕ → ℕ → ℕ → Utf8State
  failed : Text → Utf8State

invalid : ℕ → ℕ → Utf8State
invalid n start =
    failed
      (lit "invalid utf-8 sequence of " ++ show_nat n ++ lit " bytes from index " ++ show_nat start)

-- The first byte of a character.
abbrev begin : ℕ → ℕ → Utf8State
begin i b =
    if ltb b 0x80
    then idle (i + 1)
    else if ltb b 0xC2
    then invalid 1 i
    else if leb b 0xDF
    then within i 1 0 0x80 0xBF
    else if b == 0xE0
    then within i 1 1 0xA0 0xBF
    else if b == 0xED
    then within i 1 1 0x80 0x9F
    else if leb b 0xEF
    then within i 1 1 0x80 0xBF
    else if b == 0xF0
    then within i 1 2 0x90 0xBF
    else if leb b 0xF3
    then within i 1 2 0x80 0xBF
    else if b == 0xF4
    then within i 1 2 0x80 0x8F
    else invalid 1 i

abbrev continue : ℕ → ℕ → ℕ → Utf8State
continue i seen zero = idle (i + seen + 1)
continue i seen (suc k) = within i (seen + 1) k 0x80 0xBF

unfoldable pub next_byte : Utf8State → ℕ → Utf8State
unfolding invalid
next_byte (idle i) b = begin i b
next_byte (within i seen k lo hi) b =
    if leb lo b && leb b hi then continue i seen k else invalid seen i
next_byte (failed e) b = failed e

unfoldable pub scan : Utf8State → Text → Utf8State
scan s [] = s
scan s (b ∷ bs) = scan (next_byte s b) bs

abbrev pub finish : Utf8State → Text → Res Text
finish (idle i) t = ok t
finish (within i seen k lo hi) t =
    err (lit "incomplete utf-8 byte sequence from index " ++ show_nat i)
finish (failed e) t = err e

unfoldable pub from_utf8 : Text → Res Text
unfolding scan next_byte invalid
from_utf8 t = finish (scan (idle 0) t) t
