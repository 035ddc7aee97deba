-- ===== src/File/Props.antt =====
-- PropStream and PropWriteStream of src/fileloader.h: the properties of a node, or of an item in the
-- database, as a run of words and strings.
pub mod Roundtrip
use rubyserver.Base.{
  ℕ, ◌+◌, ◌^◌, ◌<◌, Bool, true, false, List, [], ◌∷◌, ◌++◌, Option, none, some, ltb, if◌then◌else◌,
  length, take, drop,
}
use rubyserver.Base.Memory.{to_le, from_le}

-- The bytes from p to end.
abbrev pub PropStream : Type 0
PropStream = List ℕ

-- read<T> with n = sizeof(T): `none` is the answer false, and leaves the stream as it was.
unfoldable pub read : ℕ → PropStream → Option (ℕ × PropStream)
read n s = if ltb (length s) n then none else some (from_le (take n s), drop n s)

-- readString: the answer, the string and the stream. A length whose bytes are missing is still taken.
unfoldable pub read_chars : ℕ → PropStream → Option (List ℕ) × PropStream
read_chars n s = if ltb (length s) n then (none, s) else (some (take n s), drop n s)

unfoldable pub read_string : PropStream → Option (List ℕ) × PropStream
read_string s = elim (read 2 s) [ none ↦ (none, s) | some (n, rest) ↦ read_chars n rest ]

unfoldable pub skip : ℕ → PropStream → Option PropStream
skip n s = if ltb (length s) n then none else some (drop n s)

-- The buffer of a PropWriteStream.
abbrev pub PropWriteStream : Type 0
PropWriteStream = List ℕ

-- write<T> with n = sizeof(T)
unfoldable pub write : ℕ → ℕ → PropWriteStream → PropWriteStream
write n value buffer = buffer ++ to_le n value

-- writeString: a string that is too long is written as the length 0.
unfoldable pub write_string : List ℕ → PropWriteStream → PropWriteStream
write_string str buffer =
    if ltb 65535 (length str) then write 2 0 buffer else write 2 (length str) buffer ++ str
