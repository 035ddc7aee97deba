-- ===== src/Net/Adler.antt =====
-- adlerChecksum of src/tools.cpp: two uint32_t sums, reduced modulo 65521 once every 5552 bytes.
pub mod Reference
use rubyserver.Base.{
  ℕ, zero, suc, ◌+◌, ◌-◌, ◌*◌, ◌%◌, ◌^◌, List, [], ◌∷◌, ltb, ◌==◌, if◌then◌else◌, length,
}

abbrev pub adler : ℕ
adler = 65521

-- The most bytes of a run, and the most bytes of a message.
abbrev pub run_length : ℕ
run_length = 5552

abbrev pub max_length : ℕ
max_length = 24590

-- The two sums, and what the data pointer has ahead.
pub record Sums : Type 0 where
  pub a : ℕ
  pub b : ℕ
  pub ahead : List ℕ

-- do { a += *data++; b += a; } while (--tmp), `tmp` times. The second argument is what lies ahead.
unfoldable pub add_run : ℕ → List ℕ → ℕ → ℕ → Sums
add_run (suc tmp) (x ∷ xs) a b = let a' = (a + x) % 2 ^ 32 in add_run tmp xs a' ((b + a') % 2 ^ 32)
add_run tmp xs a b = record { a = a; b = b; ahead = xs }

-- The bytes of the next run: length > 5552 ? 5552 : length.
unfoldable pub run_of : ℕ → ℕ
run_of length = if ltb run_length length then run_length else length

-- The outer loop, on fuel: each round takes at least one byte.
unfoldable pub sum_runs : ℕ → ℕ → List ℕ → ℕ → ℕ → Sums
sum_runs zero length bytes a b = record { a = a; b = b; ahead = bytes }
sum_runs (suc fuel) length bytes a b =
    let tmp = run_of length in
    let s = add_run tmp bytes a b in
    let rest = sum_runs fuel (length - tmp) s.ahead (s.a % adler) (s.b % adler) in
    if length == 0 then record { a = a; b = b; ahead = bytes } else rest

-- adlerChecksum over `bytes`. The low 16 bits of b << 16 are 0 and a is below 2 ^ 16, so | is +.
unfoldable pub adler_checksum : List ℕ → ℕ
adler_checksum bytes =
    if ltb max_length (length bytes)
    then 0
    else (let s = sum_runs (length bytes) (length bytes) bytes 1 0 in s.b * 2 ^ 16 % 2 ^ 32 + s.a)
