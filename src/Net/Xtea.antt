-- ===== src/Net/Xtea.antt =====
-- The cipher of src/protocol.cpp: the two loops of XTEA_encrypt and XTEA_decrypt over 32-bit words,
-- 32 rounds to a block, block after block of the buffer. uint32_t sums wrap at 2 ^ 32.
pub mod Rounds
pub mod Blocks
use Prim.Native.Nat.{bit_xor}
use rubyserver.Base.{ℕ, zero, suc, ◌+◌, ◌-◌, ◌*◌, ◌/◌, ◌%◌, ◌^◌, List, [], ◌∷◌, ◌++◌, get_or}
use rubyserver.Base.Memory.{Bytes, store, load, to_le, from_le}

-- a + b and a - b of two uint32_t.
unfoldable pub add32 : ℕ → ℕ → ℕ
add32 a b = (a + b) % 2 ^ 32

unfoldable pub sub32 : ℕ → ℕ → ℕ
sub32 a b = (a + 2 ^ 32 - b % 2 ^ 32) % 2 ^ 32

abbrev pub delta : ℕ
delta = 0x61C88647

-- The sum from which decryption counts back.
abbrev pub last_sum : ℕ
last_sum = 0xC6EF3720

-- key[0] to key[3]
pub record Key : Type 0 where
  pub key0 : ℕ
  pub key1 : ℕ
  pub key2 : ℕ
  pub key3 : ℕ

-- k[i & 3]
unfoldable pub key_at : Key → ℕ → ℕ
key_at k i = get_or (k.key0 ∷ k.key1 ∷ k.key2 ∷ k.key3 ∷ []) (i % 4) 0

-- ((v << 4 ^ v >> 5) + v) ^ n
unfoldable pub mix : ℕ → ℕ → ℕ
unfolding add32
mix v n = bit_xor (add32 (bit_xor (v * 16 % 2 ^ 32) (v / 32)) v) n

-- The variables of the loop.
pub record Block : Type 0 where
  pub v0 : ℕ
  pub v1 : ℕ
  pub sum : ℕ

-- The body of the inner loop of XTEA_encrypt.
unfoldable pub encrypt_round : Key → Block → Block
encrypt_round k b =
    let v0 = add32 b.v0 (mix b.v1 (add32 b.sum (key_at k b.sum))) in
    let sum = sub32 b.sum delta in
    let v1 = add32 b.v1 (mix v0 (add32 sum (key_at k (sum / 2 ^ 11)))) in
    record { v0 = v0; v1 = v1; sum = sum }

-- The body of the inner loop of XTEA_decrypt.
unfoldable pub decrypt_round : Key → Block → Block
decrypt_round k b =
    let v1 = sub32 b.v1 (mix b.v0 (add32 b.sum (key_at k (b.sum / 2 ^ 11)))) in
    let sum = add32 b.sum delta in
    let v0 = sub32 b.v0 (mix v1 (add32 sum (key_at k sum))) in
    record { v0 = v0; v1 = v1; sum = sum }

unfoldable pub encrypt_rounds : Key → ℕ → Block → Block
encrypt_rounds k zero b = b
encrypt_rounds k (suc n) b = encrypt_rounds k n (encrypt_round k b)

unfoldable pub decrypt_rounds : Key → ℕ → Block → Block
decrypt_rounds k zero b = b
decrypt_rounds k (suc n) b = decrypt_rounds k n (decrypt_round k b)

-- A transformation of one block, from the two words to the two words.
abbrev pub Cipher : Type 0
Cipher = ℕ → ℕ → ℕ × ℕ

unfoldable pub encrypt_block : Key → Cipher
encrypt_block k v0 v1 =
    let b = encrypt_rounds k 32 (record { v0 = v0; v1 = v1; sum = 0 }) in (b.v0, b.v1)

unfoldable pub decrypt_block : Key → Cipher
decrypt_block k v0 v1 =
    let b = decrypt_rounds k 32 (record { v0 = v0; v1 = v1; sum = last_sum }) in (b.v0, b.v1)

-- while (readPos < messageLength), for `n` blocks from the address `p` on.
unfoldable pub crypt_blocks : Cipher → ℕ → Bytes → ℕ → Bytes
crypt_blocks f zero m p = m
crypt_blocks f (suc n) m p =
    let (v0, v1) = f (from_le (load m p 4)) (from_le (load m (p + 4) 4)) in
    crypt_blocks f n (store (store m p (to_le 4 v0)) (p + 4) (to_le 4 v1)) (p + 8)
