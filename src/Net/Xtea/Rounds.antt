-- ===== src/Net/Xtea/Rounds.antt =====
-- Decryption undoes encryption, for every key and every block.
use rubyserver.Base.{ℕ, zero, suc, ◌^◌, ◌<◌, ◌≡◌, refl, sym, ap, ◌∙◌, arith}
use rubyserver.Net.Xtea.{
  add32, sub32, delta, last_sum, Key, Block, encrypt_round, decrypt_round, encrypt_rounds,
  decrypt_rounds, encrypt_block, decrypt_block,
}

pub sub32-add32 : (a b : ℕ) → a < 2 ^ 32 → sub32 (add32 a b) b ≡ a
unfolding add32 sub32
sub32-add32 a b h = omega arith

add32-sub32 : (a b : ℕ) → a < 2 ^ 32 → add32 (sub32 a b) b ≡ a
unfolding add32 sub32
add32-sub32 a b h = omega arith

pub record IsBlock (b : Block) : Type 0 where
  pub v0_fits : b.v0 < 2 ^ 32
  pub v1_fits : b.v1 < 2 ^ 32
  pub sum_fits : b.sum < 2 ^ 32

encrypt_round-IsBlock : (k : Key) (b : Block) → IsBlock (encrypt_round k b)
unfolding encrypt_round add32 sub32
encrypt_round-IsBlock k b = record {
  v0_fits = omega arith;
  v1_fits = omega arith;
  sum_fits = omega arith;
}

decrypt_round-encrypt_round :
    (k : Key) (b : Block) → IsBlock b → decrypt_round k (encrypt_round k b) ≡ b
unfolding encrypt_round decrypt_round
decrypt_round-encrypt_round k b v =
    simp (sub32-add32, add32-sub32, v.v0_fits, v.v1_fits, v.sum_fits)

encrypt_rounds-suc :
    (k : Key) (n : ℕ) (b : Block)
    → encrypt_rounds k (suc n) b ≡ encrypt_round k (encrypt_rounds k n b)
unfolding encrypt_rounds
encrypt_rounds-suc k zero b = refl
encrypt_rounds-suc k (suc n) b = encrypt_rounds-suc k n (encrypt_round k b)

encrypt_rounds-IsBlock : (k : Key) (n : ℕ) (b : Block) → IsBlock b → IsBlock (encrypt_rounds k n b)
unfolding encrypt_rounds
encrypt_rounds-IsBlock k zero b v = v
encrypt_rounds-IsBlock k (suc n) b v =
    encrypt_rounds-IsBlock k n (encrypt_round k b) (encrypt_round-IsBlock k b)

-- As many rounds back as forth give the block again.
decrypt_rounds-encrypt_rounds :
    (k : Key) (n : ℕ) (b : Block) → IsBlock b → decrypt_rounds k n (encrypt_rounds k n b) ≡ b
unfolding decrypt_rounds
decrypt_rounds-encrypt_rounds k zero b v = unfold encrypt_rounds in refl
decrypt_rounds-encrypt_rounds k (suc n) b v =
    rw
      (
        encrypt_rounds-suc k n b,
        decrypt_round-encrypt_round k (encrypt_rounds k n b) (encrypt_rounds-IsBlock k n b v),
      )
      (decrypt_rounds-encrypt_rounds k n b v)

-- The sum does not depend on the key or the data.
sums : ℕ → ℕ → ℕ
sums zero s = s
sums (suc n) s = sums n (sub32 s delta)

encrypt_rounds-sum : (k : Key) (n : ℕ) (b : Block) → (encrypt_rounds k n b).sum ≡ sums n b.sum
unfolding encrypt_rounds sums encrypt_round
encrypt_rounds-sum k zero b = refl
encrypt_rounds-sum k (suc n) b = encrypt_rounds-sum k n (encrypt_round k b)

sums_32 : sums 32 0 ≡ last_sum
unfolding sums sub32
sums_32 = refl

-- Decrypting an encrypted block of two 32-bit words gives the words, under every key.
pub decrypt_block-encrypt_block :
    (k : Key) (v0 v1 : ℕ)
    → v0 < 2 ^ 32
    → v1 < 2 ^ 32
    → let (w0, w1) = encrypt_block k v0 v1 in decrypt_block k w0 w1 ≡ (v0, v1)
unfolding encrypt_block decrypt_block
decrypt_block-encrypt_block k v0 v1 h0 h1 = ap (λ (b : Block). (b.v0, b.v1)) whole
  where
    start : Block
    start = record { v0 = v0; v1 = v1; sum = 0 }

    last : Block
    last = encrypt_rounds k 32 start

    whole : decrypt_rounds k 32 (record { v0 = last.v0; v1 = last.v1; sum = last_sum }) ≡ start
    whole =
        ap (λ (s : ℕ). decrypt_rounds k 32 (record { v0 = last.v0; v1 = last.v1; sum = s }))
          (sym (encrypt_rounds-sum k 32 start ∙ sums_32))
        ∙ decrypt_rounds-encrypt_rounds k 32 start
            (record { v0_fits = h0; v1_fits = h1; sum_fits = omega arith })

pub encrypt_block-lt :
    (k : Key) (v0 v1 : ℕ)
    → v0 < 2 ^ 32
    → v1 < 2 ^ 32
    → let (w0, w1) = encrypt_block k v0 v1 in (w0 < 2 ^ 32) × (w1 < 2 ^ 32)
unfolding encrypt_block
encrypt_block-lt k v0 v1 h0 h1 =
    let v =
      encrypt_rounds-IsBlock k 32 (record { v0 = v0; v1 = v1; sum = 0 })
        (record { v0_fits = h0; v1_fits = h1; sum_fits = omega arith }) in
    (v.v0_fits, v.v1_fits)
