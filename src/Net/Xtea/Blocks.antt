-- ===== src/Net/Xtea/Blocks.antt =====
-- The block loop over a buffer: what it writes, and that the decrypting loop undoes the encrypting
-- one, wherever in a buffer the bytes have come to lie.
use mathlib.Core.List.{append_assoc}
use rubyserver.Base.{
  ℕ, zero, suc, ◌+◌, ◌*◌, ◌^◌, ◌<◌, ◌≡◌, refl, sym, ap, ◌∙◌, inr, List, [], ◌++◌, arith, length,
  length-append,
}
use rubyserver.Base.Memory.{
  Bytes, store, load, store-nil, store-append, load_add, length-load, load-store_apart, to_le,
  from_le, length-to_le, from_le-to_le, to_le-from_le, append-injective, from_le-lt, IsByteList,
  IsByteList-append, append-IsByteList, to_le-IsByteList,
}
use rubyserver.Net.Xtea.{Cipher, crypt_blocks, Key, encrypt_block, decrypt_block}
use rubyserver.Net.Xtea.Rounds.{decrypt_block-encrypt_block, encrypt_block-lt}

-- The bytes of the block at `p` after the transformation.
abbrev block : Cipher → Bytes → ℕ → List ℕ
block f m p =
    let (v0, v1) = f (from_le (load m p 4)) (from_le (load m (p + 4) 4)) in to_le 4 v0 ++ to_le 4 v1

-- All bytes that the loop writes.
pub crypt : Cipher → ℕ → Bytes → ℕ → List ℕ
crypt f zero m p = []
crypt f (suc n) m p = block f m p ++ crypt f n m (p + 8)

length-block : (f : Cipher) (m : Bytes) (p : ℕ) → length (block f m p) ≡ 8
length-block f m p = omega (
  arith,
  length-append (to_le 4 _) (to_le 4 (f (from_le (load m p 4)) (from_le (load m (p + 4) 4))).1),
  length-to_le 4 (f (from_le (load m p 4)) (from_le (load m (p + 4) 4))).0,
  length-to_le 4 (f (from_le (load m p 4)) (from_le (load m (p + 4) 4))).1,
)

pub length-crypt : (f : Cipher) (n : ℕ) (m : Bytes) (p : ℕ) → length (crypt f n m p) ≡ 8 * n
unfolding crypt
length-crypt f zero m p = refl
length-crypt f (suc n) m p = omega (
  arith,
  length-append (block f m p) (crypt f n m (p + 8)),
  length-block f m p,
  length-crypt f n m (p + 8),
)

load_block :
    (m : Bytes) (p n : ℕ)
    → load m p (8 * suc n) ≡ load m p 4 ++ (load m (p + 4) 4 ++ load m (p + 8) (8 * n))
load_block m p n =
    let e : 8 * suc n ≡ 4 + (4 + 8 * n) = omega arith in
    let f : p + 4 + 4 ≡ p + 8 = omega arith in
    rw (e, load_add m p 4 (4 + 8 * n), load_add m (p + 4) 4 (8 * n), f)

-- The two words and the rest of a run of blocks are known when the run is.
load_block_parts :
    (m : Bytes) (p n : ℕ) (xs ys zs : List ℕ)
    → length xs ≡ 4
    → length ys ≡ 4
    → load m p (8 * suc n) ≡ xs ++ (ys ++ zs)
    → (load m p 4 ≡ xs) × (load m (p + 4) 4 ≡ ys) × (load m (p + 8) (8 * n) ≡ zs)
load_block_parts m p n xs ys zs h k e =
    let front =
      append-injective _ _ xs (ys ++ zs) (length-load m p 4 ∙ sym h) (sym (load_block m p n) ∙ e) in
    let back = append-injective _ _ ys zs (length-load m (p + 4) 4 ∙ sym k) front.1 in
    (front.0, back.0, back.1)

crypt_cong :
    (f : Cipher) (n : ℕ) (m m' : Bytes) (p q : ℕ)
    → load m p (8 * n) ≡ load m' q (8 * n)
    → crypt f n m p ≡ crypt f n m' q
unfolding crypt
crypt_cong f zero m m' p q e = refl
crypt_cong f (suc n) m m' p q e =
    let parts =
      load_block_parts m p n _ _ _ (length-load m' q 4) (length-load m' (q + 4) 4)
        (e ∙ load_block m' q n) in
    rw (parts.0, parts.1, crypt_cong f n m m' (p + 8) (q + 8) parts.2)

-- The loop writes one run of bytes, which it computes from the bytes that were there.
pub crypt_blocks-eq :
    (f : Cipher) (n : ℕ) (m : Bytes) (p : ℕ) → crypt_blocks f n m p ≡ store m p (crypt f n m p)
unfolding crypt_blocks crypt
crypt_blocks-eq f zero m p = sym (store-nil m p)
crypt_blocks-eq f (suc n) m p =
    rw
      (
        two_words,
        crypt_blocks-eq f n (store m p (block f m p)) (p + 8),
        crypt_cong f n (store m p (block f m p)) m (p + 8) (p + 8) (
            load-store_apart m p (block f m p) (p + 8) (8 * n)
              (inr (omega (arith, length-block f m p)))),
      )
      (ap (λ q. store (store m p (block f m p)) q (crypt f n m (p + 8))) after
        ∙ store-append m p (block f m p) (crypt f n m (p + 8)))
  where
    words : ℕ × ℕ
    words = f (from_le (load m p 4)) (from_le (load m (p + 4) 4))

    two_words :
        store (store m p (to_le 4 words.0)) (p + 4) (to_le 4 words.1) ≡ store m p (block f m p)
    two_words =
        ap (λ q. store (store m p (to_le 4 words.0)) (p + q) (to_le 4 words.1))
          (sym (length-to_le 4 words.0))
        ∙ store-append m p (to_le 4 words.0) (to_le 4 words.1)

    after : p + 8 ≡ p + length (block f m p)
    after = omega (arith, length-block f m p)

-- The decrypting loop, over a buffer that holds what the encrypting loop wrote, writes the bytes
-- that were encrypted.
pub crypt-crypt :
    (k : Key) (n : ℕ) (m m' : Bytes) (p q : ℕ)
    → IsByteList (load m p (8 * n))
    → load m' q (8 * n) ≡ crypt (encrypt_block k) n m p
    → crypt (decrypt_block k) n m' q ≡ load m p (8 * n)
unfolding crypt
crypt-crypt k zero m m' p q h e = unfold load in refl
crypt-crypt k (suc n) m m' p q h e =
    rw
      (
        load_block m p n,
        parts.0,
        parts.1,
        from_le-to_le 4 words.0 fits.0,
        from_le-to_le 4 words.1 fits.1,
        decrypt_block-encrypt_block k (from_le (load m p 4)) (from_le (load m (p + 4) 4)) small.0
            small.1,
        word_back p bytes.0,
        word_back (p + 4) bytes.1,
        crypt-crypt k n m m' (p + 8) (q + 8) bytes.2 parts.2,
      )
      (append_assoc (load m p 4) (load m (p + 4) 4) (load m (p + 8) (8 * n)))
  where
    words : ℕ × ℕ
    words = encrypt_block k (from_le (load m p 4)) (from_le (load m (p + 4) 4))

    bytes :
        IsByteList (load m p 4)
        × IsByteList (load m (p + 4) 4)
        × IsByteList (load m (p + 8) (8 * n))
    bytes =
        let front = IsByteList-append (load m p 4) _ (rw (load_block m p n) at h) in
        let back = IsByteList-append (load m (p + 4) 4) _ front.1 in (front.0, back.0, back.1)

    word-lt : (a : ℕ) → IsByteList (load m a 4) → from_le (load m a 4) < 2 ^ 32
    word-lt a b = rw (length-load m a 4) at (from_le-lt (load m a 4) b)

    word_back : (a : ℕ) → IsByteList (load m a 4) → to_le 4 (from_le (load m a 4)) ≡ load m a 4
    word_back a b = rw (length-load m a 4) at (to_le-from_le (load m a 4) b)

    small : (from_le (load m p 4) < 2 ^ 32) × (from_le (load m (p + 4) 4) < 2 ^ 32)
    small = (word-lt p bytes.0, word-lt (p + 4) bytes.1)

    fits : (words.0 < 2 ^ 32) × (words.1 < 2 ^ 32)
    fits = encrypt_block-lt k (from_le (load m p 4)) (from_le (load m (p + 4) 4)) small.0 small.1

    parts :
        (load m' q 4 ≡ to_le 4 words.0)
        × (load m' (q + 4) 4 ≡ to_le 4 words.1)
        × (load m' (q + 8) (8 * n) ≡ crypt (encrypt_block k) n m (p + 8))
    parts =
        load_block_parts m' q n (to_le 4 words.0) (to_le 4 words.1)
          (crypt (encrypt_block k) n m (p + 8)) (length-to_le 4 words.0) (length-to_le 4 words.1)
          (e
            ∙ append_assoc (to_le 4 words.0) (to_le 4 words.1)
                (crypt (encrypt_block k) n m (p + 8)))

pub crypt-IsByteList : (f : Cipher) (n : ℕ) (m : Bytes) (p : ℕ) → IsByteList (crypt f n m p)
unfolding crypt
crypt-IsByteList f zero m p = tt
crypt-IsByteList f (suc n) m p =
    append-IsByteList (block f m p) (crypt f n m (p + 8))
      (append-IsByteList (to_le 4 _) (to_le 4 _) (to_le-IsByteList 4 _) (to_le-IsByteList 4 _))
      (crypt-IsByteList f n m (p + 8))
