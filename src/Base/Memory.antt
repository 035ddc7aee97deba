-- ===== src/Base/Memory.antt =====
-- Byte memory: a buffer is a function from addresses to bytes, and `memcpy` writes or reads a run of
-- it. Words lie in it with the lowest byte first, as on the x86 hosts that the server runs on.
use mathlib.Core.Path.{fun_ext}
use native.Mathlib.Nat.{pow-suc}
use rubyserver.Base.{
  ℕ, zero, suc, ◌+◌, ◌*◌, ◌/◌, ◌%◌, ◌^◌, ◌≤◌, ◌<◌, ◌≡◌, refl, ap, ◌⊎◌, inl, inr, List, [], ◌∷◌,
  ◌++◌, arith, ◌==◌, if◌then◌else◌, length, replicate,
}

abbrev pub Bytes : Type 0
Bytes = ℕ → ℕ

abbrev pub update : Bytes → ℕ → ℕ → Bytes
update m p b i = if p == i then b else m i

-- memcpy(m + p, bytes, n)
unfoldable pub store : Bytes → ℕ → List ℕ → Bytes
store m p [] = m
store m p (b ∷ bs) = update (store m (p + 1) bs) p b

-- memcpy(out, m + p, n)
unfoldable pub load : Bytes → ℕ → ℕ → List ℕ
load m p zero = []
load m p (suc n) = m p ∷ load m (p + 1) n

pub store-nil : (m : Bytes) (p : ℕ) → store m p [] ≡ m
unfolding store
store-nil m p = refl

pub store_below : (m : Bytes) (p : ℕ) (bs : List ℕ) (i : ℕ) → i < p → store m p bs i ≡ m i
unfolding store
store_below m p [] i h = refl
store_below m p (b ∷ bs) i h = ground (arith, store_below m (p + 1) bs i)

pub store_above :
    (m : Bytes) (p : ℕ) (bs : List ℕ) (i : ℕ) → p + length bs ≤ i → store m p bs i ≡ m i
unfolding store
store_above m p [] i h = refl
store_above m p (b ∷ bs) i h = ground (arith, store_above m (p + 1) bs i)

pub load_cong :
    (m m' : Bytes) (p n : ℕ) → ((i : ℕ) → p ≤ i → i < p + n → m i ≡ m' i) → load m p n ≡ load m' p n
unfolding load
load_cong m m' p zero h = refl
load_cong m m' p (suc n) h = ground (
  arith,
  h p (omega arith) (omega arith),
  load_cong m m' (p + 1) n (λ i a b. h i (omega arith) (omega arith)),
)

-- A read outside the bytes written finds what was there.
pub load-store_apart :
    (m : Bytes) (p : ℕ) (bs : List ℕ) (q n : ℕ)
    → (q + n ≤ p) ⊎ (p + length bs ≤ q)
    → load (store m p bs) q n ≡ load m q n
load-store_apart m p bs q n (inl h) =
    load_cong _ m q n (λ i a b. store_below m p bs i (omega arith))
load-store_apart m p bs q n (inr h) =
    load_cong _ m q n (λ i a b. store_above m p bs i (omega arith))

-- A read of the bytes written finds them.
pub load-store : (m : Bytes) (p : ℕ) (bs : List ℕ) → load (store m p bs) p (length bs) ≡ bs
unfolding load
load-store m p [] = refl
load-store m p (b ∷ bs) = ground (
  arith,
  head,
  load_cong (store m p (b ∷ bs)) (store m (p + 1) bs) (p + 1) (length bs) tail,
  load-store m (p + 1) bs,
)
  where
    head : store m p (b ∷ bs) p ≡ b
    head = unfold store in ground arith

    tail : (i : ℕ) → p + 1 ≤ i → i < p + 1 + length bs → store m p (b ∷ bs) i ≡ store m (p + 1) bs i
    tail i h k = unfold store in ground arith

pub length-load : (m : Bytes) (p n : ℕ) → length (load m p n) ≡ n
unfolding load
length-load m p zero = refl
length-load m p (suc n) = ap suc (length-load m (p + 1) n)

pub load_add : (m : Bytes) (p a b : ℕ) → load m p (a + b) ≡ load m p a ++ load m (p + a) b
unfolding load
load_add m p zero b =
    let e : p + 0 ≡ p = omega arith in let f : 0 + b ≡ b = omega arith in rw (e, f)
load_add m p (suc a) b =
    let e : suc a + b ≡ suc (a + b) = omega arith in
    let f : p + suc a ≡ p + 1 + a = omega arith in
    rw (e, f, load) (ap (λ l. m p ∷ l) (load_add m (p + 1) a b))

pub load_head : (m : Bytes) (p n b : ℕ) (bs : List ℕ) → load m p (suc n) ≡ b ∷ bs → m p ≡ b
unfolding load
load_head m p n b bs e = cc

-- The bytes of a word, and the word of some bytes.
unfoldable pub to_le : ℕ → ℕ → List ℕ
to_le zero v = []
to_le (suc k) v = v % 256 ∷ to_le k (v / 256)

unfoldable pub from_le : List ℕ → ℕ
from_le [] = 0
from_le (b ∷ bs) = b + 256 * from_le bs

pub length-to_le : (k v : ℕ) → length (to_le k v) ≡ k
unfolding to_le
length-to_le zero v = refl
length-to_le (suc k) v = ap suc (length-to_le k (v / 256))

pub from_le-to_le : (k v : ℕ) → v < 256 ^ k → from_le (to_le k v) ≡ v
unfolding to_le from_le
from_le-to_le zero v h = omega arith
from_le-to_le (suc k) v h =
    omega (arith, from_le-to_le k (v / 256) (omega (arith, pow-suc 256 k)), pow-suc 256 k)

store-update :
    (m : Bytes) (p q b : ℕ) (bs : List ℕ)
    → q < p
    → store (update m q b) p bs ≡ update (store m p bs) q b
unfolding store
store-update m p q b [] h = refl
store-update m p q b (c ∷ bs) h =
    fun_ext
      λ i. ground (arith, ap (λ (f : Bytes). f i) (store-update m (p + 1) q b bs (omega arith)))

-- Two runs written one behind the other are one run.
pub store-append :
    (m : Bytes) (p : ℕ) (xs ys : List ℕ)
    → store (store m p xs) (p + length xs) ys ≡ store m p (xs ++ ys)
unfolding store
store-append m p [] ys = ap (λ q. store m q ys) (omega arith)
store-append m p (x ∷ xs) ys =
    let e : p + suc (length xs) ≡ p + 1 + length xs = omega arith in
    rw (e, store-update (store m (p + 1) xs) (p + 1 + length xs) p x ys (omega arith))
      (ap (λ f. update f p x) (store-append m (p + 1) xs ys))

pub append-injective :
    (xs ys as' bs : List ℕ) → length xs ≡ length as' → xs ++ ys ≡ as' ++ bs → (xs ≡ as') × (ys ≡ bs)
append-injective [] ys [] bs h e = (refl, e)
append-injective [] ys (a ∷ as') bs h e = absurd (omega arith)
append-injective (x ∷ xs) ys [] bs h e = absurd (omega arith)
append-injective (x ∷ xs) ys (a ∷ as') bs h e =
    let tails : (xs ≡ as') × (ys ≡ bs) = append-injective xs ys as' bs (omega arith) (cc) in
    (cc, tails.1)

abbrev pub IsByteList : List ℕ → Type 0
IsByteList [] = Unit
IsByteList (b ∷ bs) = (b < 256) × IsByteList bs

pub IsByteList-append : (xs ys : List ℕ) → IsByteList (xs ++ ys) → IsByteList xs × IsByteList ys
IsByteList-append [] ys h = (tt, h)
IsByteList-append (x ∷ xs) ys h =
    let parts = IsByteList-append xs ys h.1 in ((h.0, parts.0), parts.1)

pub from_le-lt : (bs : List ℕ) → IsByteList bs → from_le bs < 256 ^ length bs
unfolding from_le
from_le-lt [] h = omega arith
from_le-lt (b ∷ bs) h = omega (arith, from_le-lt bs h.1, pow-suc 256 (length bs), h.0)

pub to_le-from_le : (bs : List ℕ) → IsByteList bs → to_le (length bs) (from_le bs) ≡ bs
unfolding from_le to_le
to_le-from_le [] h = refl
to_le-from_le (b ∷ bs) h =
    let low : (b + 256 * from_le bs) % 256 ≡ b = omega (arith, h.0) in
    let high : (b + 256 * from_le bs) / 256 ≡ from_le bs = omega (arith, h.0) in
    rw (low, high, to_le-from_le bs h.1)

pub append-IsByteList : (xs ys : List ℕ) → IsByteList xs → IsByteList ys → IsByteList (xs ++ ys)
append-IsByteList [] ys h k = k
append-IsByteList (x ∷ xs) ys h k = (h.0, append-IsByteList xs ys h.1 k)

pub to_le-IsByteList : (k v : ℕ) → IsByteList (to_le k v)
unfolding to_le
to_le-IsByteList zero v = tt
to_le-IsByteList (suc k) v = (omega arith, to_le-IsByteList k (v / 256))

pub replicate-IsByteList : (n : ℕ) → IsByteList (replicate n 0x33)
replicate-IsByteList zero = tt
replicate-IsByteList (suc n) = (omega arith, replicate-IsByteList n)
