-- ===== src/Net/Message/Steps.antt =====
-- What each write of the message does where its guard passes, and that it does nothing otherwise.
use rubyserver.Base.{
  ℕ, ◌+◌, ◌%◌, ◌^◌, ◌≤◌, ◌<◌, ◌≡◌, ◌⊎◌, inl, inr, true, false, List, [], ◌∷◌, ◌++◌, not, ◌||◌,
  arith, length, length-append, Bool-cases, ltb,
}
use rubyserver.Base.Memory.{store-append, to_le, length-to_le}
use rubyserver.Net.Message.{
  NetworkMessage, max_body_length, put, can_add, add_byte, add, add_string, add_bytes,
  add_padding_bytes,
}

pub can_add-of_lt :
    (msg : NetworkMessage) (n : ℕ) → msg.position + n < max_body_length → can_add msg n ≡ true
unfolding can_add
can_add-of_lt msg n h = ground arith

pub can_add→lt :
    (msg : NetworkMessage) (n : ℕ)
    → msg.position < max_body_length
    → n < 2 ^ 63
    → can_add msg n ≡ true
    → msg.position + n < max_body_length
unfolding can_add
can_add→lt msg n h k e = ground arith

pub add_byte-fits :
    (v : ℕ) (msg : NetworkMessage)
    → msg.position + 1 < max_body_length
    → add_byte v msg ≡ put msg (v ∷ [])
unfolding add_byte
add_byte-fits v msg h = rw (can_add-of_lt msg 1 h)

pub add-fits :
    (n v : ℕ) (msg : NetworkMessage)
    → msg.position + n < max_body_length
    → add n v msg ≡ put msg (to_le n v)
unfolding add
add-fits n v msg h = rw (can_add-of_lt msg n h)

pub add_bytes-fits :
    (bs : List ℕ) (msg : NetworkMessage)
    → msg.position + length bs < max_body_length
    → length bs ≤ 8192
    → add_bytes bs msg ≡ put msg bs
unfolding add_bytes
add_bytes-fits bs msg h k =
    rw (can_add-of_lt msg (length bs) h)
      (let e : ltb 8192 (length bs) ≡ false = ground arith in rw e)

-- Runs written one behind the other are one run.
pub put-append :
    (msg : NetworkMessage) (xs ys : List ℕ)
    → msg.position + length xs < 65536
    → put (put msg xs) ys ≡ put msg (xs ++ ys)
put-append msg xs ys h =
    let e : (msg.position + length xs) % 65536 ≡ msg.position + length xs = omega arith in
    ground (arith, e, length-append xs ys, store-append msg.buffer msg.position xs ys)

pub add_string-fits :
    (s : List ℕ) (msg : NetworkMessage)
    → msg.position + (length s + 2) < max_body_length
    → length s ≤ 8192
    → add_string s msg ≡ put msg (to_le 2 (length s) ++ s)
unfolding add_string
add_string-fits s msg h k =
    let e : ltb 8192 (length s) ≡ false = ground arith in
    rw (can_add-of_lt msg (length s + 2) h, e, add-fits 2 (length s) msg (omega arith))
      (put-append msg (to_le 2 (length s)) s (omega (arith, length-to_le 2 (length s))))

module _ (msg : NetworkMessage) (h : msg.position < max_body_length) where
  pub add_byte-cases : (v : ℕ) → (add_byte v msg ≡ msg) ⊎ (msg.position + 1 < max_body_length)
  unfolding add_byte
  add_byte-cases v = elim (Bool-cases (can_add msg 1)) [
    | inl e ↦ inr (can_add→lt msg 1 h (omega arith) e)
    | inr e ↦ inl (rw e)
  ]

  pub add-cases : (n v : ℕ) → n ≤ 8 → (add n v msg ≡ msg) ⊎ (msg.position + n < max_body_length)
  unfolding add
  add-cases n v k = elim (Bool-cases (can_add msg n)) [
    | inl e ↦ inr (can_add→lt msg n h (omega arith) e)
    | inr e ↦ inl (rw e)
  ]

  pub add_bytes-cases :
      (bs : List ℕ)
      → length bs < 2 ^ 63
      → (add_bytes bs msg ≡ msg)
        ⊎ ((msg.position + length bs < max_body_length) × (length bs ≤ 8192))
  unfolding add_bytes
  add_bytes-cases bs k = elim (Bool-cases (not (can_add msg (length bs)) || ltb 8192 (length bs))) [
    | inl e ↦ inl (rw e)
    | inr e ↦ inr ((can_add→lt msg (length bs) h k (ground arith)), ground arith)
  ]

  pub add_string-cases :
      (s : List ℕ)
      → length s < 2 ^ 62
      → (add_string s msg ≡ msg)
        ⊎ ((msg.position + (length s + 2) < max_body_length) × (length s ≤ 8192))
  unfolding add_string
  add_string-cases s k =
      elim (Bool-cases (not (can_add msg (length s + 2)) || ltb 8192 (length s))) [
        | inl e ↦ inl (rw e)
        | inr e ↦ inr ((can_add→lt msg (length s + 2) h (omega arith) (ground arith)), ground arith)
      ]

  pub add_padding_bytes-cases :
      (n : ℕ) → n < 2 ^ 63 → (add_padding_bytes n msg ≡ msg) ⊎ (msg.position + n < max_body_length)
  unfolding add_padding_bytes
  add_padding_bytes-cases n k = elim (Bool-cases (can_add msg n)) [
    | inl e ↦ inr (can_add→lt msg n h k e)
    | inr e ↦ inl (rw e)
  ]
