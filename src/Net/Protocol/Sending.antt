-- ===== src/Net/Protocol/Sending.antt =====
-- What onSendMessage makes of a collected message with encryption and checksum: the bytes on the wire.
use mathlib.Core.Path.{ap₂}
use rubyserver.Base.{
  ℕ, ◌+◌, ◌-◌, ◌*◌, ◌/◌, ◌%◌, ◌≤◌, ◌<◌, ◌≡◌, sym, ap, ◌∙◌, inl, inr, Bool, true, false, List, ◌++◌,
  arith, length, replicate, length-replicate, Bool-cases, ◌==◌,
}
use rubyserver.Base.Memory.{
  Bytes, store, load, store-nil, load_add, load-store, load-store_apart, to_le, length-to_le,
}
use rubyserver.Net.Adler.{adler_checksum}
use rubyserver.Net.Xtea.{Key, encrypt_block}
use rubyserver.Net.Xtea.Blocks.{crypt, crypt_blocks-eq, length-crypt}
use rubyserver.Net.Message.{NetworkMessage, max_protocol_body_length, add_padding_bytes}
use rubyserver.Net.Message.Steps.{can_add-of_lt}
use rubyserver.Net.Output.{OutputMessage, add_header, write_message_length, add_crypto_header}
use rubyserver.Net.Output.Stream.{IsCollecting}
use rubyserver.Net.Protocol.{Protocol, on_send_message, add_padding, xtea_encrypt}

abbrev pub out_of : ℕ → ℕ → Bool → Bytes → ℕ → OutputMessage
out_of len position overrun buffer start = record {
  message = record { length = len; position = position; overrun = overrun; buffer = buffer };
  output_buffer_start = start;
}

pub load_whole : (m : Bytes) (p n : ℕ) (bs : List ℕ) → length bs ≡ n → load (store m p bs) p n ≡ bs
load_whole m p n bs e = ap (load (store m p bs) p) (sym e) ∙ load-store m p bs

add_header-eq :
    (n v len position : ℕ) (overrun : Bool) (b : Bytes) (start : ℕ)
    → n ≤ start
    → start ≤ 8
    → len + n < 65536
    → add_header n v (out_of len position overrun b start)
      ≡ out_of (len + n) position overrun (store b (start - n) (to_le n v)) (start - n)
unfolding add_header
add_header-eq n v len position overrun b start h k l =
    ap₂ (λ (len' start' : ℕ). out_of len' position overrun (store b start' (to_le n v)) start')
      (omega arith) (omega arith)

-- The bytes missing to a multiple of 8.
pub missing : ℕ → ℕ
missing len = (8 - len % 8) % 8

pub missing_total : (len : ℕ) → (missing len < 8) × ((len + missing len) % 8 ≡ 0)
unfolding missing
missing_total len = omega arith

missing_none : (len : ℕ) → (len % 8 == 0) ≡ true → missing len ≡ 0
unfolding missing
missing_none len e = ground arith

missing_some : (len : ℕ) → (len % 8 == 0) ≡ false → 8 - len % 8 ≡ missing len
unfolding missing
missing_some len e = ground arith

add_padding-eq :
    (len position : ℕ) (overrun : Bool) (b : Bytes) (start : ℕ)
    → position + missing len < 24576
    → len + 8 < 65536
    → add_padding (out_of len position overrun b start)
      ≡ out_of
          (len + missing len)
          position
          overrun
          (store b position (replicate (missing len) 0x33))
          start
unfolding add_padding add_padding_bytes
add_padding-eq len position overrun b start h k = elim (Bool-cases (len % 8 == 0)) [
  | inl e ↦
      rw (e, missing_none len e, store-nil b position)
        (ap (λ (l : ℕ). out_of l position overrun b start) (omega arith))
  | inr e ↦
      let msg : NetworkMessage = record {
        length = len;
        position = position;
        overrun = overrun;
        buffer = b;
      } in
      let fits : (len + missing len) % 65536 ≡ len + missing len =
        omega (arith, missing_total len) in
      rw (e, missing_some len e, can_add-of_lt msg (missing len) h)
        (ap
          (λ (l : ℕ).
            out_of l position overrun (store b position (replicate (missing len) 0x33)) start)
          fits)
]

-- The bytes that are encrypted: the length, the body and the padding.
abbrev pub total : ℕ → ℕ
total len = len + 2 + missing (len + 2)

abbrev pub blocks : ℕ → ℕ
blocks len = (total len + 7) / 8

unfoldable pub padded : ℕ → Bytes → Bytes
padded len b = store (store b 6 (to_le 2 len)) (len + 8) (replicate (missing (len + 2)) 0x33)

unfoldable pub cipher : Key → ℕ → Bytes → List ℕ
cipher k len b = crypt (encrypt_block k) (blocks len) (padded len b) 6

abbrev pub checksum : Key → ℕ → Bytes → ℕ
checksum k len b = adler_checksum (cipher k len b)

unfoldable pub framed : Key → ℕ → Bytes → Bytes
framed k len b =
    store (store (store (padded len b) 6 (cipher k len b)) 2 (to_le 4 (checksum k len b))) 0
      (to_le 2 (total len + 4))

-- A collected message: `len` bytes of body at 8, the cursor behind them.
module _ (k : Key) (len : ℕ) (overrun : Bool) (b : Bytes)
    (small : len ≤ max_protocol_body_length) where
  pub blocks_eq : 8 * blocks len ≡ total len
  blocks_eq = omega (arith, missing_total (len + 2))

  -- What is encrypted.
  pub padded-eq :
      load (padded len b) 6 (total len)
      ≡ to_le 2 len ++ (load b 8 len ++ replicate (missing (len + 2)) 0x33)
  unfolding padded
  padded-eq =
      let bytes : Bytes = store b 6 (to_le 2 len) in
      let pad : List ℕ = replicate (missing (len + 2)) 0x33 in
      let split : total len ≡ 2 + (len + missing (len + 2)) = omega arith in
      let place : 8 + len ≡ len + 8 = omega arith in
      rw (
        split,
        load_add (store bytes (len + 8) pad) 6 2 (len + missing (len + 2)),
        load_add (store bytes (len + 8) pad) 8 len (missing (len + 2)),
        load-store_apart bytes (len + 8) pad 6 2 (inl (omega arith)),
        load-store_apart bytes (len + 8) pad 8 len (inl (omega arith)),
        load-store_apart b 6 (to_le 2 len) 8 len (inr (omega (arith, length-to_le 2 len))),
        place,
        load_whole b 6 2 (to_le 2 len) (length-to_le 2 len),
        load_whole bytes (len + 8) (missing (len + 2)) pad
            (length-replicate (missing (len + 2)) 0x33),
      )

  pub length-cipher : length (cipher k len b) ≡ total len
  unfolding cipher
  length-cipher = length-crypt (encrypt_block k) (blocks len) (padded len b) 6 ∙ blocks_eq

  pub encrypted :
      xtea_encrypt k (write_message_length (out_of len (len + 8) overrun b 8))
      ≡ out_of (total len) (len + 8) overrun (store (padded len b) 6 (cipher k len b)) 6
  unfolding xtea_encrypt write_message_length padded cipher
  encrypted = rw (
    add_header-eq 2 len len (len + 8) overrun b 8 (omega arith) (omega arith) (omega arith),
    add_padding-eq (len + 2) (len + 8) overrun (store b 6 (to_le 2 len)) 6
        (omega (arith, missing_total (len + 2))) (omega arith),
    crypt_blocks-eq (encrypt_block k) (blocks len) (padded len b) 6,
  )

  pub sent :
      add_crypto_header true
        (xtea_encrypt k (write_message_length (out_of len (len + 8) overrun b 8)))
      ≡ out_of (total len + 6) (len + 8) overrun (framed k len b) 0
  unfolding add_crypto_header write_message_length framed
  sent =
      rw
        (
          encrypted,
          load_whole (padded len b) 6 (total len) (cipher k len b) length-cipher,
          add_header-eq 4 (checksum k len b) (total len) (len + 8) overrun
              (store (padded len b) 6 (cipher k len b)) 6 (omega arith) (omega arith)
              (omega (arith, missing_total (len + 2))),
          add_header-eq 2 (total len + 4) (total len + 4) (len + 8) overrun
              (store (store (padded len b) 6 (cipher k len b)) 2 (to_le 4 (checksum k len b))) 2
              (omega arith) (omega arith) (omega (arith, missing_total (len + 2))),
        )
        (ap (λ (l : ℕ). out_of l (len + 8) overrun (framed k len b) 0) (omega arith))

  -- The bytes on the wire.
  pub framed-eq :
      load (framed k len b) 0 (total len + 6)
      ≡ to_le 2 (total len + 4) ++ (to_le 4 (checksum k len b) ++ (cipher k len b))
  unfolding framed
  framed-eq =
      let high : Bytes = store (padded len b) 6 (cipher k len b) in
      let middle : Bytes = store high 2 (to_le 4 (checksum k len b)) in
      let split : total len + 6 ≡ 2 + (4 + (total len)) = omega arith in
      rw (
        split,
        load_add (store middle 0 (to_le 2 (total len + 4))) 0 2 (4 + (total len)),
        load_whole middle 0 2 (to_le 2 (total len + 4)) (length-to_le 2 (total len + 4)),
        load-store_apart middle 0 (to_le 2 (total len + 4)) 2 (4 + (total len))
            (inr (omega (arith, length-to_le 2 (total len + 4)))),
        load_add middle 2 4 (total len),
        load_whole high 2 4 (to_le 4 (checksum k len b)) (length-to_le 4 (checksum k len b)),
        load-store_apart high 2 (to_le 4 (checksum k len b)) 6 (total len)
            (inr (omega (arith, length-to_le 4 (checksum k len b)))),
        load_whole (padded len b) 6 (total len) (cipher k len b) length-cipher,
      )

-- What a protocol with encryption and checksum makes of a collected message.
pub on_send_message-eq :
    (p : Protocol) (o : OutputMessage)
    → p.encryption_enabled ≡ true
    → p.checksum_enabled ≡ true
    → p.raw_messages ≡ false
    → IsCollecting o
    → o.length ≤ max_protocol_body_length
    → on_send_message p o
      ≡ out_of (total o.length + 6) (o.length + 8) o.overrun (framed p.key o.length o.buffer) 0
unfolding on_send_message
on_send_message-eq p o enc sum raw v small =
    ap (on_send_message p) collected
    ∙ rw (raw, enc, sum) (sent p.key o.length o.overrun o.buffer small)
  where
    collected : o ≡ out_of o.length (o.length + 8) o.overrun o.buffer 8
    collected =
        ap₂ (λ (position start : ℕ). out_of o.length position o.overrun o.buffer start) v.behind
          v.at_start
