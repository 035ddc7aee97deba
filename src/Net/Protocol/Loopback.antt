-- ===== src/Net/Protocol/Loopback.antt =====
-- A packet that is sent and received: encryption, padding, checksum and framing undo one another.
use rubyserver.Base.{
  ℕ, ◌+◌, ◌-◌, ◌/◌, ◌%◌, ◌^◌, ◌≤◌, ◌<◌, ◌≡◌, refl, sym, ap, ◌∙◌, Bool, true, false, List, ◌++◌,
  arith, length, length-append, replicate, ◌==◌, ==_iff, some, ltb,
}
use rubyserver.Base.Memory.{
  Bytes, store, load, load_add, length-load, to_le, length-to_le, IsByteList, append-IsByteList,
  to_le-IsByteList, append-injective, replicate-IsByteList,
}
use rubyserver.Net.Adler.{adler_checksum}
use rubyserver.Net.Adler.Reference.{adler_checksum-lt}
use rubyserver.Net.Xtea.{Key, crypt_blocks, encrypt_block, decrypt_block}
use rubyserver.Net.Xtea.Blocks.{crypt_blocks-eq, crypt-crypt, crypt-IsByteList}
use rubyserver.Net.Message.{
  NetworkMessage, max_protocol_body_length, get_length_header, set_length, get_body_buffer,
}
use rubyserver.Net.Message.Fields.Read.{Holds, get-Holds}
use rubyserver.Net.Output.{OutputMessage}
use rubyserver.Net.Output.Stream.{body, IsCollecting}
use rubyserver.Net.Protocol.{
  Protocol, on_send_message, on_recv_message, xtea_decrypt, decrypt_body, accept_size, start_body,
  check_checksum, receive_header, receive_body, receive_packet,
}
use rubyserver.Net.Protocol.Sending.{
  missing, missing_total, total, blocks, blocks_eq, padded, padded-eq, cipher, length-cipher,
  checksum, framed, framed-eq, on_send_message-eq, load_whole,
}

-- getLengthHeader reads the length that was framed.
length_header-to_le :
    (v : ℕ) (r : NetworkMessage) → v < 65536 → get_length_header (receive_header (to_le 2 v) r) ≡ v
unfolding get_length_header receive_header store to_le
length_header-to_le v r h = omega arith

-- What lies in the receiver's buffer behind the header: a checksum and `n` bytes of ciphertext.
module _ (c n : ℕ) (code : List ℕ) (len : length code ≡ n) (m : NetworkMessage) where
  abbrev held : Bytes
  held = store m.buffer 2 (to_le 4 c ++ code)

  len_all : length (to_le 4 c ++ code) ≡ 4 + n
  len_all = omega (arith, length-append (to_le 4 c) code, length-to_le 4 c)

  held_parts : (load held 2 4 ≡ to_le 4 c) × (load held 6 n ≡ code)
  held_parts =
      append-injective (load held 2 4) (load held 6 n) (to_le 4 c) code
        (length-load held 2 4 ∙ sym (length-to_le 4 c))
        (sym (load_add held 2 4 n) ∙ load_whole m.buffer 2 (4 + n) (to_le 4 c ++ code) len_all)

  -- The message when its body has come.
  abbrev arrived : NetworkMessage
  arrived = record { length = n + 6; position = 2; overrun = m.overrun; buffer = held }

  check_checksum-ok :
      adler_checksum code ≡ c
      → c < 2 ^ 32
      → 0 < n
      → n < 24574
      → check_checksum arrived ≡ (true, record arrived { position = 6 })
  unfolding check_checksum
  check_checksum-ok e small pos fits =
      let some_body : ltb 6 (n + 6) ≡ true = ground arith in
      let rest : n + 6 - 2 - 4 ≡ n = omega arith in
      let same : (c == c) ≡ true = (==_iff c c).1 refl in
      rw (some_body, rest, held_parts.1, e, get-Holds arrived 4 c (omega arith) holds, same)
    where
      holds : Holds arrived (to_le 4 c)
      holds = record {
        bytes = ap (load held 2) (length-to_le 4 c) ∙ held_parts.0;
        in_length = omega (arith, length-to_le 4 c);
        in_buffer = omega (arith, length-to_le 4 c);
      }

-- Decryption of a message that holds the encrypted bytes at its cursor.
module _ (k : Key) (len : ℕ) (b : Bytes) (small : len ≤ max_protocol_body_length)
    (v : IsByteList (load b 8 len)) (held : Bytes) (overrun : Bool)
    (code : load held 6 (total len) ≡ cipher k len b) where
  at_code : NetworkMessage
  at_code = record { length = total len + 6; position = 6; overrun = overrun; buffer = held }

  -- The bytes after the decrypting loop.
  plain : Bytes
  plain = crypt_blocks (decrypt_block k) (blocks len) held 6

  whole : length (load (padded len b) 6 (total len)) ≡ total len
  whole = length-load (padded len b) 6 (total len)

  clear :
      load (padded len b) 6 (total len)
      ≡ to_le 2 len ++ (load b 8 len ++ replicate (missing (len + 2)) 0x33)
  clear = padded-eq k len overrun b small

  padded-IsByteList : IsByteList (load (padded len b) 6 (total len))
  padded-IsByteList = rw clear (
      append-IsByteList (to_le 2 len) _ (to_le-IsByteList 2 len)
        (append-IsByteList (load b 8 len) _ v (replicate-IsByteList (missing (len + 2)))))

  plain-eq : load plain 6 (total len) ≡ load (padded len b) 6 (total len)
  unfolding plain cipher
  plain-eq =
      let eight = blocks_eq k len overrun b small in
      let back =
        crypt-crypt k (blocks len) (padded len b) held 6 6 (rw eight padded-IsByteList)
          (rw eight code) in
      rw (crypt_blocks-eq (decrypt_block k) (blocks len) held 6, back, eight)
        (load_whole held 6 (total len) (load (padded len b) 6 (total len)) whole)

  plain_parts : (load plain 6 2 ≡ to_le 2 len) × (load plain 8 len ≡ load b 8 len)
  plain_parts =
      let split : total len ≡ 2 + (len + missing (len + 2)) = omega arith in
      let front =
        append-injective (load plain 6 2) (load plain 8 (len + missing (len + 2))) (to_le 2 len)
          (load b 8 len ++ replicate (missing (len + 2)) 0x33)
          (length-load plain 6 2 ∙ sym (length-to_le 2 len))
          (sym (load_add plain 6 2 (len + missing (len + 2)))
            ∙ ap (load plain 6) (sym split)
            ∙ plain-eq
            ∙ clear) in
      let back =
        append-injective (load plain 8 len) (load plain (8 + len) (missing (len + 2)))
          (load b 8 len) (replicate (missing (len + 2)) 0x33)
          (length-load plain 8 len ∙ sym (length-load b 8 len))
          (sym (load_add plain 8 len (missing (len + 2))) ∙ front.1) in
      (front.0, back.0)

  decrypted : NetworkMessage
  decrypted = record { length = len; position = 8; overrun = overrun; buffer = plain }

  xtea_decrypt-ok : xtea_decrypt k at_code ≡ (true, decrypted)
  unfolding xtea_decrypt decrypt_body at_code decrypted plain set_length
  xtea_decrypt-ok = rw (aligned, count, get-Holds opened 2 len (omega arith) holds, inner)
    where
      opened : NetworkMessage
      opened = record at_code { buffer = plain }

      holds : Holds opened (to_le 2 len)
      holds = record {
        bytes = ap (load plain 6) (length-to_le 2 len) ∙ plain_parts.0;
        in_length = omega (arith, length-to_le 2 len);
        in_buffer = omega (arith, length-to_le 2 len);
      }

      aligned : ((total len + 6 + 2) % 8 == 0) ≡ true
      aligned = (==_iff _ 0).1 (omega (arith, missing_total (len + 2)))

      count : (total len + 6 - 6 + 7) / 8 ≡ blocks len
      count = omega arith

      inner : ltb (total len + 6) (len + 8) ≡ false
      inner = ground arith

-- The framed bytes come in: the size is accepted, the checksum agrees, and the cursor stands at the
-- ciphertext.
receive_framed :
    (p : Protocol) (c n : ℕ) (code : List ℕ) (r : NetworkMessage)
    → length code ≡ n
    → adler_checksum code ≡ c
    → c < 2 ^ 32
    → 0 < n
    → n + 4 < 24574
    → receive_packet p (to_le 2 (n + 4)) (to_le 4 c ++ code) r
      ≡ some (
          on_recv_message p (record {
            length = n + 6;
            position = 6;
            overrun = r.overrun;
            buffer = store (store r.buffer 0 (to_le 2 (n + 4))) 2 (to_le 4 c ++ code);
          }))
unfolding receive_packet
receive_framed p c n code r len e small pos fits = rw (
  length_header-to_le (n + 4) r (omega arith),
  accepted,
  came,
  check_checksum-ok c n code len m e small pos (omega arith),
)
  where
    m : NetworkMessage
    m = record r { buffer = store r.buffer 0 (to_le 2 (n + 4)) }

    accepted : accept_size (n + 4) ≡ true
    accepted = unfold accept_size in ground arith

    came :
        receive_body (to_le 4 c ++ code) (start_body (n + 4) (receive_header (to_le 2 (n + 4)) r))
        ≡ arrived c n code len m
    came =
        unfold receive_body start_body receive_header set_length get_body_buffer in
        ap (λ (l : ℕ). record (arrived c n code len m) { length = l }) (omega arith)

-- The framed bytes of a body, at a receiver with the key and encryption.
module _ (p : Protocol) (len : ℕ) (b : Bytes) (small : len ≤ max_protocol_body_length)
    (v : IsByteList (load b 8 len)) (r : NetworkMessage) (enc : p.encryption_enabled ≡ true) where
  abbrev tail : List ℕ
  tail = to_le 4 (checksum p.key len b) ++ cipher p.key len b

  receiver : Bytes
  receiver = store (store r.buffer 0 (to_le 2 (total len + 4))) 2 tail

  sum_small : checksum p.key len b < 2 ^ 32
  unfolding cipher
  sum_small =
      adler_checksum-lt (cipher p.key len b)
        (crypt-IsByteList (encrypt_block p.key) (blocks len) (padded len b) 6)
        (omega (arith, length-cipher p.key len r.overrun b small, missing_total (len + 2)))

  code_held : load receiver 6 (total len) ≡ cipher p.key len b
  unfolding receiver
  code_held =
      (held_parts (checksum p.key len b) (total len) (cipher p.key len b)
        (length-cipher p.key len r.overrun b small)
        (record r { buffer = store r.buffer 0 (to_le 2 (total len + 4)) })).1

  outcome : NetworkMessage
  outcome = decrypted p.key len b small v receiver r.overrun code_held

  received : receive_packet p (to_le 2 (total len + 4)) tail r ≡ some (true, outcome)
  unfolding outcome receiver on_recv_message at_code code_held
  received =
      receive_framed p (checksum p.key len b) (total len) (cipher p.key len b) r
        (length-cipher p.key len r.overrun b small) refl sum_small (omega arith)
        (omega (arith, missing_total (len + 2)))
      ∙ rw enc (ap some (xtea_decrypt-ok p.key len b small v receiver r.overrun code_held))

  outcome_parts : (outcome.position ≡ 8) × (outcome.length ≡ len) × (body outcome ≡ load b 8 len)
  unfolding outcome decrypted
  outcome_parts = (refl, refl, (plain_parts p.key len b small v receiver r.overrun code_held).1)

-- The two reads of the framed bytes.
framed_parts :
    (k : Key) (len : ℕ) (overrun : Bool) (b : Bytes)
    → len ≤ max_protocol_body_length
    → (load (framed k len b) 0 2 ≡ to_le 2 (total len + 4))
      × (load (framed k len b) 2 (total len + 6 - 2) ≡ to_le 4 (checksum k len b) ++ cipher k len b)
framed_parts k len overrun b small =
    let rest : total len + 6 - 2 ≡ 4 + total len = omega arith in
    let all : total len + 6 ≡ 2 + (4 + total len) = omega arith in
    rw rest (
      append-injective (load (framed k len b) 0 2) (load (framed k len b) 2 (4 + total len))
        (to_le 2 (total len + 4)) _
        (length-load (framed k len b) 0 2 ∙ sym (length-to_le 2 (total len + 4)))
        (sym (load_add (framed k len b) 0 2 (4 + total len))
          ∙ ap (load (framed k len b) 0) (sym all)
          ∙ framed-eq k len overrun b small))

-- A message that a protocol with encryption and checksum sends, cut behind the two bytes of its
-- header, is accepted by a receiver with the same key whatever its buffer held before: parsePacket is
-- called with the cursor at 8, the length of the body that was sent, and its bytes. The body has at
-- most 24566 bytes.
pub receive_packet-on_send_message :
    (p : Protocol) (o : OutputMessage) (r : NetworkMessage)
    → p.encryption_enabled ≡ true
    → p.checksum_enabled ≡ true
    → p.raw_messages ≡ false
    → IsCollecting o
    → o.length ≤ max_protocol_body_length
    → IsByteList (body o.message)
    → let w = on_send_message p o in
      let header = load w.buffer w.output_buffer_start 2 in
      let rest = load w.buffer (w.output_buffer_start + 2) (w.length - 2) in
      (m : NetworkMessage) × (receive_packet p header rest r ≡ some (true, m))
      × (m.position ≡ 8)
      × (m.length ≡ o.length)
      × (body m ≡ body o.message)
receive_packet-on_send_message p o r enc sum raw v small bytes =
    let parts = framed_parts p.key o.length o.overrun o.buffer small in
    let ends = outcome_parts p o.length o.buffer small bytes r enc in
    rw (on_send_message-eq p o enc sum raw v small, parts.0, parts.1)
      (
        outcome p o.length o.buffer small bytes r enc,
        received p o.length o.buffer small bytes r enc,
        ends.0,
        ends.1,
        ends.2,
      )
