-- ===== src/Net/Protocol.antt =====
-- src/protocol.cpp: what a protocol does to a message on its way out and on its way in, and the
-- framing of src/connection.cpp round it.
mod Sending
pub mod Loopback
use rubyserver.Base.{
  ℕ, ◌+◌, ◌-◌, ◌/◌, ◌%◌, Bool, true, false, not, ◌&&◌, Option, none, some, List, ltb, leb, ◌==◌,
  if◌then◌else◌,
}
use rubyserver.Base.Memory.{load, store}
use rubyserver.Net.Adler.{adler_checksum}
use rubyserver.Net.Xtea.{Key, crypt_blocks, encrypt_block, decrypt_block}
use rubyserver.Net.Message.{
  NetworkMessage, networkmessage_maxsize, header_length, checksum_length, add_padding_bytes, get,
  get_byte, set_length, skip_bytes, get_body_buffer, get_length_header,
}
use rubyserver.Net.Output.{OutputMessage, write_message_length, add_crypto_header}

pub record Protocol : Type 0 where
  pub key : Key
  pub encryption_enabled : Bool
  pub checksum_enabled : Bool
  pub raw_messages : Bool

-- XTEA_encrypt, the padding to a multiple of 8.
unfoldable pub add_padding : OutputMessage → OutputMessage
add_padding o =
    let padding_bytes = o.length % 8 in
    if padding_bytes == 0
    then o
    else record o { message = add_padding_bytes (8 - padding_bytes) o.message }

-- XTEA_encrypt, the loop: it takes a block while readPos < messageLength.
unfoldable pub xtea_encrypt : Key → OutputMessage → OutputMessage
xtea_encrypt k o =
    let p = add_padding o in
    record p {
      message = record p.message {
        buffer = crypt_blocks (encrypt_block k) ((p.length + 7) / 8) p.buffer p.output_buffer_start;
      };
    }

-- onSendMessage
unfoldable pub on_send_message : Protocol → OutputMessage → OutputMessage
on_send_message p o =
    if not p.raw_messages
    then (let lengthened = write_message_length o in
        if p.encryption_enabled
        then add_crypto_header p.checksum_enabled (xtea_encrypt p.key lengthened)
        else lengthened)
    else o

-- XTEA_decrypt behind its first guard: the loop, the inner length and its check.
unfoldable pub decrypt_body : Key → NetworkMessage → Bool × NetworkMessage
decrypt_body k msg =
    let n = (msg.length - 6 + 7) / 8 in
    let plain = record msg { buffer = crypt_blocks (decrypt_block k) n msg.buffer msg.position } in
    let (inner_length, m) = get 2 plain in
    if ltb m.length (inner_length + 8) then (false, m) else (true, set_length inner_length m)

-- XTEA_decrypt. The guard ((getLength() - 6) & 7) != 0 is on int: it is (length + 2) % 8 != 0, and
-- also turns away every length below 6.
unfoldable pub xtea_decrypt : Key → NetworkMessage → Bool × NetworkMessage
xtea_decrypt k msg = if not ((msg.length + 2) % 8 == 0) then (false, msg) else decrypt_body k msg

-- onRecvMessage: whether parsePacket is called, and with what message.
unfoldable pub on_recv_message : Protocol → NetworkMessage → Bool × NetworkMessage
on_recv_message p msg = if p.encryption_enabled then xtea_decrypt p.key msg else (true, msg)

-- RSA_decrypt: `decrypt` is the RSA operation on the 128 bytes at the cursor.
unfoldable pub rsa_decrypt : (List ℕ → List ℕ) → NetworkMessage → Bool × NetworkMessage
rsa_decrypt decrypt msg =
    if ltb msg.length (msg.position + 128)
    then (false, msg)
    else (let (byte, m) = get_byte (record msg {
      buffer = store msg.buffer msg.position (decrypt (load msg.buffer msg.position 128));
    }) in
        (byte == 0, m))

-- parseHeader behind its checks: `none` of the sizes 0 and from NETWORKMESSAGE_MAXSIZE - 16 on.
unfoldable pub accept_size : ℕ → Bool
accept_size size = not (size == 0) && ltb size (networkmessage_maxsize - 16)

-- The length that parseHeader sets, and where getBodyBuffer puts the cursor.
unfoldable pub start_body : ℕ → NetworkMessage → NetworkMessage
start_body size msg = get_body_buffer (set_length (size + header_length) msg)

-- parsePacket, the checksum: the cursor steps back over what was no checksum.
unfoldable pub check_checksum : NetworkMessage → Bool × NetworkMessage
check_checksum msg =
    let checksum : ℕ =
      if ltb (msg.position + checksum_length) msg.length
      then adler_checksum (
          load msg.buffer (msg.position + checksum_length)
            (msg.length - msg.position - checksum_length))
      else 0 in
    let (received, m) = get 4 msg in
    if received == checksum then (true, m) else (false, skip_bytes (65536 - checksum_length) m)

-- The bytes as they come from the socket: the header's bytes at 0, then the body's at 2.
unfoldable pub receive_header : List ℕ → NetworkMessage → NetworkMessage
receive_header bytes msg = record msg { buffer = store msg.buffer 0 bytes }

unfoldable pub receive_body : List ℕ → NetworkMessage → NetworkMessage
receive_body bytes msg = record msg { buffer = store msg.buffer header_length bytes }

-- A packet that is not a connection's first: parseHeader's size, then parsePacket, then the protocol.
-- `none` is where the connection is closed.
unfoldable pub receive_packet :
    Protocol → List ℕ → List ℕ → NetworkMessage → Option (Bool × NetworkMessage)
receive_packet p header body msg =
    let m = receive_header header msg in
    let size = get_length_header m in
    if accept_size size
    then (let (checked, m') = check_checksum (receive_body body (start_body size m)) in
        some (on_recv_message p m'))
    else none
