-- ===== src/Net/Output.antt =====
-- src/outputmessage.h: a message with room for headers in front of its body, and the buffer of a
-- protocol that collects messages until they are sent (getOutputBuffer of src/protocol.cpp,
-- writeToOutputBuffer of src/protocolgame.cpp).
pub mod Stream
use rubyserver.Base.{
  ℕ, ◌+◌, ◌-◌, ◌%◌, Bool, true, false, List, [], ◌∷◌, ◌++◌, Option, none, some, ltb, if◌then◌else◌,
}
use rubyserver.Base.Memory.{Bytes, store, load, to_le}
use rubyserver.Net.Adler.{adler_checksum}
use rubyserver.Net.Message.{NetworkMessage, initial_buffer_position, max_protocol_body_length, put}

pub record OutputMessage : Type 0 where
  pub message : NetworkMessage
  pub open message use *
  pub output_buffer_start : ℕ

-- A new message, over whatever bytes its storage holds.
unfoldable pub get_output_message : Bytes → OutputMessage
get_output_message storage = record {
  message = record {
    length = 0;
    position = initial_buffer_position;
    overrun = false;
    buffer = storage;
  };
  output_buffer_start = initial_buffer_position;
}

-- add_header<T> with n = sizeof(T). The assertion is that n <= outputBufferStart.
unfoldable pub add_header : ℕ → ℕ → OutputMessage → OutputMessage
add_header n value o =
    let start : ℕ = (o.output_buffer_start + 65536 - n) % 65536 in
    record {
      message = record o.message {
        buffer = store o.buffer start (to_le n value);
        length = (o.length + n) % 65536;
      };
      output_buffer_start = start;
    }

unfoldable pub write_message_length : OutputMessage → OutputMessage
write_message_length o = add_header 2 o.length o

unfoldable pub add_crypto_header : Bool → OutputMessage → OutputMessage
add_crypto_header add_checksum o = write_message_length (
    if add_checksum
    then add_header 4 (adler_checksum (load o.buffer o.output_buffer_start o.length)) o
    else o)

-- append: memcpy of the other message's body, with no guard.
unfoldable pub append : NetworkMessage → OutputMessage → OutputMessage
append msg o = record o { message = put o.message (load msg.buffer 8 msg.length) }

-- A protocol's output: the buffer that collects, and the messages handed to the connection, the
-- oldest first.
pub record Output : Type 0 where
  pub current : Option OutputMessage
  pub sent : List OutputMessage

-- getOutputBuffer(size): `storage` is the memory of the message that the pool may give.
unfoldable pub get_output_buffer : Bytes → ℕ → Output → OutputMessage × Output
get_output_buffer storage size out = elim out.current [
  | none ↦ let o = get_output_message storage in (o, record out { current = some o })
  | some o ↦
      if ltb max_protocol_body_length (o.length + size)
      then (let fresh = get_output_message storage in
          (fresh, record { current = some fresh; sent = out.sent ++ (o ∷ []) }))
      else (o, out)
]

-- writeToOutputBuffer: the message is appended to the buffer that getOutputBuffer gives.
unfoldable pub write_to_output_buffer : Bytes → NetworkMessage → Output → Output
write_to_output_buffer storage msg out =
    let (o, out') = get_output_buffer storage msg.length out in
    record out' { current = some (append msg o) }

-- One round of sendAll for this protocol: the buffer is moved to the connection.
unfoldable pub send_all : Output → Output
send_all out = elim out.current [
  | none ↦ out
  | some o ↦ record { current = none; sent = out.sent ++ (o ∷ []) }
]
