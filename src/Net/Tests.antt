-- ===== src/Net/Tests.antt =====
-- The theorems of the network modules at concrete messages, and runs of the code.
use rubyserver.Base.{
  ℕ, ◌+◌, ◌-◌, ◌*◌, ◌<◌, ◌≡◌, refl, true, false, List, [], ◌∷◌, ◌++◌, Option, some, arith, map, ltb,
  if◌then◌else◌,
}
use rubyserver.Base.Memory.{Bytes, load, to_le, from_le}
use rubyserver.Net.Adler.{adler_checksum, add_run, sum_runs, run_of}
use rubyserver.Net.Adler.Reference.{adler_a, adler_b, adler_checksum-eq}
use rubyserver.Net.Xtea.{Key, encrypt_block, decrypt_block}
use rubyserver.Net.Xtea.Rounds.{decrypt_block-encrypt_block}
use rubyserver.Net.Message.{
  NetworkMessage, max_body_length, get_byte, get, get_string, get_chars, get_position, can_read,
}
use rubyserver.Net.Message.Bounds.{
  Write, byte, word, chars, padding, place, write_all, write_all_in_bounds,
}
use rubyserver.Net.Message.Fields
use rubyserver.Net.Message.Fields.{Field, Shape, shape, read_fields, write_fields}
use rubyserver.Net.Message.Fields.Roundtrip.{IsInside, rewound, read_fields-write_fields}
use rubyserver.Net.Message.Fields.Inside.{over, read_fields_in_bounds}
use rubyserver.Net.Output.{OutputMessage, Output}
use rubyserver.Net.Output.Stream.{Event, flush, IsCurrent, body, written, stream, run, stream-run}
use rubyserver.Net.Output.Stream
use rubyserver.Net.Protocol.{Protocol, on_send_message, receive_packet}
use rubyserver.Net.Protocol.Loopback.{receive_packet-on_send_message}

abbrev zeros : Bytes
zeros _ = 0

abbrev blank : NetworkMessage
blank = record { length = 0; position = 8; overrun = false; buffer = zeros }

-- A message with three bytes of body.
abbrev three : NetworkMessage
three = record { length = 3; position = 11; overrun = false; buffer = zeros }

abbrev key : Key
key = record { key0 = 1; key1 = 2; key2 = 3; key3 = 0xFFFFFFFF }

-- "Wikipedia"
abbrev wikipedia : List ℕ
wikipedia = 87 ∷ 105 ∷ 107 ∷ 105 ∷ 112 ∷ 101 ∷ 100 ∷ 105 ∷ 97 ∷ []

adler_wikipedia : adler_checksum wikipedia ≡ 0x11E60398
unfolding adler_checksum sum_runs add_run run_of
adler_wikipedia = refl

adler_checksum-eq_example :
    adler_checksum wikipedia ≡ adler_b 1 0 wikipedia * 65536 + adler_a 1 wikipedia
adler_checksum-eq_example = adler_checksum-eq wikipedia (omega arith) (omega arith)

decrypt_block-encrypt_block_example :
    let (w0, w1) = encrypt_block key 7 9 in decrypt_block key w0 w1 ≡ (7, 9)
decrypt_block-encrypt_block_example =
    decrypt_block-encrypt_block key 7 9 (omega arith) (omega arith)

abbrev writes : List Write
writes =
    byte 7
    ∷ word 4 70000
    ∷ chars wikipedia
    ∷ place (record { x = 100; y = 200; z = 7 })
    ∷ padding 3
    ∷ []

write_all_in_bounds_example :
    ((write_all writes blank).buffer 24576 ≡ 0)
    × ((write_all writes blank).position < max_body_length)
write_all_in_bounds_example =
    write_all_in_bounds writes blank 24576 (omega arith) (omega arith) (omega arith)

abbrev packet : List Field
packet =
    Fields.byte 7
    ∷ Fields.u32 70000
    ∷ Fields.chars wikipedia
    ∷ Fields.place (record { x = 100; y = 200; z = 7 })
    ∷ []

read_fields-write_fields_example :
    (read_fields (map shape packet) (rewound (write_fields packet blank) 8)).0 ≡ packet
read_fields-write_fields_example =
    read_fields-write_fields packet blank (omega arith) refl
      (unfold Fields.wires Fields.wire to_le in omega arith)

-- A first packet behind its header: length and cursor as parseHeader sets them, and other bytes from
-- where canRead stops.
abbrev received : NetworkMessage
received = record { length = 12; position = 2; overrun = false; buffer = λ a. a }

abbrev stale : Bytes
stale a = if ltb a 20 then a else 0

abbrev shapes : List Shape
shapes =
    Fields.a_byte ∷ Fields.a_u16 ∷ Fields.a_place ∷ Fields.a_u64 ∷ Fields.a_byte ∷ Fields.a_string
    ∷ []

read_fields_in_bounds_example :
    ((read_fields shapes (over stale received)).0 ≡ (read_fields shapes received).0)
    × (IsInside (read_fields shapes received).1
        × (((read_fields shapes received).1.buffer ≡ received.buffer)
            × ((read_fields shapes received).1.length ≡ 12)))
read_fields_in_bounds_example =
    read_fields_in_bounds stale shapes received (omega arith) (λ a small low. ground (arith, small))

-- The byte at the address 18 is read, past the 12 bytes of the packet and its header.
reads_past : (read_fields shapes received).1.position ≡ 19
unfolding Fields.read_fields Fields.read_field get_byte get get_string get_chars get_position
    can_read load from_le
reads_past = refl

abbrev idle : Output
idle = record { current = Option.none; sent = [] }

abbrev events : List Event
events = Stream.write zeros three ∷ Stream.write zeros three ∷ flush ∷ Stream.write zeros three ∷ []

stream-run_example :
    (stream (run events idle) ≡ stream idle ++ written events) × IsCurrent (run events idle).current
stream-run_example = stream-run events idle tt (omega arith)

abbrev protocol : Protocol
protocol = record {
  key = key;
  encryption_enabled = true;
  checksum_enabled = true;
  raw_messages = false;
}

abbrev collected : OutputMessage
collected = record { message = three; output_buffer_start = 8 }

receive_packet-on_send_message_example :
    let w = on_send_message protocol collected in
    let header = load w.buffer w.output_buffer_start 2 in
    let rest = load w.buffer (w.output_buffer_start + 2) (w.length - 2) in
    (m : NetworkMessage) × (receive_packet protocol header rest blank ≡ some (true, m))
    × (m.position ≡ 8)
    × (m.length ≡ 3)
    × (body m ≡ body three)
receive_packet-on_send_message_example =
    receive_packet-on_send_message protocol collected blank refl refl refl (omega arith)
      (omega arith) (unfold load in omega arith)
