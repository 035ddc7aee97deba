-- ===== src/Net/Message.antt =====
-- src/networkmessage.h and src/networkmessage.cpp: the message buffer with its cursor, its guarded
-- reads and writes. MsgSize_t is uint16_t, so length and position wrap at 65536; a size_t sum wraps
-- at 2 ^ 64. A write or read that its guard refuses changes nothing but, for a read, `overrun`.
pub mod Steps
pub mod Bounds
pub mod Fields
use rubyserver.Base.{
  ℕ, ◌+◌, ◌-◌, ◌*◌, ◌%◌, ◌^◌, Bool, true, false, not, ◌||◌, List, [], ltb, leb, ◌==◌, if◌then◌else◌,
  length, replicate, get_or, ◌∷◌,
}
use rubyserver.Base.Memory.{Bytes, store, load, to_le, from_le}
use rubyserver.World.Position.{Position}
use rubyserver.World.ItemType.{ItemType, Items, get_item_type, is_splash, is_fluid_container}

abbrev pub networkmessage_maxsize : ℕ
networkmessage_maxsize = 24590

abbrev pub initial_buffer_position : ℕ
initial_buffer_position = 8

abbrev pub header_length : ℕ
header_length = 2

abbrev pub checksum_length : ℕ
checksum_length = 4

abbrev pub xtea_multiple : ℕ
xtea_multiple = 8

abbrev pub max_body_length : ℕ
max_body_length = networkmessage_maxsize - header_length - checksum_length - xtea_multiple

abbrev pub max_protocol_body_length : ℕ
max_protocol_body_length = max_body_length - 10

pub record NetworkMessage : Type 0 where
  pub length : ℕ
  pub position : ℕ
  pub overrun : Bool
  pub buffer : Bytes

-- reset: the buffer's bytes stay.
unfoldable pub reset : NetworkMessage → NetworkMessage
reset msg = record msg { length = 0; position = initial_buffer_position; overrun = false }

unfoldable pub can_add : NetworkMessage → ℕ → Bool
can_add msg size = ltb ((size + msg.position) % 2 ^ 64) max_body_length

-- canRead: the answer, and the message with `overrun` set where it is no. `size` is not negative.
unfoldable pub can_read : NetworkMessage → ℕ → Bool × NetworkMessage
can_read msg size =
    if ltb (msg.length + 8) (msg.position + size)
      || leb networkmessage_maxsize (msg.position + size)
    then (false, record msg { overrun = true })
    else (true, msg)

-- position += n
abbrev pub advance : NetworkMessage → ℕ → NetworkMessage
advance msg n = record msg { position = (msg.position + n) % 65536 }

-- The three lines that every write ends in: memcpy, position += n, length += n.
abbrev pub put : NetworkMessage → List ℕ → NetworkMessage
put msg bytes = record msg {
  buffer = store msg.buffer msg.position bytes;
  position = (msg.position + length bytes) % 65536;
  length = (msg.length + length bytes) % 65536;
}

unfoldable pub get_byte : NetworkMessage → ℕ × NetworkMessage
get_byte msg =
    let (fits, m) = can_read msg 1 in if fits then (m.buffer m.position, advance m 1) else (0, m)

-- buffer[--position]
unfoldable pub get_previous_byte : NetworkMessage → ℕ × NetworkMessage
get_previous_byte msg =
    let position : ℕ = (msg.position + 65535) % 65536 in
    (msg.buffer position, record msg { position = position })

-- get<T> with n = sizeof(T)
unfoldable pub get : ℕ → NetworkMessage → ℕ × NetworkMessage
get n msg =
    let (fits, m) = can_read msg n in
    if fits then (from_le (load m.buffer m.position n), advance m n) else (0, m)

-- The part of getString behind the length.
unfoldable pub get_chars : ℕ → NetworkMessage → List ℕ × NetworkMessage
get_chars len msg =
    let (fits, m) = can_read msg len in
    if fits then (load m.buffer m.position len, advance m len) else ([], m)

-- getString: with the length 0 it is read from the message.
unfoldable pub get_string : ℕ → NetworkMessage → List ℕ × NetworkMessage
get_string len msg =
    if len == 0 then (let (n, m) = get 2 msg in get_chars n m) else get_chars len msg

unfoldable pub get_position : NetworkMessage → Position × NetworkMessage
get_position msg =
    let (x, m) = get 2 msg in
    let (y, m') = get 2 m in let (z, m'') = get_byte m' in (record { x = x; y = y; z = z }, m'')

-- skipBytes: the int16_t count by its bit pattern, so that -4 is 65532.
unfoldable pub skip_bytes : ℕ → NetworkMessage → NetworkMessage
skip_bytes count msg = advance msg count

unfoldable pub add_byte : ℕ → NetworkMessage → NetworkMessage
add_byte value msg = if can_add msg 1 then put msg (value ∷ []) else msg

-- add<T> with n = sizeof(T)
unfoldable pub add : ℕ → ℕ → NetworkMessage → NetworkMessage
add n value msg = if can_add msg n then put msg (to_le n value) else msg

unfoldable pub add_string : List ℕ → NetworkMessage → NetworkMessage
add_string value msg =
    if not (can_add msg (length value + 2)) || ltb 8192 (length value)
    then msg
    else put (add 2 (length value) msg) value

unfoldable pub add_bytes : List ℕ → NetworkMessage → NetworkMessage
add_bytes bytes msg =
    if not (can_add msg (length bytes)) || ltb 8192 (length bytes) then msg else put msg bytes

-- addPaddingBytes: the length grows and the position stays.
unfoldable pub add_padding_bytes : ℕ → NetworkMessage → NetworkMessage
add_padding_bytes n msg =
    if can_add msg n
    then record msg {
      buffer = store msg.buffer msg.position (replicate n 0x33);
      length = (msg.length + n) % 65536;
    }
    else msg

unfoldable pub add_position : Position → NetworkMessage → NetworkMessage
add_position pos msg = add_byte pos.z (add 2 pos.y (add 2 pos.x msg))

-- addDouble: `scaled` is the floating-point product (value * 10 ^ precision) + INT32_MAX, as the
-- runtime converts it to uint32_t.
unfoldable pub add_double {ℓ} :
    {Double : Type ℓ} → (Double → ℕ → ℕ) → Double → ℕ → NetworkMessage → NetworkMessage
add_double scaled value precision msg = add 4 (scaled value precision) (add_byte precision msg)

-- fluidMap
abbrev pub fluid_map : List ℕ
fluid_map = 0 ∷ 1 ∷ 5 ∷ 3 ∷ 6 ∷ 8 ∷ 9 ∷ 2 ∷ []

-- The part of the two addItem that depends on the count or the fluid of the item.
unfoldable pub add_count : ItemType → ℕ → ℕ → NetworkMessage → NetworkMessage
add_count it count fluid msg =
    if it.stackable
    then add 2 count msg
    else (if is_splash it || is_fluid_container it
        then add 2 (get_or fluid_map (fluid % 8) 0) msg
        else msg)

-- addItem(id, count)
unfoldable pub add_item : Items → ℕ → ℕ → NetworkMessage → NetworkMessage
add_item items id count msg =
    let it = get_item_type items id in
    let m = add_count it count count (add_byte 0xFF (add 2 it.client_id msg)) in
    if it.is_animation then add_byte 0xFE m else m

-- addItem(item), of an item with its id, count and fluid type
unfoldable pub add_item_thing : Items → ℕ → ℕ → ℕ → NetworkMessage → NetworkMessage
add_item_thing items id item_count fluid_type msg =
    let it = get_item_type items id in
    let count = if ltb item_count 0xFFFF then item_count else 0xFFFF in
    let m = add_count it count fluid_type (add_byte 0xFF (add 2 it.client_id msg)) in
    if it.is_animation then add_byte 0xFE m else m

unfoldable pub add_item_id : Items → ℕ → NetworkMessage → NetworkMessage
add_item_id items id msg = add 2 (get_item_type items id).client_id msg

-- getLengthHeader
unfoldable pub get_length_header : NetworkMessage → ℕ
get_length_header msg = (msg.buffer 0 + 256 * msg.buffer 1) % 65536

-- setLength
unfoldable pub set_length : ℕ → NetworkMessage → NetworkMessage
set_length n msg = record msg { length = n }

-- getBodyBuffer: the place is the constant `header_length`; the position is moved there.
unfoldable pub get_body_buffer : NetworkMessage → NetworkMessage
get_body_buffer msg = record msg { position = 2 }
