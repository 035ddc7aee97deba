-- ===== src/Net/Message/Fields.antt =====
-- A packet is a sequence of fields, which src/networkmessage.h and src/networkmessage.cpp write and
-- read by one operation each. The children prove what is written and what is read.
mod Write
pub mod Read
pub mod Roundtrip
pub mod Inside
use mathlib.Core.List.{append_assoc}
use rubyserver.Base.{
  ℕ, zero, suc, ◌+◌, ◌*◌, ◌/◌, ◌%◌, ◌^◌, ◌≤◌, ◌<◌, ◌≡◌, refl, ap, ◌∙◌, sym, ◌⊎◌, inl, inr, Bool,
  true, false, List, [], ◌∷◌, ◌++◌, arith, map, length, length-append, ◌==◌, if◌then◌else◌,
}
use rubyserver.Base.Memory.{
  Bytes, store, store-nil, load, load_head, load_add, length-load, load-store, to_le, from_le,
  length-to_le, from_le-to_le,
}
use rubyserver.World.Position.{Position, IsPosition}
use rubyserver.Net.Message.{
  NetworkMessage, networkmessage_maxsize, max_body_length, put, advance, add_byte, add, add_string,
  add_position, get_byte, get, get_chars, get_string, get_position, can_read,
}
use rubyserver.Net.Message.Steps.{add_byte-fits, add-fits, add_string-fits, put-append}

pub data Field : Type 0 where
  byte u16 u32 u64 : ℕ → Field
  chars : List ℕ → Field
  place : Position → Field

pub data Shape : Type 0 where
  a_byte a_u16 a_u32 a_u64 a_string a_place : Shape

abbrev pub shape : Field → Shape
shape (byte v) = a_byte
shape (u16 v) = a_u16
shape (u32 v) = a_u32
shape (u64 v) = a_u64
shape (chars s) = a_string
shape (place p) = a_place

-- The values that the field's type can hold.
abbrev pub IsField : Field → Type 0
IsField (byte v) = v < 256
IsField (u16 v) = v < 2 ^ 16
IsField (u32 v) = v < 2 ^ 32
IsField (u64 v) = v < 2 ^ 64
IsField (chars s) = length s ≤ 8192
IsField (place p) = IsPosition p

-- The bytes of a field on the wire.
unfoldable pub wire : Field → List ℕ
wire (byte v) = v ∷ []
wire (u16 v) = to_le 2 v
wire (u32 v) = to_le 4 v
wire (u64 v) = to_le 8 v
wire (chars s) = to_le 2 (length s) ++ s
wire (place p) = to_le 2 p.x ++ (to_le 2 p.y ++ (p.z ∷ []))

unfoldable pub write_field : Field → NetworkMessage → NetworkMessage
write_field (byte v) msg = add_byte v msg
write_field (u16 v) msg = add 2 v msg
write_field (u32 v) msg = add 4 v msg
write_field (u64 v) msg = add 8 v msg
write_field (chars s) msg = add_string s msg
write_field (place p) msg = add_position p msg

-- What a read gives, under the field's constructor.
abbrev tag {ℓ} : {A : Type ℓ} → (A → Field) → A × NetworkMessage → Field × NetworkMessage
tag f (a, m) = (f a, m)

unfoldable pub read_field : Shape → NetworkMessage → Field × NetworkMessage
read_field a_byte msg = tag byte (get_byte msg)
read_field a_u16 msg = tag u16 (get 2 msg)
read_field a_u32 msg = tag u32 (get 4 msg)
read_field a_u64 msg = tag u64 (get 8 msg)
read_field a_string msg = tag chars (get_string 0 msg)
read_field a_place msg = tag place (get_position msg)

-- Sequences of fields.
unfoldable pub write_fields : List Field → NetworkMessage → NetworkMessage
write_fields [] msg = msg
write_fields (f ∷ fs) msg = write_fields fs (write_field f msg)

unfoldable pub read_fields : List Shape → NetworkMessage → List Field × NetworkMessage
read_fields [] msg = ([], msg)
read_fields (s ∷ ss) msg =
    let (f, m) = read_field s msg in let (fs, m') = read_fields ss m in (f ∷ fs, m')

unfoldable pub wires : List Field → List ℕ
wires [] = []
wires (f ∷ fs) = wire f ++ wires fs

abbrev pub AreFields : List Field → Type 0
AreFields [] = Unit
AreFields (f ∷ fs) = IsField f × AreFields fs
