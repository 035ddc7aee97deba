-- ===== src/Net/Message/Bounds.antt =====
-- The guard canAdd keeps every write of networkmessage.h and networkmessage.cpp inside the buffer.
use rubyserver.Base.{
  ℕ, ◌+◌, ◌^◌, ◌≤◌, ◌<◌, ◌≡◌, refl, ◌∙◌, inl, inr, List, [], ◌∷◌, ◌++◌, ◌||◌, length-append, arith,
  length, length-replicate, Bool-cases, if_either, replicate,
}
use rubyserver.Base.Memory.{store_above, to_le, length-to_le}
use rubyserver.World.Position.{Position}
use rubyserver.World.ItemType.{ItemType, Items, get_item_type, is_splash, is_fluid_container}
use rubyserver.Net.Message.Steps.{
  can_add→lt, add_byte-fits, add-fits, add_bytes-fits, add_string-fits, add_byte-cases, add-cases,
  add_bytes-cases, add_string-cases,
}
use rubyserver.Net.Message.{
  NetworkMessage, max_body_length, put, can_add, add_byte, add, add_string, add_bytes,
  add_padding_bytes, add_position, add_count, add_item, add_item_id,
}

-- A call of one of the writing operations.
pub data Write : Type 0 where
  byte : ℕ → Write
  word : ℕ → ℕ → Write
  chars bytes : List ℕ → Write
  padding : ℕ → Write
  place : Position → Write
  item : Items → ℕ → ℕ → Write
  item_id : Items → ℕ → Write

unfoldable pub write : Write → NetworkMessage → NetworkMessage
write (byte v) msg = add_byte v msg
write (word n v) msg = add n v msg
write (chars s) msg = add_string s msg
write (bytes bs) msg = add_bytes bs msg
write (padding n) msg = add_padding_bytes n msg
write (place p) msg = add_position p msg
write (item items id count) msg = add_item items id count msg
write (item_id items id) msg = add_item_id items id msg

-- The sizes that the callers can pass: sizeof(T), and a padding count below 2 ^ 63.
abbrev pub IsSized : Write → Type 0
IsSized (word n v) = n ≤ 8
IsSized (padding n) = n < 2 ^ 63
IsSized (chars s) = length s < 2 ^ 62
IsSized (bytes bs) = length bs < 2 ^ 63
IsSized _ = Unit

-- What holds of a message after a write to `msg`.
pub record Stays (msg msg' : NetworkMessage) : Type 0 where
  pub place : msg'.position < max_body_length
  pub above : (i : ℕ) → max_body_length ≤ i → msg'.buffer i ≡ msg.buffer i

Stays-refl : (msg : NetworkMessage) → msg.position < max_body_length → Stays msg msg
Stays-refl msg h = record { place = h; above = λ i k. refl }

Stays-trans : (a b c : NetworkMessage) → Stays a b → Stays b c → Stays a c
Stays-trans a b c s t = record { place = t.place; above = λ i k. t.above i k ∙ s.above i k }

put-Stays :
    (msg : NetworkMessage) (bs : List ℕ)
    → msg.position + length bs < max_body_length
    → Stays msg (put msg bs)
put-Stays msg bs h = record {
  place = omega arith;
  above = λ i k. store_above msg.buffer msg.position bs i (omega arith);
}

module _ (msg : NetworkMessage) (h : msg.position < max_body_length) where
  add_byte-Stays : (v : ℕ) → Stays msg (add_byte v msg)
  add_byte-Stays v = elim (add_byte-cases msg h v) [
    | inl e ↦ rw e (Stays-refl msg h)
    | inr k ↦ rw (add_byte-fits v msg k) (put-Stays msg (v ∷ []) k)
  ]

  add-Stays : (n v : ℕ) → n ≤ 8 → Stays msg (add n v msg)
  add-Stays n v k = elim (add-cases msg h n v k) [
    | inl e ↦ rw e (Stays-refl msg h)
    | inr j ↦ rw (add-fits n v msg j) (put-Stays msg (to_le n v) (omega (arith, length-to_le n v)))
  ]

  add_bytes-Stays : (bs : List ℕ) → length bs < 2 ^ 63 → Stays msg (add_bytes bs msg)
  add_bytes-Stays bs k = elim (add_bytes-cases msg h bs k) [
    | inl e ↦ rw e (Stays-refl msg h)
    | inr (j, l) ↦ rw (add_bytes-fits bs msg j l) (put-Stays msg bs j)
  ]

  add_string-Stays : (s : List ℕ) → length s < 2 ^ 62 → Stays msg (add_string s msg)
  add_string-Stays s k = elim (add_string-cases msg h s k) [
    | inl e ↦ rw e (Stays-refl msg h)
    | inr (j, l) ↦ rw (add_string-fits s msg j l) (
        put-Stays msg (to_le 2 (length s) ++ s)
          (omega (arith, length-append (to_le 2 (length s)) s, length-to_le 2 (length s))))
  ]

  add_padding_bytes-Stays : (n : ℕ) → n < 2 ^ 63 → Stays msg (add_padding_bytes n msg)
  unfolding add_padding_bytes
  add_padding_bytes-Stays n k = elim (Bool-cases (can_add msg n)) [
    | inl e ↦ rw e (record {
      place = h;
      above = λ i j.
          store_above msg.buffer msg.position (replicate n 0x33) i
            (omega (arith, length-replicate {A = ℕ} n 0x33, can_add→lt msg n h k e));
    })
    | inr e ↦ rw e (Stays-refl msg h)
  ]

-- A second write after a first.
then_Stays :
    (msg a : NetworkMessage) (f : NetworkMessage → NetworkMessage)
    → Stays msg a
    → ((m : NetworkMessage) → m.position < max_body_length → Stays m (f m))
    → Stays msg (f a)
then_Stays msg a f s step = Stays-trans msg a (f a) s (step a s.place)

add_count-Stays :
    (it : ItemType) (count fluid : ℕ) (msg : NetworkMessage)
    → msg.position < max_body_length
    → Stays msg (add_count it count fluid msg)
unfolding add_count
add_count-Stays it count fluid msg h =
    if_either (Stays msg) it.stackable _ _ (add-Stays msg h 2 count (omega arith)) (
      if_either (Stays msg) (is_splash it || is_fluid_container it) _ _
        (add-Stays msg h 2 _ (omega arith)) (Stays-refl msg h))

add_item-Stays :
    (items : Items) (id count : ℕ) (msg : NetworkMessage)
    → msg.position < max_body_length
    → Stays msg (add_item items id count msg)
unfolding add_item
add_item-Stays items id count msg h =
    if_either (Stays msg) it.is_animation _ _
      (then_Stays msg _ (add_byte 0xFE) before (λ m k. add_byte-Stays m k 0xFE)) before
  where
    it : ItemType
    it = get_item_type items id

    before : Stays msg (add_count it count count (add_byte 0xFF (add 2 it.client_id msg)))
    before =
        then_Stays msg _ (add_count it count count)
          (then_Stays msg _ (add_byte 0xFF) (add-Stays msg h 2 it.client_id (omega arith))
            (λ m k. add_byte-Stays m k 0xFF))
          (add_count-Stays it count count)

write-Stays :
    (w : Write) (msg : NetworkMessage)
    → IsSized w
    → msg.position < max_body_length
    → Stays msg (write w msg)
unfolding write add_position add_item_id
write-Stays (byte v) msg s h = add_byte-Stays msg h v
write-Stays (word n v) msg s h = add-Stays msg h n v s
write-Stays (chars bs) msg s h = add_string-Stays msg h bs s
write-Stays (bytes bs) msg s h = add_bytes-Stays msg h bs s
write-Stays (padding n) msg s h = add_padding_bytes-Stays msg h n s
write-Stays (place p) msg s h =
    then_Stays msg _ (add_byte p.z)
      (then_Stays msg _ (add 2 p.y) (add-Stays msg h 2 p.x (omega arith))
        (λ m k. add-Stays m k 2 p.y (omega arith)))
      (λ m k. add_byte-Stays m k p.z)
write-Stays (item items id count) msg s h = add_item-Stays items id count msg h
write-Stays (item_id items id) msg s h = add-Stays msg h 2 _ (omega arith)

-- A sequence of writes.
pub write_all : List Write → NetworkMessage → NetworkMessage
write_all [] msg = msg
write_all (w ∷ ws) msg = write_all ws (write w msg)

abbrev pub AreSized : List Write → Type 0
AreSized [] = Unit
AreSized (w ∷ ws) = IsSized w × AreSized ws

write_all-Stays :
    (ws : List Write) (msg : NetworkMessage)
    → AreSized ws
    → msg.position < max_body_length
    → Stays msg (write_all ws msg)
unfolding write_all
write_all-Stays [] msg s h = Stays-refl msg h
write_all-Stays (w ∷ ws) msg s h =
    let first = write-Stays w msg s.0 h in
    Stays-trans msg (write w msg) _ first (write_all-Stays ws (write w msg) s.1 first.place)

-- No sequence of writes to a message whose position is below `max_body_length` changes the byte at
-- an address from `max_body_length` on, and the position is still below it after them.
pub write_all_in_bounds :
    (ws : List Write) (msg : NetworkMessage) (i : ℕ)
    → AreSized ws
    → msg.position < max_body_length
    → max_body_length ≤ i
    → ((write_all ws msg).buffer i ≡ msg.buffer i) × ((write_all ws msg).position < max_body_length)
write_all_in_bounds ws msg i s h k =
    let stays = write_all-Stays ws msg s h in (stays.above i k, stays.place)
