-- ===== src/File/Props/Roundtrip.antt =====
-- What is written to a PropWriteStream is read back from a PropStream, field by field.
use mathlib.Core.List.{append_assoc, append-nil}
use rubyserver.Base.{
  ℕ, ◌^◌, ◌≤◌, ◌<◌, ◌≡◌, refl, sym, ap, ◌∙◌, false, List, [], ◌∷◌, ◌++◌, Option, none, some, arith,
  ltb, length, map, length-append, take, drop,
}
use rubyserver.Base.Memory.{to_le, from_le, length-to_le, from_le-to_le}
use rubyserver.File.Props.{read, read_chars, read_string, write, write_string}

take-append : (xs ys : List ℕ) → take (length xs) (xs ++ ys) ≡ xs
take-append [] ys = refl
take-append (x ∷ xs) ys = ap (λ l. x ∷ l) (take-append xs ys)

drop-append : (xs ys : List ℕ) → drop (length xs) (xs ++ ys) ≡ ys
drop-append [] ys = refl
drop-append (x ∷ xs) ys = drop-append xs ys

not_short : (xs ys : List ℕ) → ltb (length (xs ++ ys)) (length xs) ≡ false
not_short xs ys = let e = length-append xs ys in ground (arith, e)

read-to_le : (n v : ℕ) (rest : List ℕ) → v < 256 ^ n → read n (to_le n v ++ rest) ≡ some (v, rest)
unfolding read
read-to_le n v rest h =
    sized n (to_le n v) (length-to_le n v) ∙ ap (λ (w : ℕ). some (w, rest)) (from_le-to_le n v h)
  where
    sized : (k : ℕ) (bs : List ℕ) → length bs ≡ k → read k (bs ++ rest) ≡ some (from_le bs, rest)
    sized k bs e =
        ap (λ (j : ℕ). read j (bs ++ rest)) (sym e)
        ∙ (unfold read in rw (not_short bs rest, take-append bs rest, drop-append bs rest))

read_chars-append : (s rest : List ℕ) → read_chars (length s) (s ++ rest) ≡ (some s, rest)
unfolding read_chars
read_chars-append s rest = rw (not_short s rest, take-append s rest, drop-append s rest)

read_string-read :
    (bs rest : List ℕ) (n : ℕ) → read 2 bs ≡ some (n, rest) → read_string bs ≡ read_chars n rest
unfolding read_string
read_string-read bs rest n e = rw (e, read_string)

read_string-of :
    (s rest : List ℕ)
    → length s ≤ 65535
    → read_string (to_le 2 (length s) ++ (s ++ rest)) ≡ (some s, rest)
read_string-of s rest h =
    read_string-read (to_le 2 (length s) ++ (s ++ rest)) (s ++ rest) (length s)
      (read-to_le 2 (length s) (s ++ rest) (omega (arith, h)))
    ∙ read_chars-append s rest

-- What a caller writes: a word of some bytes, or a string.
pub data Item : Type 0 where
  word : ℕ → ℕ → Item
  string : List ℕ → Item

pub data Kind : Type 0 where
  a_word : ℕ → Kind
  a_string : Kind

abbrev pub kind : Item → Kind
kind (word n v) = a_word n
kind (string s) = a_string

abbrev pub IsItem : Item → Type 0
IsItem (word n v) = v < 256 ^ n
IsItem (string s) = length s ≤ 65535

abbrev pub AreItems : List Item → Type 0
AreItems [] = Unit
AreItems (i ∷ is) = IsItem i × AreItems is

unfoldable pub write_item : Item → List ℕ → List ℕ
write_item (word n v) buffer = write n v buffer
write_item (string s) buffer = write_string s buffer

unfoldable pub write_items : List Item → List ℕ → List ℕ
write_items [] buffer = buffer
write_items (i ∷ is) buffer = write_items is (write_item i buffer)

unfoldable pub string_read : Option (List ℕ) × List ℕ → Option (Item × List ℕ)
string_read (none, rest) = none
string_read (some str, rest) = some (string str, rest)

unfoldable pub read_item : Kind → List ℕ → Option (Item × List ℕ)
read_item (a_word n) s = elim (read n s) [ none ↦ none | some (v, rest) ↦ some (word n v, rest) ]
read_item a_string s = string_read (read_string s)

unfoldable pub read_items : List Kind → List ℕ → Option (List Item × List ℕ)
read_items [] s = some ([], s)
read_items (k ∷ ks) s = elim (read_item k s) [
  | none ↦ none
  | some (i, rest) ↦ elim (read_items ks rest) [ none ↦ none | some (is, end) ↦ some (i ∷ is, end) ]
]

-- The bytes of an item, and that a write appends them.
bytes_of : Item → List ℕ
bytes_of (word n v) = to_le n v
bytes_of (string s) = to_le 2 (length s) ++ s

bytes_of_all : List Item → List ℕ
bytes_of_all [] = []
bytes_of_all (i ∷ is) = bytes_of i ++ bytes_of_all is

write_item-eq : (i : Item) (buffer : List ℕ) → IsItem i → write_item i buffer ≡ buffer ++ bytes_of i
unfolding write_item write write_string bytes_of
write_item-eq (word n v) buffer h = refl
write_item-eq (string s) buffer h =
    let fits : ltb 65535 (length s) ≡ false = ground (arith, h) in
    rw fits (append_assoc buffer (to_le 2 (length s)) s)

write_items-eq :
    (is : List Item) (buffer : List ℕ)
    → AreItems is
    → write_items is buffer ≡ buffer ++ bytes_of_all is
unfolding write_items bytes_of_all
write_items-eq [] buffer h = sym (append-nil buffer)
write_items-eq (i ∷ is) buffer h =
    ap (write_items is) (write_item-eq i buffer h.0)
    ∙ write_items-eq is (buffer ++ bytes_of i) h.1
    ∙ append_assoc buffer (bytes_of i) (bytes_of_all is)

read_item-word :
    (n v : ℕ) (bs rest : List ℕ)
    → read n bs ≡ some (v, rest)
    → read_item (a_word n) bs ≡ some (word n v, rest)
unfolding read_item
read_item-word n v bs rest e = rw (e, read_item)

read_item-string :
    (str bs rest : List ℕ)
    → read_string bs ≡ (some str, rest)
    → read_item a_string bs ≡ some (string str, rest)
unfolding read_item string_read
read_item-string str bs rest e = ap string_read e

read_item-bytes_of :
    (i : Item) (rest : List ℕ) → IsItem i → read_item (kind i) (bytes_of i ++ rest) ≡ some (i, rest)
unfolding bytes_of
read_item-bytes_of (word n v) rest h =
    read_item-word n v (to_le n v ++ rest) rest (read-to_le n v rest h)
read_item-bytes_of (string s) rest h =
    read_item-string s ((to_le 2 (length s) ++ s) ++ rest) rest
      (ap read_string (append_assoc (to_le 2 (length s)) s rest) ∙ read_string-of s rest h)

read_items-step :
    (k : Kind) (ks : List Kind) (i : Item) (is : List Item) (bs rest end : List ℕ)
    → read_item k bs ≡ some (i, rest)
    → read_items ks rest ≡ some (is, end)
    → read_items (k ∷ ks) bs ≡ some (i ∷ is, end)
unfolding read_items
read_items-step k ks i is bs rest end e f = rw (e, f, read_items)

read_items-bytes_of_all :
    (is : List Item) (rest : List ℕ)
    → AreItems is
    → read_items (map kind is) (bytes_of_all is ++ rest) ≡ some (is, rest)
read_items-bytes_of_all [] rest h = unfold read_items bytes_of_all in refl
read_items-bytes_of_all (i ∷ is) rest h =
    read_items-step (kind i) (map kind is) i is (bytes_of_all (i ∷ is) ++ rest)
      (bytes_of_all is ++ rest) rest
      (unfold bytes_of_all in
        ap (read_item (kind i)) (append_assoc (bytes_of i) (bytes_of_all is) rest)
        ∙ read_item-bytes_of i (bytes_of_all is ++ rest) h.0)
      (read_items-bytes_of_all is rest h.1)

-- Words that fit their sizes and strings of at most 65535 bytes, written in turn to an empty stream,
-- are read back in the same order with none of the bytes left.
pub read_items-write_items :
    (is : List Item) → AreItems is → read_items (map kind is) (write_items is []) ≡ some (is, [])
read_items-write_items is h =
    ap (read_items (map kind is)) (write_items-eq is [] h ∙ sym (append-nil (bytes_of_all is)))
    ∙ read_items-bytes_of_all is [] h
