-- ===== src/Thing/Tile/Changes/Order.antt =====
-- The order of the items on a tile.
use rubyserver.Base.{
  ℕ, zero, suc, ◌≤◌, ◌≡◌, refl, ap, true, false, List, [], ◌∷◌, Option, none, some, ltb, leb, ◌==◌,
  length, arith, if_either, if_split,
}
use rubyserver.Thing.Tile.{TileItem}
use rubyserver.Thing.Tile.Changes.{
  insert_top, insert_top_last, behind, erase_top, erase_down, set_count,
}

abbrev IsUnder : TileItem → List TileItem → Type 0
IsUnder x [] = Unit
IsUnder x (y ∷ ys) = x.top_order ≤ y.top_order

-- Top items, each at least as high as the one before.
abbrev pub AreTop : List TileItem → Type 0
AreTop [] = Unit
AreTop (x ∷ xs) = (x.always_on_top ≡ true) × (IsUnder x xs × AreTop xs)

-- Down items, that many, and then top items.
abbrev pub AreOrdered : ℕ → List TileItem → Type 0
AreOrdered zero xs = AreTop xs
AreOrdered (suc down) [] = ⊥
AreOrdered (suc down) (x ∷ xs) = (x.always_on_top ≡ false) × AreOrdered down xs

insert_top-IsUnder :
    (x it : TileItem) (xs : List TileItem)
    → x.top_order ≤ it.top_order
    → IsUnder x xs
    → IsUnder x (insert_top zero it xs)
unfolding insert_top
insert_top-IsUnder x it [] h k = h
insert_top-IsUnder x it (y ∷ ys) h k =
    if_either (IsUnder x) (leb it.top_order y.top_order) (it ∷ y ∷ ys) _ h k

pub insert_top-AreOrdered :
    (down : ℕ) (it : TileItem) (xs : List TileItem)
    → it.always_on_top ≡ true
    → AreOrdered down xs
    → AreOrdered down (insert_top down it xs)
unfolding insert_top
insert_top-AreOrdered zero it [] top h = (top, (tt, tt))
insert_top-AreOrdered (suc down) it [] top h = absurd h
insert_top-AreOrdered (suc down) it (x ∷ xs) top h = (h.0, insert_top-AreOrdered down it xs top h.1)
insert_top-AreOrdered zero it (x ∷ xs) top h =
    if_split AreTop (leb it.top_order x.top_order) (it ∷ x ∷ xs) _
      (λ e. (top, (ground (arith, e), h)))
      (λ e. (
        h.0,
        (
          insert_top-IsUnder x it xs (ground (arith, e)) h.1.0,
          insert_top-AreOrdered zero it xs top h.1.1,
        ),
      ))

insert_top_last-IsUnder :
    (x it : TileItem) (xs : List TileItem)
    → x.top_order ≤ it.top_order
    → IsUnder x xs
    → IsUnder x (insert_top_last zero it xs)
unfolding insert_top_last
insert_top_last-IsUnder x it [] h k = h
insert_top_last-IsUnder x it (y ∷ ys) h k =
    if_either (IsUnder x) (ltb it.top_order y.top_order) (it ∷ y ∷ ys) _ h k

pub insert_top_last-AreOrdered :
    (down : ℕ) (it : TileItem) (xs : List TileItem)
    → it.always_on_top ≡ true
    → AreOrdered down xs
    → AreOrdered down (insert_top_last down it xs)
unfolding insert_top_last
insert_top_last-AreOrdered zero it [] top h = (top, (tt, tt))
insert_top_last-AreOrdered (suc down) it [] top h = absurd h
insert_top_last-AreOrdered (suc down) it (x ∷ xs) top h =
    (h.0, insert_top_last-AreOrdered down it xs top h.1)
insert_top_last-AreOrdered zero it (x ∷ xs) top h =
    if_split AreTop (ltb it.top_order x.top_order) (it ∷ x ∷ xs) _
      (λ e. (top, (ground (arith, e), h)))
      (λ e. (
        h.0,
        (
          insert_top_last-IsUnder x it xs (ground (arith, e)) h.1.0,
          insert_top_last-AreOrdered zero it xs top h.1.1,
        ),
      ))

pub length-insert_top :
    (down : ℕ) (it : TileItem) (xs : List TileItem)
    → (length (insert_top down it xs) ≡ suc (length xs))
      × (length (insert_top_last down it xs) ≡ suc (length xs))
unfolding insert_top insert_top_last
length-insert_top zero it [] = (refl, refl)
length-insert_top (suc down) it [] = (refl, refl)
length-insert_top (suc down) it (x ∷ xs) = ground (arith, length-insert_top down it xs)
length-insert_top zero it (x ∷ xs) = ground (arith, length-insert_top zero it xs)

-- Removing an item.
IsUnder-trans :
    (x y : TileItem) (ys : List TileItem) → x.top_order ≤ y.top_order → IsUnder y ys → IsUnder x ys
IsUnder-trans x y [] h k = tt
IsUnder-trans x y (z ∷ zs) h k = omega (arith, h, k)

abbrev IsUnderRest : TileItem → Option (List TileItem) → Type 0
IsUnderRest x none = Unit
IsUnderRest x (some xs) = IsUnder x xs

behind-IsUnderRest :
    (x y : TileItem) (o : Option (List TileItem))
    → x.top_order ≤ y.top_order
    → IsUnderRest x (behind y o)
behind-IsUnderRest x y none h = tt
behind-IsUnderRest x y (some ys) h = h

erase_top-IsUnderRest :
    (x : TileItem) (uid : ℕ) (xs : List TileItem)
    → AreTop xs
    → IsUnder x xs
    → IsUnderRest x (erase_top zero uid xs)
unfolding erase_top
erase_top-IsUnderRest x uid [] h k = tt
erase_top-IsUnderRest x uid (y ∷ ys) h k =
    if_either (IsUnderRest x) (y.uid == uid) (some ys) _ (IsUnder-trans x y ys k h.1.0)
      (behind-IsUnderRest x y (erase_top zero uid ys) k)

-- A list with one item less.
abbrev pub IsLess : ℕ → ℕ → Option (List TileItem) → Type 0
IsLess down n none = Unit
IsLess down n (some xs) = AreOrdered down xs × (suc (length xs) ≡ n)

behind_top-IsLess :
    (x : TileItem) (n : ℕ) (o : Option (List TileItem))
    → x.always_on_top ≡ true
    → IsUnderRest x o
    → IsLess zero n o
    → IsLess zero (suc n) (behind x o)
behind_top-IsLess x n none top k h = tt
behind_top-IsLess x n (some xs) top k h = ((top, (k, h.0)), ap suc h.1)

behind_down-IsLess :
    (down : ℕ) (x : TileItem) (n : ℕ) (o : Option (List TileItem))
    → x.always_on_top ≡ false
    → IsLess down n o
    → IsLess (suc down) (suc n) (behind x o)
behind_down-IsLess down x n none low h = tt
behind_down-IsLess down x n (some xs) low h = ((low, h.0), ap suc h.1)

pub erase_top-IsLess :
    (down uid : ℕ) (xs : List TileItem)
    → AreOrdered down xs
    → IsLess down (length xs) (erase_top down uid xs)
unfolding erase_top
erase_top-IsLess zero uid [] h = tt
erase_top-IsLess (suc down) uid [] h = tt
erase_top-IsLess (suc down) uid (x ∷ xs) h =
    behind_down-IsLess down x (length xs) (erase_top down uid xs) h.0
      (erase_top-IsLess down uid xs h.1)
erase_top-IsLess zero uid (x ∷ xs) h =
    if_either (IsLess zero (suc (length xs))) (x.uid == uid) (some xs) _ ((h.1.1, refl)) (
      behind_top-IsLess x (length xs) (erase_top zero uid xs) h.0
        (erase_top-IsUnderRest x uid xs h.1.1 h.1.0) (erase_top-IsLess zero uid xs h.1.1))

-- One of the down items less.
abbrev pub IsLessDown : ℕ → ℕ → Option (List TileItem) → Type 0
IsLessDown down n none = Unit
IsLessDown zero n (some xs) = ⊥
IsLessDown (suc down) n (some xs) = AreOrdered down xs × (suc (length xs) ≡ n)

behind-IsLessDown :
    (down : ℕ) (x : TileItem) (n : ℕ) (o : Option (List TileItem))
    → x.always_on_top ≡ false
    → IsLessDown down n o
    → IsLessDown (suc down) (suc n) (behind x o)
behind-IsLessDown down x n none low h = tt
behind-IsLessDown zero x n (some xs) low h = absurd h
behind-IsLessDown (suc down) x n (some xs) low h = ((low, h.0), ap suc h.1)

pub erase_down-IsLessDown :
    (down uid : ℕ) (xs : List TileItem)
    → AreOrdered down xs
    → IsLessDown down (length xs) (erase_down down uid xs)
unfolding erase_down
erase_down-IsLessDown zero uid xs h = tt
erase_down-IsLessDown (suc down) uid [] h = tt
erase_down-IsLessDown (suc down) uid (x ∷ xs) h =
    if_either (IsLessDown (suc down) (suc (length xs))) (x.uid == uid) (some xs) _ ((h.1, refl)) (
      behind-IsLessDown down x (length xs) (erase_down down uid xs) h.0
        (erase_down-IsLessDown down uid xs h.1))

pub set_count-AreOrdered :
    (down uid count : ℕ) (xs : List TileItem)
    → AreOrdered down xs
    → AreOrdered down (set_count down uid count xs)
      × (length (set_count down uid count xs) ≡ length xs)
unfolding set_count
set_count-AreOrdered zero uid count xs h = (h, refl)
set_count-AreOrdered (suc down) uid count [] h = (h, refl)
set_count-AreOrdered (suc down) uid count (x ∷ xs) h =
    let rest = set_count-AreOrdered down uid count xs h.1 in
    if_either (λ (ys : List TileItem). AreOrdered (suc down) ys × (length ys ≡ suc (length xs)))
      (x.uid == uid) (record x { item_count = count } ∷ xs) (x ∷ set_count down uid count xs)
      ((h, refl)) (((h.0, rest.0), ap suc rest.1))
