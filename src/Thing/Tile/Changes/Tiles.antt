-- ===== src/Thing/Tile/Changes/Tiles.antt =====
-- The items of a tile through addThing, internalAddThing and removeThing.
use rubyserver.Base.{
  ℕ, zero, suc, ◌+◌, ◌-◌, ◌%◌, ◌^◌, ◌≤◌, ◌≡◌, subst, true, false, not, ◌&&◌, List, [], ◌∷◌, Option,
  none, some, leb, ◌==◌, length, arith, if_either, if_split,
}
use rubyserver.Thing.Tile.{TileItem, Thing, item, creature, Tile, is_at, get_thing_index}
use rubyserver.Thing.Tile.Changes.{
  erase_top, erase_down, remove_top, remove_down, remove_item, remove_found, remove_thing,
  find_splash, remove_splash, push_top, add_top, find_field, is_replaceable, push_down, add_field,
  add_down, add_thing, first_ground, internal_add_thing,
}
use rubyserver.Thing.Tile.Changes.Order.{
  IsLess, IsLessDown, erase_top-IsLess, erase_down-IsLessDown, set_count-AreOrdered,
  insert_top-AreOrdered, insert_top_last-AreOrdered, length-insert_top, AreOrdered,
}

-- Down items, then top items in order, and no more than that many.
abbrev pub IsUpTo : ℕ → Tile → Type 0
IsUpTo n t = AreOrdered t.down_item_count t.items × (length t.items ≤ n)

abbrev pub IsTile : Tile → Type 0
IsTile t = IsUpTo 1000 t

remove_top-IsUpTo :
    (n : ℕ) (o : Option (List TileItem)) (t : Tile)
    → IsUpTo n t
    → IsLess t.down_item_count (length t.items) o
    → IsUpTo n (remove_top o t)
unfolding remove_top
remove_top-IsUpTo n none t h k = h
remove_top-IsUpTo n (some xs) t h k = (k.0, omega (arith, k.1, h.1))

less_down :
    (down n : ℕ) (xs : List TileItem)
    → IsLessDown down n (some xs)
    → AreOrdered (down - 1) xs × (suc (length xs) ≡ n)
less_down zero n xs h = absurd h
less_down (suc down) n xs h = (subst (λ (d : ℕ). AreOrdered d xs) (omega arith) h.0, h.1)

remove_down-IsUpTo :
    (n : ℕ) (o : Option (List TileItem)) (t : Tile)
    → IsUpTo n t
    → IsLessDown t.down_item_count (length t.items) o
    → IsUpTo n (remove_down o t)
unfolding remove_down
remove_down-IsUpTo n none t h k = h
remove_down-IsUpTo n (some xs) t h k =
    let less = less_down t.down_item_count (length t.items) xs k in
    (less.0, omega (arith, less.1, h.1))

remove_item-IsUpTo :
    (n : ℕ) (it : TileItem) (count : ℕ) (t : Tile) → IsUpTo n t → IsUpTo n (remove_item it count t)
unfolding remove_item
remove_item-IsUpTo n it count t h =
    let counted =
      set_count-AreOrdered t.down_item_count it.uid (it.item_count - count) t.items h.0 in
    if_either (IsUpTo n) (is_at t.ground it) (record t { ground = none }) _ h
      (if_either (IsUpTo n) it.always_on_top
        (remove_top (erase_top t.down_item_count it.uid t.items) t) _
        (remove_top-IsUpTo n (erase_top t.down_item_count it.uid t.items) t h
          (erase_top-IsLess t.down_item_count it.uid t.items h.0))
        (if_either (IsUpTo n) (it.stackable && not (count == it.item_count)) _
          (remove_down (erase_down t.down_item_count it.uid t.items) t)
          ((counted.0, omega (arith, counted.1, h.1)))
          (remove_down-IsUpTo n (erase_down t.down_item_count it.uid t.items) t h
            (erase_down-IsLessDown t.down_item_count it.uid t.items h.0))))

remove_thing-IsUpTo :
    (n : ℕ) (th : Thing) (count : ℕ) (t : Tile) → IsUpTo n t → IsUpTo n (remove_thing th count t)
unfolding remove_thing
remove_thing-IsUpTo n (creature c) count t h = h
remove_thing-IsUpTo n (item it) count t h = found (get_thing_index (item it) t)
  where
    found : (o : Option ℕ) → IsUpTo n (remove_found o it count t)
    found none = unfold remove_found in h
    found (some i) = unfold remove_found in remove_item-IsUpTo n it count t h

remove_splash-IsUpTo :
    (n : ℕ) (o : Option TileItem) (t : Tile) → IsUpTo n t → IsUpTo n (remove_splash o t)
unfolding remove_splash
remove_splash-IsUpTo n none t h = h
remove_splash-IsUpTo n (some old) t h = remove_thing-IsUpTo n (item old) 1 t h

push_top-IsTile :
    (it : TileItem) (t : Tile) → it.always_on_top ≡ true → IsUpTo 999 t → IsTile (push_top it t)
unfolding push_top
push_top-IsTile it t top h = (
  insert_top-AreOrdered t.down_item_count it t.items top h.0,
  omega (arith, h.1, (length-insert_top t.down_item_count it t.items).0),
)

add_top-IsTile :
    (it : TileItem) (t : Tile) → it.always_on_top ≡ true → IsUpTo 999 t → IsTile (add_top it t)
unfolding add_top
add_top-IsTile it t top h = push_top-IsTile it _ top (
    if_either (IsUpTo 999) it.is_splash (remove_splash (find_splash t.down_item_count t.items) t) t
      (remove_splash-IsUpTo 999 (find_splash t.down_item_count t.items) t h) h)

-- There are no more down items than items, so their count does not wrap.
AreOrdered-le : (down : ℕ) (xs : List TileItem) → AreOrdered down xs → down ≤ length xs
AreOrdered-le zero xs h = omega arith
AreOrdered-le (suc down) [] h = absurd h
AreOrdered-le (suc down) (x ∷ xs) h = omega (arith, AreOrdered-le down xs h.1)

push_down-IsTile :
    (it : TileItem) (t : Tile) → it.always_on_top ≡ false → IsUpTo 999 t → IsTile (push_down it t)
unfolding push_down
push_down-IsTile it t low h =
    let one_more : suc t.down_item_count ≡ (t.down_item_count + 1) % 2 ^ 16 =
      omega (arith, AreOrdered-le t.down_item_count t.items h.0, h.1) in
    (subst (λ (d : ℕ). AreOrdered d (it ∷ t.items)) one_more ((low, h.0)), omega (arith, h.1))

weaker : (t : Tile) → IsUpTo 999 t → IsTile t
weaker t h = (h.0, omega (arith, h.1))

add_field-IsTile :
    (o : Option TileItem) (it : TileItem) (t : Tile)
    → it.always_on_top ≡ false
    → IsUpTo 999 t
    → IsTile (add_field o it t)
unfolding add_field
add_field-IsTile none it t low h = push_down-IsTile it t low h
add_field-IsTile (some old) it t low h =
    if_either IsTile (is_replaceable old) _ t
      (push_down-IsTile it (remove_thing (item old) 1 t) low
        (remove_thing-IsUpTo 999 (item old) 1 t h))
      (weaker t h)

add_down-IsTile :
    (it : TileItem) (t : Tile) → it.always_on_top ≡ false → IsUpTo 999 t → IsTile (add_down it t)
unfolding add_down
add_down-IsTile it t low h =
    if_either IsTile it.is_magic_field _ _
      (add_field-IsTile (find_field t.down_item_count t.items) it t low h)
      (push_down-IsTile it t low h)

add_thing-IsTile : (th : Thing) (t : Tile) → IsTile t → IsTile (add_thing th t)
unfolding add_thing
add_thing-IsTile (creature c) t h = h
add_thing-IsTile (item it) t h =
    if_split IsTile (leb 1000 (length t.items)) t _ (λ e. h)
      (λ e.
        if_either IsTile it.is_ground_tile (record t { ground = some it }) _ h
          (if_split IsTile it.always_on_top (add_top it t) (add_down it t)
            (λ top. add_top-IsTile it t top ((h.0, ground (arith, e))))
            (λ low. add_down-IsTile it t low ((h.0, ground (arith, e))))))

internal_add_thing-IsTile : (th : Thing) (t : Tile) → IsTile t → IsTile (internal_add_thing th t)
unfolding internal_add_thing
internal_add_thing-IsTile (creature c) t h = h
internal_add_thing-IsTile (item it) t h =
    if_either IsTile it.is_ground_tile (record t { ground = first_ground t.ground it }) _ h
      (if_split IsTile (leb 1000 (length t.items)) t _ (λ e. h)
        (λ e.
          if_split IsTile it.always_on_top _ (push_down it t)
            (λ top. (
              insert_top_last-AreOrdered t.down_item_count it t.items top h.0,
              ground (arith, e, (length-insert_top t.down_item_count it t.items).1),
            ))
            (λ low. push_down-IsTile it t low ((h.0, ground (arith, e))))))

-- What happens to a tile.
pub data Change : Type 0 where
  add : Thing → Change
  internal_add : Thing → Change
  remove : Thing → ℕ → Change

unfoldable pub change : Change → Tile → Tile
change (add th) t = add_thing th t
change (internal_add th) t = internal_add_thing th t
change (remove th count) t = remove_thing th count t

unfoldable pub run : List Change → Tile → Tile
run [] t = t
run (c ∷ cs) t = run cs (change c t)

-- Through any sequence of things that are added and removed, the first downItemCount items of a tile
-- are down items and the others top items in the order of alwaysOnTopOrder, there are never more than
-- 1000, and so the 16 bits of the count are enough; if it was so at first, as on an empty tile.
pub run-IsTile : (cs : List Change) (t : Tile) → IsTile t → IsTile (run cs t)
unfolding run change
run-IsTile [] t h = h
run-IsTile (add th ∷ cs) t h = run-IsTile cs (add_thing th t) (add_thing-IsTile th t h)
run-IsTile (internal_add th ∷ cs) t h =
    run-IsTile cs (internal_add_thing th t) (internal_add_thing-IsTile th t h)
run-IsTile (remove th count ∷ cs) t h =
    run-IsTile cs (remove_thing th count t) (remove_thing-IsUpTo 1000 th count t h)
