-- ===== src/Thing/Tile/Changes.antt =====
-- addThing, internalAddThing and removeThing of src/tile.cpp.
pub mod Order
pub mod Tiles
use rubyserver.Base.{
  ℕ, zero, suc, ◌+◌, ◌-◌, ◌%◌, ◌^◌, Bool, true, false, not, ◌&&◌, ◌||◌, List, [], ◌∷◌, Option, none,
  some, ltb, leb, ◌==◌, if◌then◌else◌, length,
}
use rubyserver.Thing.Tile.{TileItem, Thing, item, creature, Tile, is_at, get_thing_index}

-- items->insert of a top item: behind the down items, before the first item that stands as high or
-- higher, and for internalAddThing before the first that stands higher.
unfoldable pub insert_top : ℕ → TileItem → List TileItem → List TileItem
insert_top skip it [] = it ∷ []
insert_top (suc skip) it (x ∷ xs) = x ∷ insert_top skip it xs
insert_top zero it (x ∷ xs) =
    let rest = insert_top zero it xs in
    if leb it.top_order x.top_order then it ∷ x ∷ xs else x ∷ rest

unfoldable pub insert_top_last : ℕ → TileItem → List TileItem → List TileItem
insert_top_last skip it [] = it ∷ []
insert_top_last (suc skip) it (x ∷ xs) = x ∷ insert_top_last skip it xs
insert_top_last zero it (x ∷ xs) =
    let rest = insert_top_last zero it xs in
    if ltb it.top_order x.top_order then it ∷ x ∷ xs else x ∷ rest

abbrev pub behind : TileItem → Option (List TileItem) → Option (List TileItem)
behind x none = none
behind x (some xs) = some (x ∷ xs)

-- std::find in the top or the down items, and the erase of what it finds.
unfoldable pub erase_top : ℕ → ℕ → List TileItem → Option (List TileItem)
erase_top skip uid [] = none
erase_top (suc skip) uid (x ∷ xs) = behind x (erase_top skip uid xs)
erase_top zero uid (x ∷ xs) =
    let rest = behind x (erase_top zero uid xs) in if x.uid == uid then some xs else rest

unfoldable pub erase_down : ℕ → ℕ → List TileItem → Option (List TileItem)
erase_down zero uid xs = none
erase_down (suc down) uid [] = none
erase_down (suc down) uid (x ∷ xs) =
    let rest = behind x (erase_down down uid xs) in if x.uid == uid then some xs else rest

-- setItemCount of the item that std::find finds in the down items.
unfoldable pub set_count : ℕ → ℕ → ℕ → List TileItem → List TileItem
set_count zero uid count xs = xs
set_count (suc down) uid count [] = []
set_count (suc down) uid count (x ∷ xs) =
    let rest = set_count down uid count xs in
    if x.uid == uid then record x { item_count = count } ∷ xs else x ∷ rest

unfoldable pub remove_top : Option (List TileItem) → Tile → Tile
remove_top none t = t
remove_top (some xs) t = record t { items = xs }

unfoldable pub remove_down : Option (List TileItem) → Tile → Tile
remove_down none t = t
remove_down (some xs) t = record t { items = xs; down_item_count = t.down_item_count - 1 }

-- removeThing of an item that getThingIndex finds.
unfoldable pub remove_item : TileItem → ℕ → Tile → Tile
remove_item it count t =
    if is_at t.ground it
    then record t { ground = none }
    else (if it.always_on_top
        then remove_top (erase_top t.down_item_count it.uid t.items) t
        else (if it.stackable && not (count == it.item_count)
            then record t {
              items = set_count t.down_item_count it.uid (it.item_count - count) t.items;
            }
            else remove_down (erase_down t.down_item_count it.uid t.items) t))

unfoldable pub remove_creature : ℕ → List ℕ → List ℕ
remove_creature c [] = []
remove_creature c (d ∷ ds) = let rest = remove_creature c ds in if d == c then ds else d ∷ rest

unfoldable pub remove_found : Option ℕ → TileItem → ℕ → Tile → Tile
remove_found none it count t = t
remove_found (some index) it count t = remove_item it count t

unfoldable pub remove_thing : Thing → ℕ → Tile → Tile
remove_thing (creature c) count t = record t { creatures = remove_creature c t.creatures }
remove_thing (item it) count t = remove_found (get_thing_index (item it) t) it count t

-- addThing of a top item: an old splash makes way for a new one.
unfoldable pub find_splash : ℕ → List TileItem → Option TileItem
find_splash skip [] = none
find_splash (suc skip) (x ∷ xs) = find_splash skip xs
find_splash zero (x ∷ xs) = let rest = find_splash zero xs in if x.is_splash then some x else rest

unfoldable pub remove_splash : Option TileItem → Tile → Tile
remove_splash none t = t
remove_splash (some old) t = remove_thing (item old) 1 t

unfoldable pub push_top : TileItem → Tile → Tile
push_top it t = record t { items = insert_top t.down_item_count it t.items }

unfoldable pub add_top : TileItem → Tile → Tile
add_top it t =
    push_top it
      (if it.is_splash then remove_splash (find_splash t.down_item_count t.items) t else t)

-- addThing of a down item: an old field makes way for a new one, or the new one is dropped.
unfoldable pub find_field : ℕ → List TileItem → Option TileItem
find_field zero xs = none
find_field (suc down) [] = none
find_field (suc down) (x ∷ xs) =
    let rest = find_field down xs in elim x.field [ none ↦ rest | some replaceable ↦ some x ]

abbrev pub is_replaceable : TileItem → Bool
is_replaceable x = elim x.field [ none ↦ false | some replaceable ↦ replaceable ]

unfoldable pub push_down : TileItem → Tile → Tile
push_down it t = record t {
  items = it ∷ t.items;
  down_item_count = (t.down_item_count + 1) % 2 ^ 16;
}

unfoldable pub add_field : Option TileItem → TileItem → Tile → Tile
add_field none it t = push_down it t
add_field (some old) it t =
    if is_replaceable old then push_down it (remove_thing (item old) 1 t) else t

unfoldable pub add_down : TileItem → Tile → Tile
add_down it t =
    if it.is_magic_field
    then add_field (find_field t.down_item_count t.items) it t
    else push_down it t

unfoldable pub add_thing : Thing → Tile → Tile
add_thing (creature c) t = record t { creatures = c ∷ t.creatures }
add_thing (item it) t =
    if leb 1000 (length t.items)
    then t
    else (if it.is_ground_tile
        then record t { ground = some it }
        else (if it.always_on_top then add_top it t else add_down it t))

-- internalAddThing
unfoldable pub first_ground : Option TileItem → TileItem → Option TileItem
first_ground none it = some it
first_ground (some g) it = some g

unfoldable pub internal_add_thing : Thing → Tile → Tile
internal_add_thing (creature c) t = record t { creatures = c ∷ t.creatures }
internal_add_thing (item it) t =
    if it.is_ground_tile
    then record t { ground = first_ground t.ground it }
    else (if leb 1000 (length t.items)
        then t
        else (if it.always_on_top
            then record t { items = insert_top_last t.down_item_count it t.items }
            else push_down it t))
