-- ===== src/Thing/Tile.antt =====
-- The things on a tile of src/tile.h and src/tile.cpp: the ground, the items and the creatures. A
-- pointer is the `uid` of its thing. TileItemVector is one vector, the first downItemCount of which are
-- the down items and the others the top items. Flags of the tile and what spectators are told are left
-- out.
pub mod Stack
pub mod Index
pub mod Changes
mod Tests
use rubyserver.Base.{
  ℕ, zero, suc, ◌+◌, ◌-◌, Bool, true, false, not, ◌&&◌, ◌||◌, List, [], ◌∷◌, ◌++◌, Option, none,
  some, ltb, leb, ◌==◌, if◌then◌else◌, length, get_elem?,
}

-- What the source asks an item and its ItemType. `field` is what getMagicField gives and whether that
-- field isReplaceable.
pub record TileItem : Type 0 where
  pub uid : ℕ
  pub item_id : ℕ
  pub always_on_top : Bool
  pub top_order : ℕ
  pub is_ground_tile : Bool
  pub is_splash : Bool
  pub is_magic_field : Bool
  pub field : Option Bool
  pub stackable : Bool
  pub item_count : ℕ

pub data Thing : Type 0 where
  item : TileItem → Thing
  creature : ℕ → Thing

pub record Tile : Type 0 where
  pub ground : Option TileItem
  pub items : List TileItem
  pub down_item_count : ℕ
  pub creatures : List ℕ

unfoldable pub top_item_count : Tile → ℕ
top_item_count t = length t.items - t.down_item_count

unfoldable pub ground_count : Option TileItem → ℕ
ground_count none = 0
ground_count (some g) = 1

-- getThingCount
unfoldable pub get_thing_count : Tile → ℕ
get_thing_count t = (length t.creatures + length t.items) + ground_count t.ground

-- The loops of getThingIndex. `n` is the index that the next thing has, one more than in the source.
unfoldable pub find_top : ℕ → ℕ → List TileItem → ℕ → Option ℕ
find_top skip uid [] n = none
find_top (suc skip) uid (x ∷ xs) n = find_top skip uid xs n
find_top zero uid (x ∷ xs) n =
    let rest = find_top zero uid xs (suc n) in if x.uid == uid then some n else rest

unfoldable pub find_down : ℕ → ℕ → List TileItem → ℕ → Option ℕ
find_down zero uid xs n = none
find_down (suc down) uid [] n = none
find_down (suc down) uid (x ∷ xs) n =
    let rest = find_down down uid xs (suc n) in if x.uid == uid then some n else rest

unfoldable pub find_creature : ℕ → List ℕ → ℕ → Option ℕ
find_creature uid [] n = none
find_creature uid (c ∷ cs) n =
    let rest = find_creature uid cs (suc n) in if c == uid then some n else rest

unfoldable pub is_at : Option TileItem → TileItem → Bool
is_at none it = false
is_at (some g) it = g.uid == it.uid

-- getThingIndex; -1 is none.
unfoldable pub get_thing_index : Thing → Tile → Option ℕ
get_thing_index (item it) t =
    let n = ground_count t.ground in
    if is_at t.ground it
    then some 0
    else (if it.always_on_top
        then find_top t.down_item_count it.uid t.items n
        else find_down t.down_item_count it.uid t.items (n + top_item_count t + length t.creatures))
get_thing_index (creature c) t =
    find_creature c t.creatures (ground_count t.ground + top_item_count t)

abbrev pub as_item : Option TileItem → Option Thing
as_item none = none
as_item (some it) = some (item it)

abbrev pub as_creature : Option ℕ → Option Thing
as_creature none = none
as_creature (some c) = some (creature c)

-- getThing: the creatures and down items, the top items before them, and the ground before all.
unfoldable pub get_below : ℕ → Tile → Option Thing
get_below index t =
    if ltb index (length t.creatures)
    then as_creature (get_elem? t.creatures index)
    else (let index' = index - length t.creatures in
        if ltb index' t.down_item_count then as_item (get_elem? t.items index') else none)

unfoldable pub get_above : ℕ → Tile → Option Thing
get_above index t =
    if ltb index (top_item_count t)
    then as_item (get_elem? t.items (t.down_item_count + index))
    else get_below (index - top_item_count t) t

unfoldable pub get_from : Option TileItem → ℕ → Tile → Option Thing
get_from none index t = get_above index t
get_from (some g) index t = if index == 0 then some (item g) else get_above (index - 1) t

unfoldable pub get_thing : ℕ → Tile → Option Thing
get_thing index t = get_from t.ground index t

-- getStackposOfItem: a loop finds the item, stops at the tenth thing, or passes all.
pub data Search : Type 0 where
  at_index : ℕ → Search
  out_of_sight : Search
  past : ℕ → Search

unfoldable pub search_top : ℕ → ℕ → List TileItem → ℕ → Search
search_top skip uid [] n = past n
search_top (suc skip) uid (x ∷ xs) n = search_top skip uid xs n
search_top zero uid (x ∷ xs) n =
    let rest = search_top zero uid xs (suc n) in
    if x.uid == uid then at_index n else (if suc n == 10 then out_of_sight else rest)

unfoldable pub count_seen : (ℕ → Bool) → List ℕ → ℕ → Search
count_seen sees [] n = past n
count_seen sees (c ∷ cs) n =
    let next = count_seen sees cs (suc n) in
    let same = count_seen sees cs n in
    if sees c then (if leb 10 (suc n) then out_of_sight else next) else same

unfoldable pub search_down : ℕ → ℕ → List TileItem → ℕ → Option ℕ
search_down zero uid xs n = none
search_down (suc down) uid [] n = none
search_down (suc down) uid (x ∷ xs) n =
    let rest = search_down down uid xs (suc n) in
    if x.uid == uid then some n else (if leb 10 (suc n) then none else rest)

-- `sees` is canSeeCreature of the player.
unfoldable pub after_top : Search → Option ℕ
after_top (at_index n) = some n
after_top out_of_sight = none
after_top (past n) = none

unfoldable pub after_creatures : Search → TileItem → Tile → Option ℕ
after_creatures (at_index n) it t = some n
after_creatures out_of_sight it t = none
after_creatures (past n) it t = search_down t.down_item_count it.uid t.items n

unfoldable pub get_stackpos_of_item : (ℕ → Bool) → TileItem → Tile → Option ℕ
get_stackpos_of_item sees it t =
    let n = ground_count t.ground in
    if is_at t.ground it
    then some 0
    else (if it.always_on_top
        then after_top (search_top t.down_item_count it.uid t.items n)
        else (let n' = n + top_item_count t in
            if leb 10 n' then none else after_creatures (count_seen sees t.creatures n') it t))
