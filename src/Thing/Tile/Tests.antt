-- ===== src/Thing/Tile/Tests.antt =====
-- The theorems on tiles at a concrete tile, and runs of the code.
use rubyserver.Base.{ℕ, ◌+◌, ◌<◌, ◌≡◌, refl, true, false, List, [], ◌∷◌, none, some, arith}
use rubyserver.Thing.Tile.{
  TileItem, item, Tile, ground_count, top_item_count, find_top, find_down, is_at, get_thing_index,
  get_thing, get_thing_count, get_stackpos_of_item,
}
use rubyserver.Thing.Tile.Stack.{everyone, in_sight, get_stackpos_of_item-get_thing_index}
use rubyserver.Thing.Tile.Index.{IsSame, get_thing-get_thing_index}
use rubyserver.Thing.Tile.Changes.{
  add_thing, add_top, add_down, push_top, push_down, insert_top, remove_splash, remove_thing,
  remove_found, remove_item, remove_top, find_splash, erase_top,
}
use rubyserver.Thing.Tile.Changes.Tiles.{IsTile, Change, add, change, run, run-IsTile}

abbrev plain : ℕ → TileItem
plain uid = record {
  uid = uid;
  item_id = 100 + uid;
  always_on_top = false;
  top_order = 0;
  is_ground_tile = false;
  is_splash = false;
  is_magic_field = false;
  field = none;
  stackable = false;
  item_count = 1;
}

abbrev border : TileItem
border = record (plain 2) { always_on_top = true; top_order = 1 }

abbrev door : TileItem
door = record (plain 3) { always_on_top = true; top_order = 3 }

abbrev splash : ℕ → TileItem
splash uid = record (plain uid) { always_on_top = true; top_order = 2; is_splash = true }

abbrev room : Tile
room = record {
  ground = some (record (plain 1) { is_ground_tile = true });
  items = plain 9 ∷ plain 8 ∷ border ∷ door ∷ [];
  down_item_count = 2;
  creatures = 20 ∷ 21 ∷ [];
}

room-IsTile : IsTile room
room-IsTile = ((refl, (refl, (refl, (omega arith, (refl, (tt, tt)))))), omega arith)

-- A second splash takes the place of the first, between the border and the door.
abbrev spills : List Change
spills = add (item (splash 4)) ∷ add (item (splash 5)) ∷ add (item (plain 6)) ∷ []

run-IsTile_example : IsTile (run spills room)
run-IsTile_example = run-IsTile spills room room-IsTile

plain_eight : get_thing_index (item (plain 8)) room ≡ some 6
unfolding get_thing_index ground_count top_item_count find_down is_at
plain_eight = refl

get_thing-get_thing_index_example :
    IsSame (item (plain 8)) (get_thing 6 room) × (6 < get_thing_count room)
get_thing-get_thing_index_example =
    get_thing-get_thing_index (item (plain 8)) 6 room (omega arith) plain_eight

get_stackpos_of_item-get_thing_index_example :
    get_stackpos_of_item everyone (plain 8) room ≡ in_sight (get_thing_index (item (plain 8)) room)
get_stackpos_of_item-get_thing_index_example = get_stackpos_of_item-get_thing_index (plain 8) room

two_spills : (run spills room).items ≡ plain 6 ∷ plain 9 ∷ plain 8 ∷ border ∷ splash 5 ∷ door ∷ []
unfolding run change add_thing add_top add_down push_top push_down insert_top remove_splash
    remove_thing remove_found remove_item remove_top find_splash erase_top get_thing_index find_top
    is_at ground_count
two_spills = refl
