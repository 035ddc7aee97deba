-- ===== src/Thing/Container.antt =====
-- Container of src/container.h and src/container.cpp: items that hold items, and the weight that each
-- container keeps of what lies in it. A pointer is the `uid` of its item; a container is found by the
-- indices on the way to it, and the parents that updateItemWeight climbs are that way back. The
-- notifications to players and the count of pokemon, which is kept like the weight, are left out.
pub mod Query
pub mod Sums
pub mod Weight
pub mod Iterator
use rubyserver.Base.{
  ℕ, zero, suc, ◌+◌, ◌-◌, ◌*◌, ◌%◌, ◌^◌, Bool, true, false, not, ◌&&◌, List, [], ◌∷◌, ◌++◌, Option,
  none, some, ltb, ◌==◌, if◌then◌else◌, length,
}

-- What the source asks an Item. `base_weight` is getBaseWeight.
pub record Facts : Type 0 where
  pub uid : ℕ
  pub item_id : ℕ
  pub sub_type : ℕ
  pub item_count : ℕ
  pub max_count : ℕ
  pub stackable : Bool
  pub pickupable : Bool
  pub moveable : Bool
  pub base_weight : ℕ

-- An item, or a container with its cached weight, its room and its item list.
mutual
  pub data Item : Type 0 where
    leaf : Facts → Item
    box : Facts → ℕ → ℕ → Items → Item

  pub data Items : Type 0 where
    nil : Items
    cons : Item → Items → Items

abbrev pub facts : Item → Facts
facts (leaf f) = f
facts (box f capacity total items) = f

unfoldable pub add32 : ℕ → ℕ → ℕ
add32 a b = (a + b) % 2 ^ 32

-- A difference as the uint32_t that its int32_t becomes when it is added.
unfoldable pub diff32 : ℕ → ℕ → ℕ
diff32 new old = (new + (2 ^ 32 - old % 2 ^ 32)) % 2 ^ 32

-- Item::getWeight and Container::getWeight
unfoldable pub item_weight : Facts → ℕ
item_weight f =
    if f.stackable
    then (f.base_weight * (if ltb f.item_count 1 then 1 else f.item_count)) % 2 ^ 32
    else f.base_weight % 2 ^ 32

unfoldable pub get_weight : Item → ℕ
get_weight (leaf f) = item_weight f
get_weight (box f capacity total items) = add32 (item_weight f) total

unfoldable pub size : Items → ℕ
size nil = 0
size (cons it items) = suc (size items)

unfoldable pub push_back : Item → Items → Items
push_back new nil = cons new nil
push_back new (cons it items) = cons it (push_back new items)

unfoldable pub get_item_by_index : ℕ → Items → Option Item
get_item_by_index i nil = none
get_item_by_index zero (cons it items) = some it
get_item_by_index (suc i) (cons it items) = get_item_by_index i items

unfoldable pub set_at : ℕ → Item → Items → Items
set_at i new nil = nil
set_at zero new (cons it items) = cons new items
set_at (suc i) new (cons it items) = cons it (set_at i new items)

unfoldable pub erase_at : ℕ → Items → Items
erase_at i nil = nil
erase_at zero (cons it items) = items
erase_at (suc i) (cons it items) = cons it (erase_at i items)

-- Item::setID and setSubType, or setItemCount: the same item with other facts.
unfoldable pub set_facts : Facts → Item → Item
set_facts f (leaf g) = leaf f
set_facts f (box g capacity total items) = box f capacity total items

-- What is done to one container: its items after it, and the difference of their weights.
abbrev pub Change : Type 0
Change = ℕ → Items → Items × ℕ

-- addThing(index, thing): the new item comes first. An index past the capacity is refused.
unfoldable pub add_thing : ℕ → Item → Change
add_thing index new capacity items =
    if ltb index capacity then (cons new items, get_weight new) else (items, 0)

-- internalAddThing: whatever the capacity
unfoldable pub internal_add_thing : Item → Change
internal_add_thing new capacity items = (cons new items, get_weight new)

-- addItemBack
unfoldable pub add_item_back : Item → Change
add_item_back new capacity items = (push_back new items, get_weight new)

-- updateThing of the item at an index
unfoldable pub update_thing : ℕ → Facts → Change
update_thing index f capacity items = elim (get_item_by_index index items) [
  | none ↦ (items, 0)
  | some it ↦
      (set_at index (set_facts f it) items, diff32 (get_weight (set_facts f it)) (get_weight it))
]

-- replaceThing
unfoldable pub replace_thing : ℕ → Item → Change
replace_thing index new capacity items = elim (get_item_by_index index items) [
  | none ↦ (items, 0)
  | some it ↦ (set_at index new items, diff32 (get_weight new) (get_weight it))
]

-- removeThing of the item at an index: some of a stack, or the whole item.
unfoldable pub less : ℕ → Facts → Facts
less count f = record f { item_count = f.item_count - count }

unfoldable pub take_from : ℕ → ℕ → Item → Items → Items × ℕ
take_from index count it items =
    if (facts it).stackable && not (count == (facts it).item_count)
    then (
      set_at index (set_facts (less count (facts it)) it) items,
      diff32 (get_weight (set_facts (less count (facts it)) it)) (get_weight it),
    )
    else (erase_at index items, diff32 0 (get_weight it))

unfoldable pub remove_thing : ℕ → ℕ → Change
remove_thing index count capacity items = elim (get_item_by_index index items) [
  | none ↦ (items, 0)
  | some it ↦ take_from index count it items
]

-- One parent: its weight takes the difference of what it holds. The item list around a changed item.
unfoldable pub climb : Facts → ℕ → ℕ → Option (Items × ℕ) → Option (Item × ℕ)
climb f capacity total none = none
climb f capacity total (some (items, diff)) = some (box f capacity (add32 total diff) items, diff)

unfoldable pub first : Items → Option (Item × ℕ) → Option (Items × ℕ)
first items none = none
first items (some (it, diff)) = some (cons it items, diff)

unfoldable pub behind : Item → Option (Items × ℕ) → Option (Items × ℕ)
behind it none = none
behind it (some (items, diff)) = some (cons it items, diff)

-- A change of the container at the end of a way, and updateItemWeight from there to the top.
unfoldable mutual
  pub change_in : List ℕ → Change → Item → Option (Item × ℕ)
  change_in way change (leaf f) = none
  change_in [] change (box f capacity total items) =
      climb f capacity total (some (change capacity items))
  change_in (i ∷ way) change (box f capacity total items) =
      climb f capacity total (change_at i way change items)

  pub change_at : ℕ → List ℕ → Change → Items → Option (Items × ℕ)
  change_at i way change nil = none
  change_at zero way change (cons it items) = first items (change_in way change it)
  change_at (suc i) way change (cons it items) = behind it (change_at i way change items)
