-- ===== src/Thing/Container/Query.antt =====
-- The queries of src/container.cpp: whether a thing may be added or removed, how much of it, and where
-- it goes. The items are given by their facts, in order; `same` is Item::equals.
pub mod Room
use rubyserver.Base.{
  ℕ, zero, suc, ◌+◌, ◌-◌, ◌*◌, ◌%◌, ◌^◌, Bool, true, false, not, ◌&&◌, ◌||◌, List, [], ◌∷◌, Option,
  none, some, ltb, leb, ◌==◌, if◌then◌else◌, length, get_elem?,
}
use rubyserver.Thing.Container.{Facts}

-- The values of ReturnValue that a container answers.
pub data ReturnValue : Type 0 where
  no_error not_possible cannot_pickup this_is_impossible you_cannot_put_this_item
        container_not_enough_room not_moveable :
      ReturnValue

abbrev pub is_no_error : ReturnValue → Bool
is_no_error no_error = true
is_no_error _ = false

pub record Flags : Type 0 where
  pub no_limit : Bool
  pub child_is_owner : Bool
  pub ignore_not_moveable : Bool
  pub ignore_auto_stack : Bool

-- A cylinder above a container.
pub record Ancestor : Type 0 where
  pub uid : ℕ
  pub is_inbox : Bool

-- What the queries read of the container itself; `item_type` 0 is ITEM_TYPE_NONE.
pub record Container : Type 0 where
  pub uid : ℕ
  pub unlocked : Bool
  pub capacity : ℕ
  pub container_type : ℕ
  pub ancestors : List Ancestor
  pub item_list : List Facts

-- The loops over the parents in queryAdd.
unfoldable pub check_limited : ℕ → List Ancestor → ReturnValue
check_limited thing [] = no_error
check_limited thing (a ∷ as') =
    let rest = check_limited thing as' in
    if a.uid == thing
    then this_is_impossible
    else (if a.is_inbox then container_not_enough_room else rest)

unfoldable pub check_unlimited : ℕ → List Ancestor → ReturnValue
check_unlimited thing [] = no_error
check_unlimited thing (a ∷ as') =
    let rest = check_unlimited thing as' in if a.uid == thing then this_is_impossible else rest

abbrev pub or_else : ReturnValue → ReturnValue → ReturnValue
or_else no_error later = later
or_else early later = early

-- With a limit: the parents, then the room for an item that may lie anywhere.
unfoldable pub check_room : Bool → ReturnValue → Container → ReturnValue
check_room wherever top c =
    if wherever && leb c.capacity (length c.item_list) then container_not_enough_room else top

unfoldable pub check_parents : Bool → Flags → ℕ → ReturnValue → Container → ReturnValue
check_parents wherever flags thing top c =
    if not flags.no_limit
    then or_else (check_limited thing c.ancestors) (check_room wherever top c)
    else or_else (check_unlimited thing c.ancestors) top

-- queryAdd: `wherever` is the index INDEX_WHEREEVER, `item` is none for a thing that is no item, with
-- its item type beside it, and `top` is what the topmost parent answers, if it is another cylinder.
unfoldable pub query_item : Bool → Flags → Facts → ℕ → ReturnValue → Container → ReturnValue
query_item wherever flags item item_type top c =
    if not item.pickupable
    then cannot_pickup
    else (if item.uid == c.uid
        then this_is_impossible
        else (if not (c.container_type == 0) && not (c.container_type == item_type)
            then you_cannot_put_this_item
            else check_parents wherever flags item.uid top c))

unfoldable pub query_add : Bool → Flags → Option Facts → ℕ → ReturnValue → Container → ReturnValue
query_add wherever flags thing item_type top c =
    if flags.child_is_owner
    then no_error
    else (if not c.unlocked then not_possible else elim thing [
      | none ↦ not_possible
      | some item ↦ query_item wherever flags item item_type top c
    ])

-- What is left of a stack of the same kind; `accepts` is that queryAdd answers no error for the slot.
unfoldable pub is_partial : (Facts → Facts → Bool) → Facts → Facts → Bool
is_partial same item slot =
    not (slot.uid == item.uid) && (same slot item && ltb slot.item_count item.max_count)

unfoldable pub stack_room : (Facts → Facts → Bool) → (ℕ → ℕ → Bool) → Facts → ℕ → List Facts → ℕ
stack_room same accepts item slot_index [] = 0
stack_room same accepts item slot_index (slot ∷ slots) =
    let remainder = item.max_count - slot.item_count in
    let skipped = stack_room same accepts item slot_index slots in
    let counted = stack_room same accepts item (suc slot_index) slots in
    if is_partial same item slot
    then (if accepts slot_index remainder then remainder + counted else counted)
    else skipped

-- The room on the item at an index, for a stackable item.
unfoldable pub slot_room : (Facts → Facts → Bool) → (ℕ → ℕ → Bool) → Facts → ℕ → List Facts → ℕ
slot_room same accepts item index slots = elim (get_elem? slots index) [
  | none ↦ 0
  | some dest ↦
      if (same item dest && ltb dest.item_count item.max_count)
        && accepts index (item.max_count - dest.item_count)
      then item.max_count - dest.item_count
      else 0
]

unfoldable pub free_slots : Container → ℕ
free_slots c = c.capacity - length c.item_list

-- The index is none for INDEX_WHEREEVER.
unfoldable pub partial_room :
    (Facts → Facts → Bool) → (ℕ → ℕ → Bool) → Facts → Option ℕ → List Facts → ℕ
partial_room same accepts item none slots = stack_room same accepts item 0 slots
partial_room same accepts item (some index) slots = slot_room same accepts item index slots

unfoldable pub max_of_stack :
    (Facts → Facts → Bool) → (ℕ → ℕ → Bool) → Facts → Option ℕ → Container → ℕ
max_of_stack same accepts item index c =
    (free_slots c * item.max_count + partial_room same accepts item index c.item_list) % 2 ^ 32

-- queryMaxCount: the answer and maxQueryCount.
unfoldable pub query_max_count :
    (Facts → Facts → Bool)
    → (ℕ → ℕ → Bool)
    → Option ℕ
    → Option Facts
    → ℕ
    → Flags
    → Container
    → ReturnValue × ℕ
query_max_count same accepts index none count flags c = (not_possible, 0)
query_max_count same accepts index (some item) count flags c =
    if flags.no_limit
    then (no_error, if ltb count 1 then 1 else count)
    else (if item.stackable
        then (
          (if ltb (max_of_stack same accepts item index c) count
              then container_not_enough_room
              else no_error),
          max_of_stack same accepts item index c,
        )
        else ((if free_slots c == 0 then container_not_enough_room else no_error), free_slots c))

-- getThingIndex, for the pointer of a thing
unfoldable pub get_thing_index : ℕ → List Facts → Option ℕ
get_thing_index uid [] = none
get_thing_index uid (slot ∷ slots) =
    let rest = get_thing_index uid slots in
    if slot.uid == uid then some 0 else elim rest [ none ↦ none | some i ↦ some (suc i) ]

unfoldable pub query_remove_item : ℕ → Flags → Facts → ReturnValue
query_remove_item count flags item =
    if count == 0 || (item.stackable && ltb item.item_count count)
    then not_possible
    else (if not item.moveable && not flags.ignore_not_moveable then not_moveable else no_error)

-- queryRemove
unfoldable pub query_remove : ℕ → Flags → Facts → Container → ReturnValue
query_remove count flags item c = elim (get_thing_index item.uid c.item_list) [
  | none ↦ not_possible
  | some i ↦ query_remove_item count flags item
]

-- getItemTypeCount: `sub_type` is none for -1.
unfoldable pub count_by_type : Facts → Option ℕ → ℕ
count_by_type item none = item.item_count
count_by_type item (some sub_type) = if sub_type == item.sub_type then item.item_count else 0

unfoldable pub get_item_type_count : ℕ → Option ℕ → List Facts → ℕ
get_item_type_count item_id sub_type [] = 0
get_item_type_count item_id sub_type (slot ∷ slots) =
    let rest = get_item_type_count item_id sub_type slots in
    if slot.item_id == item_id then (count_by_type slot sub_type + rest) % 2 ^ 32 else rest

-- queryDestination: where a thing goes, and at what index.
pub data Destination : Type 0 where
  here : Option ℕ → Destination
  on_item : ℕ → Destination
  inside : ℕ → Destination
  parent : Destination

-- The first stack of the same kind with room.
unfoldable pub find_stack : (Facts → Facts → Bool) → Facts → ℕ → List Facts → Option ℕ
find_stack same item n [] = none
find_stack same item n (slot ∷ slots) =
    let rest = find_stack same item (suc n) slots in
    if is_partial same item slot then some n else rest

unfoldable pub auto_stack :
    (Facts → Facts → Bool) → Bool → Facts → Destination → Flags → Container → Destination
auto_stack same lies_here item otherwise flags c =
    if not flags.ignore_auto_stack && (item.stackable && not lies_here)
    then elim (find_stack same item 0 c.item_list) [ none ↦ otherwise | some n ↦ on_item n ]
    else otherwise

-- The item at an index: `holds` is that it is a cylinder itself.
unfoldable pub at_index :
    (Facts → Facts → Bool) → (Facts → Bool) → Bool → ℕ → Facts → Flags → Container → Destination
at_index same holds lies_here index item flags c = elim (get_elem? c.item_list index) [
  | none ↦ auto_stack same lies_here item (here (some index)) flags c
  | some slot ↦
      if holds slot then inside index else auto_stack same lies_here item (on_item index) flags c
]

-- The index is none for INDEX_WHEREEVER; 254 moves up, 255 is wherever. `lies_here` is that the parent
-- of the item is this container.
unfoldable pub query_destination :
    (Facts → Facts → Bool)
    → (Facts → Bool)
    → Bool
    → Bool
    → Option ℕ
    → Option Facts
    → Flags
    → Container
    → Destination
query_destination same holds lies_here has_parent index thing flags c =
    if not c.unlocked then here index else elim index [
      | none ↦ elim thing [
        | none ↦ here none
        | some item ↦ auto_stack same lies_here item (here none) flags c
      ]
      | some i ↦
          if i == 254
          then (if has_parent then parent else here none)
          else (if i == 255 || leb c.capacity i
              then elim thing [
                | none ↦ here none
                | some item ↦ auto_stack same lies_here item (here none) flags c
              ]
              else elim thing [
                | none ↦ here (some i)
                | some item ↦ at_index same holds lies_here i item flags c
              ])
    ]
