-- ===== src/Thing/Container/Iterator.antt =====
-- ContainerIterator of src/container.cpp: the items of a container and of those in it, breadth first.
pub mod Visits
use rubyserver.Base.{
  ℕ, zero, suc, ◌+◌, Bool, true, false, ◌||◌, List, [], ◌∷◌, ◌++◌, Option, none, some, ◌==◌,
  if◌then◌else◌, length,
}
use rubyserver.Thing.Container.{Facts, Item, leaf, box, Items, nil, cons, facts}

-- `over`, the front with only what cur has not passed yet.
abbrev pub Over : Type 0
Over = List Items

-- A container that is not empty is put behind the others.
unfoldable pub push_container : Items → Over → Over
push_container nil over = over
push_container (cons it items) over = over ++ (cons it items ∷ [])

unfoldable pub open_item : Item → Over → Over
open_item (leaf f) over = over
open_item (box f capacity total items) over = push_container items over

-- Back to the front: it is popped once cur is at its end.
unfoldable pub keep_front : Items → Over → Over
keep_front nil over = over
keep_front (cons it items) over = cons it items ∷ over

-- Container::iterator
unfoldable pub iterator : Items → Over
iterator items = push_container items []

-- The loop over an iterator: what * gives in turn. `none` is where the fuel ran out.
unfoldable pub visit : ℕ → Over → Option (List Item)
visit fuel [] = some []
visit zero (items ∷ over) = none
visit (suc fuel) (nil ∷ over) = visit fuel over
visit (suc fuel) (cons it rest ∷ over) =
    let later = visit fuel (keep_front rest (open_item it over)) in
    elim later [ none ↦ none | some its ↦ some (it ∷ its) ]

-- getItemHoldingCount and isHoldingItem
unfoldable pub get_item_holding_count : ℕ → Items → Option ℕ
get_item_holding_count fuel items = elim (visit fuel (iterator items)) [
  | none ↦ none
  | some its ↦ some (length its)
]

unfoldable pub any_uid : ℕ → List Item → Bool
any_uid uid [] = false
any_uid uid (it ∷ its) = (facts it).uid == uid || any_uid uid its

unfoldable pub is_holding_item : ℕ → ℕ → Items → Option Bool
is_holding_item fuel uid items = elim (visit fuel (iterator items)) [
  | none ↦ none
  | some its ↦ some (any_uid uid its)
]
