-- ===== src/Thing/Tests.antt =====
-- The theorems on containers at concrete items, and runs of the code.
use rubyserver.Base.{
  ℕ, ◌+◌, ◌-◌, ◌^◌, ◌*◌, ◌≤◌, ◌≡◌, refl, Bool, true, false, [], ◌∷◌, some, none, arith, ◌↔◌,
  if◌then◌else◌, ◌==◌,
}
use rubyserver.Thing.Container.{
  Facts, Item, leaf, box, Items, nil, cons, facts, change_in, change_at, remove_thing, take_from,
  less, get_item_by_index, set_at, set_facts, diff32, climb, first, get_weight, item_weight, add32,
}
use rubyserver.Thing.Container.Sums.{sum_weights, IsWeighed, whole_weight}
use rubyserver.Thing.Container.Weight.{op_change, remove, change_in-IsWeighed}
use rubyserver.Thing.Container.Iterator.{
  get_item_holding_count, is_holding_item, iterator, visit, push_container, open_item, keep_front,
  any_uid,
}
use rubyserver.Thing.Container.Iterator.Visits.{any_item, count_items, get_item_holding_count-count}
use rubyserver.Thing.Container.Query.{Container, Flags, no_error, query_max_count}
use rubyserver.Thing.Container.Query.Room.{held, query_max_count-room}

abbrev thing : ℕ → ℕ → ℕ → Facts
thing uid weight count = record {
  uid = uid;
  item_id = 2148;
  sub_type = count;
  item_count = count;
  max_count = 100;
  stackable = true;
  pickupable = true;
  moveable = true;
  base_weight = weight;
}

abbrev bag : Facts
bag = record (thing 1 80 1) { stackable = false }

-- Ten coins in a bag that lies in another one.
abbrev inner : Item
inner = box bag 8 100 (cons (leaf (thing 2 10 10)) nil)

abbrev outer : Item
outer = box (record bag { uid = 3 }) 8 180 (cons inner nil)

outer-IsWeighed : IsWeighed outer
outer-IsWeighed =
    unfold IsWeighed sum_weights get_weight item_weight add32 in (refl, ((refl, (tt, tt)), tt))

-- Four of the coins are taken away: both bags weigh 40 less.
abbrev inner_after : Item
inner_after = box bag 8 60 (cons (leaf (record (thing 2 10 10) { item_count = 6 })) nil)

abbrev outer_after : Item
outer_after = box (record bag { uid = 3 }) 8 140 (cons inner_after nil)

take_four : change_in (0 ∷ []) (op_change (remove 0 4)) outer ≡ some (outer_after, 2 ^ 32 - 40)
unfolding change_in change_at op_change remove_thing take_from less get_item_by_index set_at
    set_facts get_weight item_weight diff32 add32 climb first
take_four = refl

change_in-IsWeighed_example :
    IsWeighed outer_after × (get_weight outer_after ≡ whole_weight outer_after)
change_in-IsWeighed_example =
    change_in-IsWeighed (0 ∷ []) (remove 0 4) outer outer_after (2 ^ 32 - 40) tt outer-IsWeighed
      take_four

abbrev two_items : Items
two_items = cons inner nil

get_item_holding_count-count_example :
    (get_item_holding_count 2 two_items ≡ some (count_items any_item two_items))
    × (is_holding_item 2 2 two_items
        ≡ some (if count_items (λ it. (facts it).uid == 2) two_items == 0 then false else true))
get_item_holding_count-count_example =
    get_item_holding_count-count 2 2 two_items (unfold count_items in omega arith)

holding_two : is_holding_item 2 2 two_items ≡ some true
unfolding is_holding_item visit iterator push_container open_item keep_front any_uid
holding_two = refl

abbrev chest : Container
chest = record {
  uid = 4;
  unlocked = true;
  capacity = 4;
  container_type = 1987;
  ancestors = [];
  item_list = thing 5 10 70 ∷ bag ∷ [];
}

abbrev usual : Flags
usual = record {
  no_limit = false;
  child_is_owner = false;
  ignore_not_moveable = false;
  ignore_auto_stack = false;
}

abbrev same_id : Facts → Facts → Bool
same_id f g = f.item_id == g.item_id

abbrev any_slot : ℕ → ℕ → Bool
any_slot index count = true

query_max_count-room_example :
    ((query_max_count same_id any_slot none (some (thing 6 10 90)) 90 usual chest).1
        + held same_id (thing 6 10 90) chest.item_list
      ≤ 4 * 100)
    × (((query_max_count same_id any_slot none (some (thing 6 10 90)) 90 usual chest).0 ≡ no_error)
        ↔ (90 ≤ (query_max_count same_id any_slot none (some (thing 6 10 90)) 90 usual chest).1))
query_max_count-room_example =
    query_max_count-room same_id any_slot (thing 6 10 90) 90 usual chest refl refl (omega arith)
