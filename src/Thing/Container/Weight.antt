-- ===== src/Thing/Container/Weight.antt =====
-- The weight that a container keeps is the weight of what lies in it.
use rubyserver.Base.{
  ℕ, zero, suc, ◌≡◌, sym, subst, not, ◌&&◌, List, [], ◌∷◌, Option, none, some, ltb, ◌==◌, arith,
  Option-cases, inl, inr, if_either,
}
use rubyserver.Thing.Container.{
  Facts, Item, leaf, box, Items, nil, cons, facts, add32, diff32, get_weight, get_item_by_index,
  set_at, set_facts, Change, add_thing, internal_add_thing, add_item_back, update_thing,
  replace_thing, less, take_from, remove_thing, change_in, change_at, climb, first, behind,
}
use rubyserver.Thing.Container.Sums.{
  sum_weights, IsWeighed, AreWeighed, whole_weight, whole_weight-eq, IsBalanced, get_weight-lt,
  sum_weights-lt, add32_zero, push_back-sum, set_at-sum, erase_at-sum, push_back-AreWeighed,
  set_at-AreWeighed, erase_at-AreWeighed, get_item_by_index-IsWeighed, set_facts-IsWeighed,
}

-- Each of the container's operations is balanced.
abbrev pub IsBalancing : Change → Type 0
IsBalancing change =
    (capacity : ℕ) (items : Items) → AreWeighed items → IsBalanced items (change capacity items)

nothing-IsBalanced : (items : Items) → AreWeighed items → IsBalanced items (items, 0)
nothing-IsBalanced items k = (k, add32_zero items)

pub add_thing-IsBalancing :
    (index : ℕ) (new : Item) → IsWeighed new → IsBalancing (add_thing index new)
unfolding add_thing
add_thing-IsBalancing index new h capacity items k =
    if_either (IsBalanced items) (ltb index capacity) (cons new items, get_weight new) (items, 0)
      (
        (unfold IsWeighed in (h, k)),
        (unfold sum_weights add32 in omega (arith, get_weight-lt new, sum_weights-lt items)),
      )
      (nothing-IsBalanced items k)

internal_add_thing-IsBalancing : (new : Item) → IsWeighed new → IsBalancing (internal_add_thing new)
unfolding internal_add_thing
internal_add_thing-IsBalancing new h capacity items k = (
  (unfold IsWeighed in (h, k)),
  (unfold sum_weights add32 in omega (arith, get_weight-lt new, sum_weights-lt items)),
)

pub add_item_back-IsBalancing : (new : Item) → IsWeighed new → IsBalancing (add_item_back new)
unfolding add_item_back
add_item_back-IsBalancing new h capacity items k =
    (push_back-AreWeighed new items h k, push_back-sum new items)

set_at-IsBalanced :
    (i : ℕ) (new it : Item) (items : Items)
    → IsWeighed new
    → AreWeighed items
    → get_item_by_index i items ≡ some it
    → IsBalanced items (set_at i new items, diff32 (get_weight new) (get_weight it))
set_at-IsBalanced i new it items h k e =
    (set_at-AreWeighed i new items h k, set_at-sum i new it items e)

pub update_thing-IsBalancing : (index : ℕ) (f : Facts) → IsBalancing (update_thing index f)
unfolding update_thing
update_thing-IsBalancing index f capacity items k =
    elim (Option-cases (get_item_by_index index items)) [
      | inl e ↦ rw (e, update_thing) (nothing-IsBalanced items k)
      | inr (it, e) ↦
          rw (e, update_thing)
            (set_at-IsBalanced index (set_facts f it) it items
              (set_facts-IsWeighed f it (get_item_by_index-IsWeighed index it items k e)) k e)
    ]

pub replace_thing-IsBalancing :
    (index : ℕ) (new : Item) → IsWeighed new → IsBalancing (replace_thing index new)
unfolding replace_thing
replace_thing-IsBalancing index new h capacity items k =
    elim (Option-cases (get_item_by_index index items)) [
      | inl e ↦ rw (e, replace_thing) (nothing-IsBalanced items k)
      | inr (it, e) ↦ rw (e, replace_thing) (set_at-IsBalanced index new it items h k e)
    ]

take_from-IsBalanced :
    (index count : ℕ) (it : Item) (items : Items)
    → AreWeighed items
    → get_item_by_index index items ≡ some it
    → IsBalanced items (take_from index count it items)
unfolding take_from
take_from-IsBalanced index count it items k e =
    if_either (IsBalanced items) ((facts it).stackable && not (count == (facts it).item_count)) _ _
      (set_at-IsBalanced index (set_facts (less count (facts it)) it) it items
        (set_facts-IsWeighed (less count (facts it)) it
          (get_item_by_index-IsWeighed index it items k e))
        k e)
      (erase_at-AreWeighed index items k, erase_at-sum index it items e)

pub remove_thing-IsBalancing : (index count : ℕ) → IsBalancing (remove_thing index count)
unfolding remove_thing
remove_thing-IsBalancing index count capacity items k =
    elim (Option-cases (get_item_by_index index items)) [
      | inl e ↦ rw (e, remove_thing) (nothing-IsBalanced items k)
      | inr (it, e) ↦ rw (e, remove_thing) (take_from-IsBalanced index count it items k e)
    ]

-- What a change gives for an item, and for the items that one of its ways passes.
IsChanged : Item → Option (Item × ℕ) → Type 0
IsChanged it none = Unit
IsChanged it (some (it', diff)) = IsWeighed it' × (get_weight it' ≡ add32 (get_weight it) diff)

AreChanged : Items → Option (Items × ℕ) → Type 0
AreChanged items none = Unit
AreChanged items (some r) = IsBalanced items r

climb-IsChanged :
    (f : Facts) (capacity total : ℕ) (items : Items) (r : Option (Items × ℕ))
    → total ≡ sum_weights items
    → AreChanged items r
    → IsChanged (box f capacity total items) (climb f capacity total r)
unfolding IsChanged AreChanged climb IsWeighed get_weight add32
climb-IsChanged f capacity total items none e h = tt
climb-IsChanged f capacity total items (some (items', diff)) e h =
    ((omega (arith, e, h.1), h.0), omega arith)

first-AreChanged :
    (it : Item) (items : Items) (r : Option (Item × ℕ))
    → AreWeighed items
    → IsChanged it r
    → AreChanged (cons it items) (first items r)
unfolding IsChanged AreChanged first IsWeighed sum_weights add32
first-AreChanged it items none k h = tt
first-AreChanged it items (some (it', diff)) k h = ((h.0, k), omega (arith, h.1))

behind-AreChanged :
    (it : Item) (items : Items) (r : Option (Items × ℕ))
    → IsWeighed it
    → AreChanged items r
    → AreChanged (cons it items) (behind it r)
unfolding AreChanged behind IsWeighed sum_weights add32
behind-AreChanged it items none k h = tt
behind-AreChanged it items (some (items', diff)) k h = ((k, h.0), omega (arith, h.1))

mutual
  unfolding change_in IsWeighed IsChanged AreChanged

  change_in-IsChanged :
      (way : List ℕ) (change : Change) (it : Item)
      → IsBalancing change
      → IsWeighed it
      → IsChanged it (change_in way change it)
  change_in-IsChanged way change (leaf f) b h = tt
  change_in-IsChanged [] change (box f capacity total items) b h =
      climb-IsChanged f capacity total items (some (change capacity items)) h.0
        (b capacity items h.1)
  change_in-IsChanged (i ∷ way) change (box f capacity total items) b h =
      climb-IsChanged f capacity total items (change_at i way change items) h.0
        (change_at-AreChanged i way change items b h.1)

  change_at-AreChanged :
      (i : ℕ) (way : List ℕ) (change : Change) (items : Items)
      → IsBalancing change
      → AreWeighed items
      → AreChanged items (change_at i way change items)
  change_at-AreChanged i way change nil b h = tt
  change_at-AreChanged zero way change (cons it items) b h =
      first-AreChanged it items (change_in way change it) h.1
        (change_in-IsChanged way change it b h.0)
  change_at-AreChanged (suc i) way change (cons it items) b h =
      behind-AreChanged it items (change_at i way change items) h.0
        (change_at-AreChanged i way change items b h.1)

-- The operations on a container.
pub data Op : Type 0 where
  add_front : ℕ → Item → Op
  internal_add : Item → Op
  add_back : Item → Op
  update : ℕ → Facts → Op
  replace : ℕ → Item → Op
  remove : ℕ → ℕ → Op

unfoldable pub op_change : Op → Change
op_change (add_front index new) = add_thing index new
op_change (internal_add new) = internal_add_thing new
op_change (add_back new) = add_item_back new
op_change (update index f) = update_thing index f
op_change (replace index new) = replace_thing index new
op_change (remove index count) = remove_thing index count

abbrev pub IsOp : Op → Type 0
IsOp (add_front index new) = IsWeighed new
IsOp (internal_add new) = IsWeighed new
IsOp (add_back new) = IsWeighed new
IsOp (update index f) = Unit
IsOp (replace index new) = IsWeighed new
IsOp (remove index count) = Unit

op_change-IsBalancing : (op : Op) → IsOp op → IsBalancing (op_change op)
unfolding op_change
op_change-IsBalancing (add_front index new) h = add_thing-IsBalancing index new h
op_change-IsBalancing (internal_add new) h = internal_add_thing-IsBalancing new h
op_change-IsBalancing (add_back new) h = add_item_back-IsBalancing new h
op_change-IsBalancing (update index f) h = update_thing-IsBalancing index f
op_change-IsBalancing (replace index new) h = replace_thing-IsBalancing index new h
op_change-IsBalancing (remove index count) h = remove_thing-IsBalancing index count

IsChanged-some : (it it' : Item) (diff : ℕ) → IsChanged it (some (it', diff)) → IsWeighed it'
unfolding IsChanged
IsChanged-some it it' diff h = h.0

-- Where every container of a tree keeps the weight of what lies in it, and items like that are added,
-- updated, replaced or removed in a container at any depth, every container keeps the right weight
-- afterwards, and the weight of the whole is what all items weigh when they are counted anew.
pub change_in-IsWeighed :
    (way : List ℕ) (op : Op) (it it' : Item) (diff : ℕ)
    → IsOp op
    → IsWeighed it
    → change_in way (op_change op) it ≡ some (it', diff)
    → IsWeighed it' × (get_weight it' ≡ whole_weight it')
change_in-IsWeighed way op it it' diff h k e =
    let weighed : IsWeighed it' = IsChanged-some it it' diff (
      subst (IsChanged it) e
        (change_in-IsChanged way (op_change op) it (op_change-IsBalancing op h) k)) in
    (weighed, sym (whole_weight-eq it' weighed))
