-- ===== src/Thing/Container/Iterator/Visits.antt =====
-- The iterator comes to an end and visits every item of the tree once.
use rubyserver.Base.{
  ℕ, zero, suc, ◌+◌, ◌≤◌, ◌≡◌, refl, sym, ap, ◌∙◌, Bool, true, false, List, [], ◌∷◌, ◌++◌, Option,
  none, some, ◌==◌, if◌then◌else◌, length, arith,
}
use rubyserver.Thing.Container.{Item, leaf, box, Items, nil, cons, facts}
use rubyserver.Thing.Container.Iterator.{
  Over, push_container, open_item, keep_front, iterator, visit, get_item_holding_count, any_uid,
  is_holding_item,
}

-- How many items of a tree have a property, counted by depth.
unfoldable mutual
  pub count_item : (Item → Bool) → Item → ℕ
  count_item p (leaf f) = if p (leaf f) then 1 else 0
  count_item p (box f capacity total items) =
      (if p (box f capacity total items) then 1 else 0) + count_items p items

  pub count_items : (Item → Bool) → Items → ℕ
  count_items p nil = 0
  count_items p (cons it items) = count_item p it + count_items p items

unfoldable pub count_list : (Item → Bool) → List Item → ℕ
count_list p [] = 0
count_list p (it ∷ its) = (if p it then 1 else 0) + count_list p its

count_over : (Item → Bool) → Over → ℕ
count_over p [] = 0
count_over p (items ∷ over) = count_items p items + count_over p over

abbrev pub any_item : Item → Bool
any_item it = true

count_over-append :
    (p : Item → Bool) (xs ys : Over) → count_over p (xs ++ ys) ≡ count_over p xs + count_over p ys
unfolding count_over
count_over-append p [] ys = omega arith
count_over-append p (x ∷ xs) ys = omega (arith, count_over-append p xs ys)

count_over-push_container :
    (p : Item → Bool) (items : Items) (over : Over)
    → count_over p (push_container items over) ≡ count_over p over + count_items p items
unfolding push_container count_over count_item
count_over-push_container p nil over = omega arith
count_over-push_container p (cons it items) over =
    omega (arith, count_over-append p over (cons it items ∷ []))

-- Opening an item counts what lies in it, and the item itself is visited.
count_over-open_item :
    (p : Item → Bool) (it : Item) (over : Over)
    → (if p it then 1 else 0) + count_over p (open_item it over)
      ≡ count_over p over + count_item p it
unfolding open_item count_item
count_over-open_item p (leaf f) over = omega arith
count_over-open_item p (box f capacity total items) over =
    omega (arith, count_over-push_container p items over)

count_over-keep_front :
    (p : Item → Bool) (items : Items) (over : Over)
    → count_over p (keep_front items over) ≡ count_items p items + count_over p over
unfolding keep_front count_over count_item
count_over-keep_front p nil over = omega arith
count_over-keep_front p (cons it items) over = omega arith

-- No list that waits in `over` is empty.
AreFull : Over → Type 0
AreFull [] = Unit
AreFull (nil ∷ over) = ⊥
AreFull (cons it items ∷ over) = AreFull over

AreFull-append : (xs ys : Over) → AreFull xs → AreFull ys → AreFull (xs ++ ys)
unfolding AreFull
AreFull-append [] ys h k = k
AreFull-append (nil ∷ xs) ys h k = absurd h
AreFull-append (cons it items ∷ xs) ys h k = AreFull-append xs ys h k

push_container-AreFull :
    (items : Items) (over : Over) → AreFull over → AreFull (push_container items over)
unfolding push_container
push_container-AreFull nil over h = h
push_container-AreFull (cons it items) over h =
    AreFull-append over (cons it items ∷ []) h (unfold AreFull in tt)

open_item-AreFull : (it : Item) (over : Over) → AreFull over → AreFull (open_item it over)
unfolding open_item
open_item-AreFull (leaf f) over h = h
open_item-AreFull (box f capacity total items) over h = push_container-AreFull items over h

keep_front-AreFull : (items : Items) (over : Over) → AreFull over → AreFull (keep_front items over)
unfolding keep_front AreFull
keep_front-AreFull nil over h = h
keep_front-AreFull (cons it items) over h = h

-- The loop ends once the fuel is at least the number of items, having visited each of them.
abbrev Visits : Over → Option (List Item) → Type 0
Visits over none = ⊥
Visits over (some its) = (p : Item → Bool) → count_list p its ≡ count_over p over

visit_step :
    (it : Item) (rest : Items) (over : Over) (later : Option (List Item))
    → Visits (keep_front rest (open_item it over)) later
    → Visits (cons it rest ∷ over) (elim later [ none ↦ none | some its ↦ some (it ∷ its) ])
unfolding count_list count_item count_over
visit_step it rest over none h = absurd h
visit_step it rest over (some its) h = λ p.
    omega
      (arith, h p, count_over-keep_front p rest (open_item it over), count_over-open_item p it over)

AreFull-cons :
    (it : Item) (rest : Items) (over : Over) → AreFull (cons it rest ∷ over) → AreFull over
unfolding AreFull
AreFull-cons it rest over h = h

-- One item less is left after each step.
count_over-step :
    (it : Item) (rest : Items) (over : Over)
    → count_over any_item (cons it rest ∷ over)
      ≡ suc (count_over any_item (keep_front rest (open_item it over)))
unfolding count_over count_item
count_over-step it rest over = omega (
  arith,
  count_over-keep_front any_item rest (open_item it over),
  count_over-open_item any_item it over,
)

visit-Visits :
    (fuel : ℕ) (over : Over)
    → AreFull over
    → count_over any_item over ≤ fuel
    → Visits over (visit fuel over)
unfolding visit
visit-Visits fuel [] full h = λ p. unfold count_list count_over in refl
visit-Visits zero (nil ∷ over) full h = absurd (unfold AreFull in full)
visit-Visits zero (cons it rest ∷ over) full h =
    absurd (omega (arith, h, count_over-step it rest over))
visit-Visits (suc fuel) (nil ∷ over) full h = absurd (unfold AreFull in full)
visit-Visits (suc fuel) (cons it rest ∷ over) full h =
    visit_step it rest over (visit fuel (keep_front rest (open_item it over))) (
      visit-Visits fuel (keep_front rest (open_item it over))
        (keep_front-AreFull rest (open_item it over)
          (open_item-AreFull it over (AreFull-cons it rest over full)))
        (omega (arith, h, count_over-step it rest over)))

iterator-AreFull : (items : Items) → AreFull (iterator items)
unfolding iterator
iterator-AreFull items = push_container-AreFull items [] (unfold AreFull in tt)

count_over-iterator :
    (p : Item → Bool) (items : Items) → count_over p (iterator items) ≡ count_items p items
unfolding iterator
count_over-iterator p items =
    count_over-push_container p items [] ∙ (unfold count_over in omega arith)

iterator-Visits :
    (fuel : ℕ) (items : Items)
    → count_items any_item items ≤ fuel
    → Visits (iterator items) (visit fuel (iterator items))
iterator-Visits fuel items h =
    visit-Visits fuel (iterator items) (iterator-AreFull items)
      (omega (arith, h, count_over-iterator any_item items))

length-count_list : (its : List Item) → count_list any_item its ≡ length its
unfolding count_list
length-count_list [] = refl
length-count_list (it ∷ its) = omega (arith, length-count_list its)

any_uid-count_list :
    (uid : ℕ) (its : List Item)
    → any_uid uid its ≡ (if count_list (λ it. (facts it).uid == uid) its == 0 then false else true)
unfolding any_uid count_list
any_uid-count_list uid [] = refl
any_uid-count_list uid (it ∷ its) = ground (arith, any_uid-count_list uid its)

holding_count-some :
    (items : Items) (r : Option (List Item))
    → Visits (iterator items) r
    → (its : List Item) × ((r ≡ some its)
        × ((p : Item → Bool) → count_list p its ≡ count_items p items))
holding_count-some items none h = absurd h
holding_count-some items (some its) h = (its, (refl, λ p. h p ∙ count_over-iterator p items))

-- With fuel for all the items of a container and of those in it the loops over the iterator end:
-- getItemHoldingCount gives how many items there are at any depth, and isHoldingItem whether an item
-- with the pointer is among them.
pub get_item_holding_count-count :
    (fuel uid : ℕ) (items : Items)
    → count_items any_item items ≤ fuel
    → (get_item_holding_count fuel items ≡ some (count_items any_item items))
      × (is_holding_item fuel uid items
          ≡ some (if count_items (λ it. (facts it).uid == uid) items == 0 then false else true))
unfolding get_item_holding_count is_holding_item
get_item_holding_count-count fuel uid items h =
    let (its, (e, all)) =
      holding_count-some items (visit fuel (iterator items)) (iterator-Visits fuel items h) in
    (
      rw (e, get_item_holding_count)
          (ap (λ (n : ℕ). some n) (sym (length-count_list its) ∙ all any_item)),
      rw (e, is_holding_item)
          (ap (λ (b : Bool). some b)
            (any_uid-count_list uid its
              ∙ ap (λ (n : ℕ). if n == 0 then false else true)
                  (all (λ it. (facts it).uid == uid)))),
    )
