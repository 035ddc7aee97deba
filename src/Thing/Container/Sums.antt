-- ===== src/Thing/Container/Sums.antt =====
-- The weights of the items of a container, and how the changes of the item list change their sum.
use rubyserver.Base.{ℕ, zero, suc, ◌^◌, ◌<◌, ◌≡◌, refl, sym, ap, ◌∙◌, subst, some, arith}
use rubyserver.Thing.Container.{
  Facts, Item, leaf, box, Items, nil, cons, add32, diff32, item_weight, get_weight, push_back,
  get_item_by_index, set_at, erase_at, set_facts,
}

-- The weight of a list, and that of a tree counted anew.
unfoldable pub sum_weights : Items → ℕ
sum_weights nil = 0
sum_weights (cons it items) = add32 (get_weight it) (sum_weights items)

unfoldable mutual
  pub IsWeighed : Item → Type 0
  IsWeighed (leaf f) = Unit
  IsWeighed (box f capacity total items) = (total ≡ sum_weights items) × AreWeighed items

  pub AreWeighed : Items → Type 0
  AreWeighed nil = Unit
  AreWeighed (cons it items) = IsWeighed it × AreWeighed items

-- An independent account: every item of the tree with its own weight.
unfoldable mutual
  pub whole_weight : Item → ℕ
  whole_weight (leaf f) = item_weight f
  whole_weight (box f capacity total items) = add32 (item_weight f) (whole_weights items)

  pub whole_weights : Items → ℕ
  whole_weights nil = 0
  whole_weights (cons it items) = add32 (whole_weight it) (whole_weights items)

mutual
  unfolding whole_weight sum_weights IsWeighed get_weight

  pub whole_weight-eq : (it : Item) → IsWeighed it → whole_weight it ≡ get_weight it
  whole_weight-eq (leaf f) h = refl
  whole_weight-eq (box f capacity total items) h =
      ap (add32 (item_weight f)) (whole_weights-eq items h.1 ∙ sym h.0)

  whole_weights-eq : (items : Items) → AreWeighed items → whole_weights items ≡ sum_weights items
  whole_weights-eq nil h = refl
  whole_weights-eq (cons it items) h = cc (whole_weight-eq it h.0, whole_weights-eq items h.1)

-- A change keeps the weights below it, and says by how much the list's weight changes.
abbrev pub IsBalanced : Items → Items × ℕ → Type 0
IsBalanced items (items', diff) =
    AreWeighed items' × (sum_weights items' ≡ add32 (sum_weights items) diff)

pub get_weight-lt : (it : Item) → get_weight it < 2 ^ 32
unfolding get_weight item_weight add32
get_weight-lt (leaf f) = ground arith
get_weight-lt (box f capacity total items) = omega arith

pub sum_weights-lt : (items : Items) → sum_weights items < 2 ^ 32
unfolding sum_weights add32
sum_weights-lt nil = omega arith
sum_weights-lt (cons it items) = omega arith

pub add32_zero : (items : Items) → sum_weights items ≡ add32 (sum_weights items) 0
unfolding add32
add32_zero items = omega (arith, sum_weights-lt items)

pub push_back-sum :
    (new : Item) (items : Items)
    → sum_weights (push_back new items) ≡ add32 (sum_weights items) (get_weight new)
unfolding push_back sum_weights add32
push_back-sum new nil = omega arith
push_back-sum new (cons it items) = omega (arith, push_back-sum new items)

pub set_at-sum :
    (i : ℕ) (new it : Item) (items : Items)
    → get_item_by_index i items ≡ some it
    → sum_weights (set_at i new items)
      ≡ add32 (sum_weights items) (diff32 (get_weight new) (get_weight it))
unfolding set_at sum_weights get_item_by_index add32 diff32
set_at-sum i new it nil e = absurd (ground (arith, e))
set_at-sum zero new it (cons old items) e =
    let same : old ≡ it = ground (arith, e) in
    subst
      (λ (o : Item).
        add32 (get_weight new) (sum_weights items)
        ≡ add32 (add32 (get_weight old) (sum_weights items))
            (diff32 (get_weight new) (get_weight o)))
      same (omega (arith, get_weight-lt old, get_weight-lt new, sum_weights-lt items))
set_at-sum (suc i) new it (cons old items) e =
    let rest = set_at-sum i new it items (ground (arith, e)) in
    omega (arith, rest, sum_weights-lt items)

pub erase_at-sum :
    (i : ℕ) (it : Item) (items : Items)
    → get_item_by_index i items ≡ some it
    → sum_weights (erase_at i items) ≡ add32 (sum_weights items) (diff32 0 (get_weight it))
unfolding erase_at sum_weights get_item_by_index add32 diff32
erase_at-sum i it nil e = absurd (ground (arith, e))
erase_at-sum zero it (cons old items) e =
    let same : old ≡ it = ground (arith, e) in
    subst
      (λ (o : Item).
        sum_weights items
        ≡ add32 (add32 (get_weight old) (sum_weights items)) (diff32 0 (get_weight o)))
      same (omega (arith, get_weight-lt old, sum_weights-lt items))
erase_at-sum (suc i) it (cons old items) e =
    let rest = erase_at-sum i it items (ground (arith, e)) in
    omega (arith, rest, sum_weights-lt items)

pub push_back-AreWeighed :
    (new : Item) (items : Items)
    → IsWeighed new
    → AreWeighed items
    → AreWeighed (push_back new items)
unfolding push_back IsWeighed
push_back-AreWeighed new nil h k = (h, tt)
push_back-AreWeighed new (cons it items) h k = (k.0, push_back-AreWeighed new items h k.1)

pub set_at-AreWeighed :
    (i : ℕ) (new : Item) (items : Items)
    → IsWeighed new
    → AreWeighed items
    → AreWeighed (set_at i new items)
unfolding set_at IsWeighed
set_at-AreWeighed i new nil h k = tt
set_at-AreWeighed zero new (cons it items) h k = (h, k.1)
set_at-AreWeighed (suc i) new (cons it items) h k = (k.0, set_at-AreWeighed i new items h k.1)

pub erase_at-AreWeighed : (i : ℕ) (items : Items) → AreWeighed items → AreWeighed (erase_at i items)
unfolding erase_at IsWeighed
erase_at-AreWeighed i nil k = tt
erase_at-AreWeighed zero (cons it items) k = k.1
erase_at-AreWeighed (suc i) (cons it items) k = (k.0, erase_at-AreWeighed i items k.1)

pub get_item_by_index-IsWeighed :
    (i : ℕ) (it : Item) (items : Items)
    → AreWeighed items
    → get_item_by_index i items ≡ some it
    → IsWeighed it
unfolding get_item_by_index IsWeighed
get_item_by_index-IsWeighed i it nil k e = absurd (ground (arith, e))
get_item_by_index-IsWeighed zero it (cons old items) k e =
    let same : old ≡ it = ground (arith, e) in subst IsWeighed same k.0
get_item_by_index-IsWeighed (suc i) it (cons old items) k e =
    get_item_by_index-IsWeighed i it items k.1 (ground (arith, e))

pub set_facts-IsWeighed : (f : Facts) (it : Item) → IsWeighed it → IsWeighed (set_facts f it)
unfolding set_facts IsWeighed
set_facts-IsWeighed f (leaf g) h = tt
set_facts-IsWeighed f (box g capacity total items) h = h
