-- ===== src/Thing/Tile/Index.antt =====
-- The indices of the things on a tile.
use rubyserver.Base.{
  ℕ, zero, suc, ◌+◌, ◌-◌, ◌≤◌, ◌<◌, ◌≡◌, refl, sym, subst, ◌∙◌, ap, true, List, [], ◌∷◌, Option,
  none, some, ltb, ◌==◌, length, get_elem?, arith, Bool-cases, inl, inr, if_split,
}
use rubyserver.Thing.Tile.{
  TileItem, Thing, item, creature, Tile, ground_count, top_item_count, find_top, find_down,
  find_creature, is_at, get_thing_index, as_item, as_creature, get_below, get_above, get_from,
  get_thing, get_thing_count,
}

-- The pointers are the same.
abbrev pub IsSame : Thing → Option Thing → Type 0
IsSame th none = ⊥
IsSame (item it) (some (item x)) = x.uid ≡ it.uid
IsSame (item it) (some (creature c)) = ⊥
IsSame (creature c) (some (item x)) = ⊥
IsSame (creature c) (some (creature d)) = d ≡ c

abbrev IsItem : ℕ → Option TileItem → Type 0
IsItem uid none = ⊥
IsItem uid (some x) = x.uid ≡ uid

shift-IsItem :
    (uid j k : ℕ) (x : TileItem) (xs : List TileItem)
    → suc j ≡ k
    → IsItem uid (get_elem? xs j)
    → IsItem uid (get_elem? (x ∷ xs) k)
shift-IsItem uid j k x xs e h = subst (λ (i : ℕ). IsItem uid (get_elem? (x ∷ xs) i)) e h

-- A loop that found something: how many it passed, and what it is.
find_top-found :
    (skip uid : ℕ) (xs : List TileItem) (n m : ℕ)
    → find_top skip uid xs n ≡ some m
    → (i : ℕ) × ((m ≡ n + i) × ((i < length xs - skip) × IsItem uid (get_elem? xs (skip + i))))
unfolding find_top
find_top-found skip uid [] n m e = absurd (ground (arith, e))
find_top-found (suc skip) uid (x ∷ xs) n m e =
    let (i, (k, (l, is))) = find_top-found skip uid xs n m e in
    (i, (k, (omega (arith, l), shift-IsItem uid (skip + i) (suc skip + i) x xs (omega arith) is)))
find_top-found zero uid (x ∷ xs) n m e = elim (Bool-cases (x.uid == uid)) [
  | inl k ↦ (0, (ground (arith, e, k), (omega arith, ground (arith, k))))
  | inr k ↦
      let (i, (q, (l, is))) = find_top-found zero uid xs (suc n) m (ground (arith, e, k)) in
      (
        suc i,
        (
          omega (arith, q),
          (omega (arith, l), shift-IsItem uid (0 + i) (0 + suc i) x xs (omega arith) is),
        ),
      )
]

find_down-found :
    (down uid : ℕ) (xs : List TileItem) (n m : ℕ)
    → find_down down uid xs n ≡ some m
    → (i : ℕ) × ((m ≡ n + i) × ((i < down) × IsItem uid (get_elem? xs i)))
unfolding find_down
find_down-found zero uid xs n m e = absurd (ground (arith, e))
find_down-found (suc down) uid [] n m e = absurd (ground (arith, e))
find_down-found (suc down) uid (x ∷ xs) n m e = elim (Bool-cases (x.uid == uid)) [
  | inl k ↦ (0, (ground (arith, e, k), (omega arith, ground (arith, k))))
  | inr k ↦
      let (i, (q, (l, is))) = find_down-found down uid xs (suc n) m (ground (arith, e, k)) in
      (suc i, (omega (arith, q), (omega (arith, l), is)))
]

find_creature-found :
    (uid : ℕ) (cs : List ℕ) (n m : ℕ)
    → find_creature uid cs n ≡ some m
    → (i : ℕ) × ((m ≡ n + i) × ((i < length cs) × (get_elem? cs i ≡ some uid)))
unfolding find_creature
find_creature-found uid [] n m e = absurd (ground (arith, e))
find_creature-found uid (c ∷ cs) n m e = elim (Bool-cases (c == uid)) [
  | inl k ↦ (0, (ground (arith, e, k), (omega arith, ground (arith, k))))
  | inr k ↦
      let (i, (q, (l, is))) = find_creature-found uid cs (suc n) m (ground (arith, e, k)) in
      (suc i, (omega (arith, q), (omega (arith, l), is)))
]

-- Past the ground, the top items and the creatures.
get_from-above :
    (g : Option TileItem) (i : ℕ) (t : Tile) → get_from g (ground_count g + i) t ≡ get_above i t
unfolding get_from ground_count
get_from-above none i t = ap (λ (k : ℕ). get_above k t) (omega arith)
get_from-above (some g) i t =
    if_split (λ (o : Option Thing). o ≡ get_above i t) (1 + i == 0) (some (item g)) _
      (λ e. absurd (ground (arith, e))) (λ e. ap (λ (k : ℕ). get_above k t) (omega arith))

get_thing-above : (i : ℕ) (t : Tile) → get_thing (ground_count t.ground + i) t ≡ get_above i t
unfolding get_thing
get_thing-above i t = get_from-above t.ground i t

get_above-top :
    (i : ℕ) (t : Tile)
    → i < top_item_count t
    → get_above i t ≡ as_item (get_elem? t.items (t.down_item_count + i))
unfolding get_above
get_above-top i t h = ground (arith, h)

get_above-below : (i : ℕ) (t : Tile) → get_above (top_item_count t + i) t ≡ get_below i t
unfolding get_above
get_above-below i t =
    if_split (λ (o : Option Thing). o ≡ get_below i t)
      (ltb (top_item_count t + i) (top_item_count t)) _ _ (λ e. absurd (ground (arith, e)))
      (λ e. ap (λ (k : ℕ). get_below k t) (omega arith))

get_below-creature :
    (i : ℕ) (t : Tile)
    → i < length t.creatures
    → get_below i t ≡ as_creature (get_elem? t.creatures i)
unfolding get_below
get_below-creature i t h = ground (arith, h)

get_below-down :
    (i : ℕ) (t : Tile)
    → i < t.down_item_count
    → get_below (length t.creatures + i) t ≡ as_item (get_elem? t.items i)
unfolding get_below
get_below-down i t h =
    let n = length t.creatures in
    if_split (λ (o : Option Thing). o ≡ as_item (get_elem? t.items i)) (ltb (n + i) n) _ _
      (λ e. absurd (ground (arith, e)))
      (λ e.
        if_split (λ (o : Option Thing). o ≡ as_item (get_elem? t.items i))
          (ltb (n + i - n) t.down_item_count) _ _
          (λ k. ap (λ (j : ℕ). as_item (get_elem? t.items j)) (omega arith))
          (λ k. absurd (ground (arith, h, k))))

as_item-IsSame :
    (it : TileItem) (o : Option TileItem) → IsItem it.uid o → IsSame (item it) (as_item o)
as_item-IsSame it none h = h
as_item-IsSame it (some x) h = h

-- What getThing gives at an index that getThingIndex found, by the place of the thing.
top-IsSame :
    (it : TileItem) (n : ℕ) (t : Tile)
    → find_top t.down_item_count it.uid t.items (ground_count t.ground) ≡ some n
    → IsSame (item it) (get_thing n t) × (n < get_thing_count t)
unfolding get_thing_count top_item_count
top-IsSame it n t e =
    let (i, (at, (l, is))) =
      find_top-found t.down_item_count it.uid t.items (ground_count t.ground) n e in
    let same : as_item (get_elem? t.items (t.down_item_count + i)) ≡ get_thing n t =
      sym (get_above-top i t l)
      ∙ sym (get_thing-above i t)
      ∙ ap (λ (k : ℕ). get_thing k t) (sym at) in
    (
      subst (IsSame (item it)) same
          (as_item-IsSame it (get_elem? t.items (t.down_item_count + i)) is),
      omega (arith, at, l),
    )

down-IsSame :
    (it : TileItem) (n : ℕ) (t : Tile)
    → t.down_item_count ≤ length t.items
    → find_down t.down_item_count it.uid t.items
        (ground_count t.ground + top_item_count t + length t.creatures)
      ≡ some n
    → IsSame (item it) (get_thing n t) × (n < get_thing_count t)
unfolding get_thing_count top_item_count
down-IsSame it n t fits e =
    let g = ground_count t.ground in
    let top = top_item_count t in
    let cs = length t.creatures in
    let (i, (at, (l, is))) = find_down-found t.down_item_count it.uid t.items (g + top + cs) n e in
    let place : n ≡ g + (top + (cs + i)) = omega (arith, at) in
    let same : as_item (get_elem? t.items i) ≡ get_thing n t =
      sym (get_below-down i t l)
      ∙ sym (get_above-below (cs + i) t)
      ∙ sym (get_thing-above (top + (cs + i)) t)
      ∙ ap (λ (k : ℕ). get_thing k t) (sym place) in
    (
      subst (IsSame (item it)) same (as_item-IsSame it (get_elem? t.items i) is),
      omega (arith, at, l, fits),
    )

creature-IsSame :
    (c n : ℕ) (t : Tile)
    → t.down_item_count ≤ length t.items
    → find_creature c t.creatures (ground_count t.ground + top_item_count t) ≡ some n
    → IsSame (creature c) (get_thing n t) × (n < get_thing_count t)
unfolding get_thing_count top_item_count
creature-IsSame c n t fits e =
    let g = ground_count t.ground in
    let top = top_item_count t in
    let (i, (at, (l, is))) = find_creature-found c t.creatures (g + top) n e in
    let place : n ≡ g + (top + i) = omega (arith, at) in
    let same : as_creature (some c) ≡ get_thing n t =
      ap as_creature (sym is)
      ∙ sym (get_below-creature i t l)
      ∙ sym (get_above-below i t)
      ∙ sym (get_thing-above (top + i) t)
      ∙ ap (λ (k : ℕ). get_thing k t) (sym place) in
    (subst (IsSame (creature c)) same refl, omega (arith, at, l, fits))

ground-IsSame :
    (it : TileItem) (g : Option TileItem) (t : Tile)
    → is_at g it ≡ true
    → IsSame (item it) (get_from g 0 t) × (1 ≤ ground_count g)
unfolding is_at get_from ground_count
ground-IsSame it none t e = absurd (ground (arith, e))
ground-IsSame it (some g) t e = (ground (arith, e), omega arith)

first-IsSame :
    (it : TileItem) (t : Tile)
    → is_at t.ground it ≡ true
    → IsSame (item it) (get_thing 0 t) × (0 < get_thing_count t)
unfolding get_thing get_thing_count
first-IsSame it t e = let found = ground-IsSame it t.ground t e in (found.0, omega (arith, found.1))

-- The index that getThingIndex gives for an item or a creature is below getThingCount, and getThing
-- gives the same item or creature there, if the count of down items is within the vector.
pub get_thing-get_thing_index :
    (th : Thing) (n : ℕ) (t : Tile)
    → t.down_item_count ≤ length t.items
    → get_thing_index th t ≡ some n
    → IsSame th (get_thing n t) × (n < get_thing_count t)
unfolding get_thing_index
get_thing-get_thing_index (creature c) n t fits e = creature-IsSame c n t fits e
get_thing-get_thing_index (item it) n t fits e = elim (Bool-cases (is_at t.ground it)) [
  | inl k ↦
      subst (λ (i : ℕ). IsSame (item it) (get_thing i t) × (i < get_thing_count t))
        (ground (arith, e, k)) (first-IsSame it t k)
  | inr k ↦ elim (Bool-cases it.always_on_top) [
    | inl top ↦ top-IsSame it n t (ground (arith, e, k, top))
    | inr top ↦ down-IsSame it n t fits (ground (arith, e, k, top))
  ]
]
