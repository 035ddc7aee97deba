-- ===== src/Game/Wildcard/Trees.antt =====
-- The shape of the tree: one child for each key, and no node below the root that leads to no name.
use rubyserver.Base.{
  ℕ, ◌≡◌, refl, subst, Bool, true, false, ◌||◌, List, [], ◌∷◌, none, some, ◌==◌, arith, Bool-cases,
  Option-cases, inl, inr,
}
use rubyserver.Game.Wildcard.{
  Node, node, Children, nil, cons, breakpoint, children, get_child, set_child, erase_child,
  add_child, insert, is_dead, put_back, remove_at, remove,
}
use rubyserver.Game.Wildcard.Names.{
  remove-none, remove-some, remove_at-missing, remove_at-stuck, remove_at-child,
}

unfoldable mutual
  pub IsTree : Node → Type 0
  IsTree (node b cs) = AreTrees cs

  pub AreTrees : Children → Type 0
  AreTrees nil = Unit
  AreTrees (cons c n cs) =
      (get_child c cs ≡ none) × ((is_dead n ≡ false) × (IsTree n × AreTrees cs))

get_child-set_child :
    (c d : ℕ) (n : Node) (cs : Children)
    → (c == d) ≡ false
    → get_child c cs ≡ none
    → get_child c (set_child d n cs) ≡ none
unfolding get_child set_child
get_child-set_child c d n nil h e = ground (arith, h)
get_child-set_child c d n (cons k m cs) h e = ground (arith, h, e, get_child-set_child c d n cs h)

get_child-erase_child :
    (c d : ℕ) (cs : Children) → get_child c cs ≡ none → get_child c (erase_child d cs) ≡ none
unfolding get_child erase_child
get_child-erase_child c d nil e = refl
get_child-erase_child c d (cons k m cs) e = ground (arith, e, get_child-erase_child c d cs)

AreTrees-set_child :
    (ch : ℕ) (child : Node) (cs : Children)
    → is_dead child ≡ false
    → IsTree child
    → AreTrees cs
    → AreTrees (set_child ch child cs)
unfolding IsTree set_child
AreTrees-set_child ch child nil live h k = (unfold get_child in refl, (live, (h, tt)))
AreTrees-set_child ch child (cons c n cs) live h (fresh, (alive, (tree, rest))) =
    elim (Bool-cases (ch == c)) [
      | inl e ↦ rw e ((fresh, (live, (h, rest))))
      | inr e ↦ rw e (
          (
            get_child-set_child c ch child cs (ground (arith, e)) fresh,
            (alive, (tree, AreTrees-set_child ch child cs live h rest)),
          ))
    ]

AreTrees-erase_child : (ch : ℕ) (cs : Children) → AreTrees cs → AreTrees (erase_child ch cs)
unfolding IsTree erase_child
AreTrees-erase_child ch nil k = tt
AreTrees-erase_child ch (cons c n cs) (fresh, (alive, (tree, rest))) = elim (Bool-cases (ch == c)) [
  | inl e ↦ rw e (AreTrees-erase_child ch cs rest)
  | inr e ↦
      rw e ((get_child-erase_child c ch cs fresh, (alive, (tree, AreTrees-erase_child ch cs rest))))
]

pub get_child-IsTree :
    (ch : ℕ) (cs : Children) (child : Node)
    → AreTrees cs
    → get_child ch cs ≡ some child
    → IsTree child × (is_dead child ≡ false)
unfolding IsTree get_child
get_child-IsTree ch nil child h e = absurd (ground (arith, e))
get_child-IsTree ch (cons c n cs) child (fresh, (alive, (tree, rest))) e =
    elim (Bool-cases (ch == c)) [
      | inl q ↦
          let same : n ≡ child = ground (arith, e, q) in
          subst (λ (m : Node). IsTree m × (is_dead m ≡ false)) same ((tree, alive))
      | inr q ↦ get_child-IsTree ch cs child rest (ground (arith, e, q))
    ]

is_dead-set_child :
    (b : Bool) (ch : ℕ) (n : Node) (cs : Children) → is_dead (node b (set_child ch n cs)) ≡ false
unfolding set_child
is_dead-set_child b ch n nil = refl
is_dead-set_child b ch n (cons c m cs) = ground arith

add_child-IsTree :
    (ch : ℕ) (mark : Bool) (cs : Children) → AreTrees cs → IsTree (add_child ch mark cs)
unfolding add_child
add_child-IsTree ch mark cs h = elim (Option-cases (get_child ch cs)) [
  | inl e ↦ rw (e, add_child) (unfold IsTree in tt)
  | inr (child, e) ↦
      rw (e, add_child) (marked-IsTree mark child (get_child-IsTree ch cs child h e).0)
]
  where
    marked-IsTree :
        (mark : Bool) (n : Node) → IsTree n → IsTree (node (mark || breakpoint n) (children n))
    marked-IsTree mark (node b cs) k = unfold IsTree in k

is_dead-add_child : (ch : ℕ) (cs : Children) → is_dead (add_child ch true cs) ≡ false
unfolding add_child
is_dead-add_child ch cs = elim (Option-cases (get_child ch cs)) [
  | inl e ↦ rw (e, add_child)
  | inr (child, e) ↦ rw (e, add_child) (ground arith)
]

is_dead-insert : (str : List ℕ) (ch : ℕ) (n : Node) → is_dead (insert ch str n) ≡ false
unfolding insert
is_dead-insert [] ch (node b cs) = is_dead-set_child b ch (add_child ch true cs) cs
is_dead-insert (next ∷ str) ch (node b cs) =
    is_dead-set_child b ch (insert next str (add_child ch false cs)) cs

-- An insert keeps the shape of the tree.
pub insert-IsTree : (str : List ℕ) (ch : ℕ) (n : Node) → IsTree n → IsTree (insert ch str n)
unfolding insert IsTree
insert-IsTree [] ch (node b cs) h =
    AreTrees-set_child ch (add_child ch true cs) cs (is_dead-add_child ch cs)
      (add_child-IsTree ch true cs h) h
insert-IsTree (next ∷ str) ch (node b cs) h =
    AreTrees-set_child ch (insert next str (add_child ch false cs)) cs
      (is_dead-insert str next (add_child ch false cs))
      (insert-IsTree str next (add_child ch false cs) (add_child-IsTree ch false cs h)) h

put_back-AreTrees :
    (ch : ℕ) (child : Node) (cs : Children)
    → IsTree child
    → AreTrees cs
    → AreTrees (put_back ch child cs)
unfolding put_back
put_back-AreTrees ch child cs h k = elim (Bool-cases (is_dead child)) [
  | inl e ↦ rw (put_back, e) (AreTrees-erase_child ch cs k)
  | inr e ↦ rw (put_back, e) (AreTrees-set_child ch child cs e h k)
]

changed_child-IsTree :
    (ch : ℕ) (b : Bool) (child : Node) (cs : Children)
    → IsTree child
    → IsTree (node b cs)
    → IsTree (node b (put_back ch child cs))
unfolding IsTree
changed_child-IsTree ch b child cs h k = put_back-AreTrees ch child cs h k

remove_at-IsTree : (str : List ℕ) (n n' : Node) → IsTree n → remove_at str n ≡ some n' → IsTree n'
remove_at-IsTree [] (node b cs) n' h e =
    let root : node false cs ≡ n' =
      let f : some (node false cs) ≡ some n' = unfold remove_at in e in ground (arith, f) in
    subst (λ (m : Node). IsTree m) root (unfold IsTree in h)
remove_at-IsTree (ch ∷ str) (node b cs) n' h e = elim (Option-cases (get_child ch cs)) [
  | inl f ↦ absurd (ground (arith, e, remove_at-missing ch str b cs f))
  | inr (child, f) ↦ elim (Option-cases (remove_at str child)) [
    | inl g ↦ absurd (ground (arith, e, remove_at-stuck ch str b cs child f g))
    | inr (child', g) ↦
        let at_root : node b (put_back ch child' cs) ≡ n' =
          ground (arith, e, remove_at-child ch str b cs child child' f g) in
        let below : IsTree child' =
          remove_at-IsTree str child child' (get_child-IsTree ch cs child (unfold IsTree in h) f).0
            g in
        subst (λ (m : Node). IsTree m) at_root (changed_child-IsTree ch b child' cs below h)
  ]
]

-- A remove keeps the shape of the tree.
pub remove-IsTree : (str : List ℕ) (n : Node) → IsTree n → IsTree (remove str n)
remove-IsTree str n h = elim (Option-cases (remove_at str n)) [
  | inl e ↦ rw (remove-none str n e) h
  | inr (n', e) ↦ rw (remove-some str n n' e) (remove_at-IsTree str n n' h e)
]
