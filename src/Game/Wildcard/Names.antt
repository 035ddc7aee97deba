-- ===== src/Game/Wildcard/Names.antt =====
-- The names in the tree, and what insert and remove make of them.
use rubyserver.Base.{
  ℕ, ◌≡◌, refl, ap, ◌∙◌, inl, inr, Bool, true, false, not, ◌&&◌, ◌||◌, List, [], ◌∷◌, none, some,
  ◌==◌, if◌then◌else◌, arith, Bool-cases, Option-cases,
}
use rubyserver.Game.Wildcard.{
  Node, node, Children, nil, cons, breakpoint, children, get_child, set_child, erase_child,
  add_child, insert, is_dead, put_back, remove_at, remove,
}

-- A name is in the tree when its path ends at a breakpoint.
unfoldable mutual
  pub contains : List ℕ → Node → Bool
  contains [] (node b cs) = b
  contains (ch ∷ name) (node b cs) = contains_in ch name cs

  pub contains_in : ℕ → List ℕ → Children → Bool
  contains_in ch name nil = false
  contains_in ch name (cons c n cs) =
      let here = contains name n in if ch == c then here else contains_in ch name cs

pub contains_in-get_child :
    (ch : ℕ) (name : List ℕ) (cs : Children) (child : Node)
    → get_child ch cs ≡ some child
    → contains_in ch name cs ≡ contains name child
unfolding contains_in get_child
contains_in-get_child ch name nil child e = ground (arith, e)
contains_in-get_child ch name (cons c n cs) child e =
    ground (arith, e, contains_in-get_child ch name cs child)

pub contains_in-missing :
    (ch : ℕ) (name : List ℕ) (cs : Children)
    → get_child ch cs ≡ none
    → contains_in ch name cs ≡ false
unfolding contains_in get_child
contains_in-missing ch name nil e = refl
contains_in-missing ch name (cons c n cs) e = ground (arith, e, contains_in-missing ch name cs)

pub contains_in-set_child :
    (ch d : ℕ) (name : List ℕ) (child : Node) (cs : Children)
    → contains_in ch name (set_child d child cs)
      ≡ (if ch == d then contains name child else contains_in ch name cs)
unfolding contains_in set_child
contains_in-set_child ch d name child nil = ground arith
contains_in-set_child ch d name child (cons c n cs) =
    ground (arith, contains_in-set_child ch d name child cs)

pub contains_in-erase_child :
    (ch d : ℕ) (name : List ℕ) (cs : Children)
    → contains_in ch name (erase_child d cs) ≡ (if ch == d then false else contains_in ch name cs)
unfolding contains_in erase_child
contains_in-erase_child ch d name nil = ground arith
contains_in-erase_child ch d name (cons c n cs) =
    ground (arith, contains_in-erase_child ch d name cs)

unfoldable pub same_name : List ℕ → List ℕ → Bool
same_name [] [] = true
same_name (x ∷ xs) (y ∷ ys) = x == y && same_name xs ys
same_name _ _ = false

pub same_name→≡ : (xs ys : List ℕ) → same_name xs ys ≡ true → xs ≡ ys
unfolding same_name
same_name→≡ [] [] h = refl
same_name→≡ [] (y ∷ ys) h = absurd (ground (arith, h))
same_name→≡ (x ∷ xs) [] h = absurd (ground (arith, h))
same_name→≡ (x ∷ xs) (y ∷ ys) h = ground (arith, h, same_name→≡ xs ys)

contains-new :
    (name : List ℕ) (mark : Bool) → contains name (node mark nil) ≡ (mark && same_name name [])
unfolding same_name contains
contains-new [] mark = ground arith
contains-new (d ∷ name) mark = ground arith

contains-marked :
    (name : List ℕ) (mark : Bool) (child : Node)
    → contains name (node (mark || breakpoint child) (children child))
      ≡ ((mark && same_name name []) || contains name child)
unfolding same_name contains
contains-marked [] mark (node b cs) = ground arith
contains-marked (d ∷ name) mark (node b cs) = ground arith

contains-add_child :
    (name : List ℕ) (ch : ℕ) (mark : Bool) (cs : Children)
    → contains name (add_child ch mark cs) ≡ ((mark && same_name name []) || contains_in ch name cs)
unfolding add_child
contains-add_child name ch mark cs = elim (Option-cases (get_child ch cs)) [
  | inl e ↦ ground (arith, e, contains-new name mark, contains_in-missing ch name cs e)
  | inr (child, e) ↦
      ground (arith, e, contains-marked name mark child, contains_in-get_child ch name cs child e)
]

-- The tree holds a name after an insert exactly when it is the one inserted or was there before.
pub contains-insert :
    (name str : List ℕ) (ch : ℕ) (n : Node)
    → contains name (insert ch str n) ≡ (same_name name (ch ∷ str) || contains name n)
unfolding insert same_name contains
contains-insert [] [] ch (node b cs) = refl
contains-insert [] (next ∷ str) ch (node b cs) = refl
contains-insert (d ∷ name) [] ch (node b cs) = ground (
  arith,
  contains_in-set_child d ch name (add_child ch true cs) cs,
  contains-add_child name ch true cs,
)
contains-insert (d ∷ name) (next ∷ str) ch (node b cs) = ground (
  arith,
  contains_in-set_child d ch name (insert next str (add_child ch false cs)) cs,
  contains-insert name str next (add_child ch false cs),
  contains-add_child name ch false cs,
)

contains-dead : (name : List ℕ) (n : Node) → is_dead n ≡ true → contains name n ≡ false
unfolding contains
contains-dead [] (node b cs) h = ground (arith, h)
contains-dead (d ∷ name) (node b nil) h = refl
contains-dead (d ∷ name) (node b (cons c m cs)) h = ground (arith, h)

contains_in-put_back :
    (ch d : ℕ) (name : List ℕ) (child : Node) (cs : Children)
    → contains_in ch name (put_back d child cs)
      ≡ (if ch == d then contains name child else contains_in ch name cs)
unfolding put_back
contains_in-put_back ch d name child cs = elim (Bool-cases (is_dead child)) [
  | inl e ↦ ground (arith, e, contains-dead name child e, contains_in-erase_child ch d name cs)
  | inr e ↦ ground (arith, e, contains_in-set_child ch d name child cs)
]

-- One level of the walk of remove.
pub remove_at-missing :
    (ch : ℕ) (str : List ℕ) (b : Bool) (cs : Children)
    → get_child ch cs ≡ none
    → remove_at (ch ∷ str) (node b cs) ≡ none
unfolding remove_at
remove_at-missing ch str b cs e = rw (e, remove_at)

pub remove_at-stuck :
    (ch : ℕ) (str : List ℕ) (b : Bool) (cs : Children) (child : Node)
    → get_child ch cs ≡ some child
    → remove_at str child ≡ none
    → remove_at (ch ∷ str) (node b cs) ≡ none
unfolding remove_at
remove_at-stuck ch str b cs child e f = rw (e, f, remove_at)

pub remove_at-child :
    (ch : ℕ) (str : List ℕ) (b : Bool) (cs : Children) (child child' : Node)
    → get_child ch cs ≡ some child
    → remove_at str child ≡ some child'
    → remove_at (ch ∷ str) (node b cs) ≡ some (node b (put_back ch child' cs))
unfolding remove_at
remove_at-child ch str b cs child child' e f = rw (e, f, remove_at)

pub remove-none : (str : List ℕ) (n : Node) → remove_at str n ≡ none → remove str n ≡ n
unfolding remove
remove-none str n e = rw (e, remove)

pub remove-some : (str : List ℕ) (n n' : Node) → remove_at str n ≡ some n' → remove str n ≡ n'
unfolding remove
remove-some str n n' e = rw (e, remove)

remove_at-none : (str : List ℕ) (n : Node) → remove_at str n ≡ none → contains str n ≡ false
unfolding contains
remove_at-none [] (node b cs) h = unfold remove_at in ground (arith, h)
remove_at-none (ch ∷ str) (node b cs) h = elim (Option-cases (get_child ch cs)) [
  | inl e ↦ contains_in-missing ch str cs e
  | inr (child, e) ↦
      contains_in-get_child ch str cs child e ∙ elim (Option-cases (remove_at str child)) [
        | inl f ↦ remove_at-none str child f
        | inr (child', f) ↦ absurd (ground (arith, h, remove_at-child ch str b cs child child' e f))
      ]
]

contains-root_unmarked :
    (name : List ℕ) (b : Bool) (cs : Children)
    → contains name (node false cs) ≡ (not (same_name name []) && contains name (node b cs))
unfolding contains same_name
contains-root_unmarked [] b cs = refl
contains-root_unmarked (d ∷ name) b cs = refl

contains-child_removed :
    (name str : List ℕ) (ch : ℕ) (b : Bool) (cs : Children) (child child' : Node)
    → get_child ch cs ≡ some child
    → ((rest : List ℕ) → contains rest child' ≡ (not (same_name rest str) && contains rest child))
    → contains name (node b (put_back ch child' cs))
      ≡ (not (same_name name (ch ∷ str)) && contains name (node b cs))
unfolding contains same_name
contains-child_removed [] str ch b cs child child' e below = refl
contains-child_removed (d ∷ name) str ch b cs child child' e below = ground (
  arith,
  contains_in-put_back d ch name child' cs,
  below name,
  contains_in-get_child ch name cs child e,
)

remove_at-some :
    (name str : List ℕ) (n n' : Node)
    → remove_at str n ≡ some n'
    → contains name n' ≡ (not (same_name name str) && contains name n)
remove_at-some name [] (node b cs) n' h =
    let root : some (node false cs) ≡ some n' = unfold remove_at in h in
    ground (arith, root, contains-root_unmarked name b cs)
remove_at-some name (ch ∷ str) (node b cs) n' h = elim (Option-cases (get_child ch cs)) [
  | inl e ↦ absurd (ground (arith, h, remove_at-missing ch str b cs e))
  | inr (child, e) ↦ elim (Option-cases (remove_at str child)) [
    | inl f ↦ absurd (ground (arith, h, remove_at-stuck ch str b cs child e f))
    | inr (child', f) ↦ ground (
      arith,
      h,
      remove_at-child ch str b cs child child' e f,
      contains-child_removed name str ch b cs child child' e
          (λ rest. remove_at-some rest str child child' f),
    )
  ]
]

contains-kept :
    (name str : List ℕ) (n : Node)
    → contains str n ≡ false
    → contains name n ≡ (not (same_name name str) && contains name n)
contains-kept name str n h = elim (Bool-cases (same_name name str)) [
  | inl e ↦ ground (arith, e, h, ap (λ s. contains s n) (same_name→≡ name str e))
  | inr e ↦ ground (arith, e)
]

-- The tree holds a name after a remove exactly when it is not the one removed and was there before.
pub contains-remove :
    (name str : List ℕ) (n : Node)
    → contains name (remove str n) ≡ (not (same_name name str) && contains name n)
contains-remove name str n = elim (Option-cases (remove_at str n)) [
  | inl e ↦ rw (remove-none str n e) (contains-kept name str n (remove_at-none str n e))
  | inr (n', e) ↦ rw (remove-some str n n' e) (remove_at-some name str n n' e)
]
