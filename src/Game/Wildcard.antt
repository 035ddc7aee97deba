-- ===== src/Game/Wildcard.antt =====
-- WildcardTreeNode of src/wildcardtree.cpp: a tree of the names that are online, searched by the start of
-- a name. A std::map of children is a list of keys and nodes; a pointer that walks down the tree and is
-- written through is a recursion that puts each changed child back.
pub mod Names
pub mod Trees
pub mod Search
pub mod Online
use rubyserver.Base.{
  ℕ, Bool, true, false, not, ◌&&◌, ◌||◌, List, [], ◌∷◌, ◌++◌, Option, none, some, ◌==◌,
  if◌then◌else◌,
}

mutual
  pub data Node : Type 0 where
    node : Bool → Children → Node

  pub data Children : Type 0 where
    nil : Children
    cons : ℕ → Node → Children → Children

abbrev pub breakpoint : Node → Bool
breakpoint (node b cs) = b

abbrev pub children : Node → Children
children (node b cs) = cs

abbrev pub is_nil : Children → Bool
is_nil nil = true
is_nil (cons c n cs) = false

-- children.find(ch): getChild
unfoldable pub get_child : ℕ → Children → Option Node
get_child ch nil = none
get_child ch (cons c n cs) = if ch == c then some n else get_child ch cs

-- The child of a key written, or put behind the others where it is new.
unfoldable pub set_child : ℕ → Node → Children → Children
set_child ch child nil = cons ch child nil
set_child ch child (cons c n cs) =
    if ch == c then cons c child cs else cons c n (set_child ch child cs)

unfoldable pub erase_child : ℕ → Children → Children
erase_child ch nil = nil
erase_child ch (cons c n cs) = if ch == c then erase_child ch cs else cons c n (erase_child ch cs)

-- addChild: the child that is there, marked if asked for, or a new one.
unfoldable pub add_child : ℕ → Bool → Children → Node
add_child ch mark cs = elim (get_child ch cs) [
  | none ↦ node mark nil
  | some child ↦ node (mark || breakpoint child) (children child)
]

-- insert of a string that is not empty, as its first character and the others. The source reads
-- outside of an empty one.
unfoldable pub insert : ℕ → List ℕ → Node → Node
insert ch [] (node b cs) = node b (set_child ch (add_child ch true cs) cs)
insert ch (next ∷ str) (node b cs) =
    node b (set_child ch (insert next str (add_child ch false cs)) cs)

-- The test of the loop in remove that lets a node be erased from its parent.
abbrev pub is_dead : Node → Bool
is_dead n = is_nil (children n) && not (breakpoint n)

unfoldable pub put_back : ℕ → Node → Children → Children
put_back ch child cs = if is_dead child then erase_child ch cs else set_child ch child cs

-- remove: `none` where the walk down meets no child. The path on the stack is the recursion's.
unfoldable pub remove_at : List ℕ → Node → Option Node
remove_at [] (node b cs) = some (node false cs)
remove_at (ch ∷ str) (node b cs) = elim (get_child ch cs) [
  | none ↦ none
  | some child ↦ elim (remove_at str child) [
    | none ↦ none
    | some child' ↦ some (node b (put_back ch child' cs))
  ]
]

unfoldable pub remove : List ℕ → Node → Node
remove str n = elim (remove_at str n) [ none ↦ n | some n' ↦ n' ]

-- The answers of findOne, with the result on success.
pub data Found : Type 0 where
  found : List ℕ → Found
  not_online too_ambiguous : Found

-- The loop of findOne below the node of the query: `result` so far.
unfoldable mutual
  pub find_end : List ℕ → Node → Found
  find_end result (node b cs) = find_only b result cs

  pub find_only : Bool → List ℕ → Children → Found
  find_only b result nil = found result
  find_only b result (cons c n nil) =
      let below = find_end (result ++ (c ∷ [])) n in if b then too_ambiguous else below
  find_only b result (cons c n (cons d m cs)) = too_ambiguous

unfoldable pub walk : List ℕ → Node → Option Node
walk [] n = some n
walk (ch ∷ query) (node b cs) = elim (get_child ch cs) [
  | none ↦ none
  | some child ↦ walk query child
]

unfoldable pub find_one : List ℕ → Node → Found
find_one query n = elim (walk query n) [ none ↦ not_online | some end ↦ find_end query end ]
