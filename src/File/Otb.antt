-- ===== src/File/Otb.antt =====
-- OTB::Loader of src/fileloader.cpp: a file is a tree of nodes between START and END bytes, with its
-- node properties escaped. The iterators of the source are the bytes that lie between them; an
-- exception of type InvalidOTBFormat is `none`.
pub mod Roundtrip
use rubyserver.Base.{
  ℕ, ◌≤◌, Bool, true, false, not, ◌&&◌, List, [], ◌∷◌, ◌++◌, Option, none, some, ltb, ◌==◌,
  if◌then◌else◌, length, take, drop,
}

abbrev pub escape_byte : ℕ
escape_byte = 0xFD

abbrev pub start_byte : ℕ
start_byte = 0xFE

abbrev pub end_byte : ℕ
end_byte = 0xFF

-- A node: its type, the bytes from propsBegin to propsEnd, and its children in order.
mutual
  pub data Node : Type 0 where
    node : ℕ → List ℕ → Nodes → Node

  pub data Nodes : Type 0 where
    nil : Nodes
    cons : Node → Nodes → Nodes

unfoldable pub snoc : Nodes → Node → Nodes
snoc nil n = cons n nil
snoc (cons c cs) n = cons c (snoc cs n)

unfoldable pub is_nil : Nodes → Bool
is_nil nil = true
is_nil (cons c cs) = false

-- The constructor of Loader: the identifier is the accepted one or zeros, and a file of seven bytes
-- or fewer is refused.
unfoldable pub same_bytes : List ℕ → List ℕ → Bool
same_bytes [] [] = true
same_bytes (x ∷ xs) (y ∷ ys) = x == y && same_bytes xs ys
same_bytes _ _ = false

unfoldable pub accept_file : List ℕ → List ℕ → Option (List ℕ)
accept_file accepted contents =
    if ltb 7 (length contents)
    then (if not (same_bytes (take 4 contents) accepted)
          && not (same_bytes (take 4 contents) (0 ∷ 0 ∷ 0 ∷ 0 ∷ []))
        then none
        else some contents)
    else none

-- A node on the parse stack: it takes the bytes it meets for properties until it has a child.
pub record Open : Type 0 where
  pub type : ℕ
  pub props : List ℕ
  pub children : Nodes

-- What the next byte is: any, the type of a node that START opened, or one behind ESCAPE.
pub data Mode : Type 0 where
  plain typed escaped : Mode

-- The parse stack, top first, and the root once it is closed.
pub record State : Type 0 where
  pub mode : Mode
  pub stack : List Open
  pub root : Option Node

unfoldable pub close : Open → Node
close o = node o.type o.props o.children

unfoldable pub add_byte : ℕ → Open → Open
add_byte b o = if is_nil o.children then record o { props = o.props ++ (b ∷ []) } else o

-- A byte that belongs to the node at the top, if there is one.
unfoldable pub add_to_top : ℕ → List Open → List Open
add_to_top b [] = []
add_to_top b (o ∷ os) = add_byte b o ∷ os

-- case Node::START
unfoldable pub start_node : State → Option State
start_node s = elim s.stack [ [] ↦ none | o ∷ os ↦ some (record s { mode = typed }) ]

unfoldable pub push_node : ℕ → State → State
push_node t s = record s {
  mode = plain;
  stack = record { type = t; props = []; children = nil } ∷ s.stack;
}

-- case Node::END
unfoldable pub pop_node : State → List Open → Option State
pop_node s [] = none
pop_node s (o ∷ []) = some (record s { stack = []; root = some (close o) })
pop_node s (o ∷ parent ∷ os) =
    some (record s { stack = record parent { children = snoc parent.children (close o) } ∷ os })

-- The loop's body.
unfoldable pub step : ℕ → State → Option State
step b s = elim s.mode [
  | plain ↦
      if b == start_byte
      then start_node s
      else (if b == end_byte
          then pop_node s s.stack
          else (if b == escape_byte
              then some (record s { mode = escaped; stack = add_to_top b s.stack })
              else some (record s { stack = add_to_top b s.stack })))
  | typed ↦ some (push_node b s)
  | escaped ↦ some (record s { mode = plain; stack = add_to_top b s.stack })
]

-- Behind the loop: a node that is open, or a byte that is missing, is an error.
unfoldable pub finish : State → Option Node
finish s = elim s.mode [ plain ↦ elim s.stack [ [] ↦ s.root | o ∷ os ↦ none ] | _ ↦ none ]

unfoldable pub parse_loop : List ℕ → State → Option Node
parse_loop [] s = finish s
parse_loop (b ∷ bs) s = elim (step b s) [ none ↦ none | some s' ↦ parse_loop bs s' ]

-- parseTree
unfoldable pub parse_root : List ℕ → Option Node
parse_root (b ∷ t ∷ bs) =
    let rest = parse_loop bs (record {
      mode = plain;
      stack = record { type = t; props = []; children = nil } ∷ [];
      root = none;
    }) in
    if b == start_byte then rest else none
parse_root _ = none

unfoldable pub parse_tree : List ℕ → Option Node
parse_tree contents = parse_root (drop 4 contents)

-- A Loader of a file and its parseTree, as the loaders of items and maps call them.
unfoldable pub open_file : List ℕ → List ℕ → Option Node
open_file accepted contents = elim (accept_file accepted contents) [
  | none ↦ none
  | some contents' ↦ parse_tree contents'
]

-- getProps: the bytes without the escape in front of an escaped byte; `none` where there are none.
unfoldable pub unescape : Bool → List ℕ → List ℕ
unescape last_escaped [] = []
unescape last_escaped (b ∷ bs) =
    let now_escaped = b == escape_byte && not last_escaped in
    let rest = unescape now_escaped bs in if now_escaped then rest else b ∷ rest

unfoldable pub get_props : Node → Option (List ℕ)
get_props (node t [] cs) = none
get_props (node t (b ∷ bs) cs) = some (unescape false (b ∷ bs))
