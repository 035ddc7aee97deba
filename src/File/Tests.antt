-- ===== src/File/Tests.antt =====
-- The theorems on files at concrete trees and items, and runs of the code.
use rubyserver.Base.{◌≡◌, refl, List, [], ◌∷◌, none, some, arith, map}
use rubyserver.File.Otb.{
  Node, node, nil, cons, accept_file, open_file, same_bytes, parse_tree, get_props, parse_root,
  parse_loop, step, finish, add_to_top,
}
use rubyserver.File.Otb.Roundtrip.{raw, encode, is_bare, open_file-encode, get_props-raw}
use rubyserver.File.Props.{skip}
use rubyserver.File.Props.Roundtrip.{
  Item, word, string, kind, AreItems, write_items, read_items, read_items-write_items,
}

-- A root with a property that looks like a START byte, and two children.
abbrev tree : Node
tree = node 0 (0xFE ∷ 7 ∷ []) (cons (node 1 [] nil) (cons (node 2 (0xFD ∷ []) nil) nil))

open_file-encode_example :
    open_file (79 ∷ 84 ∷ 66 ∷ 73 ∷ []) (0 ∷ 0 ∷ 0 ∷ 0 ∷ encode tree) ≡ some (raw tree)
unfolding same_bytes is_bare
open_file-encode_example = open_file-encode (79 ∷ 84 ∷ 66 ∷ 73 ∷ []) 0 0 0 0 tree

get_props-raw_example : get_props (raw tree) ≡ some (0xFE ∷ 7 ∷ [])
get_props-raw_example =
    get_props-raw 0 0xFE (7 ∷ []) (cons (node 1 [] nil) (cons (node 2 (0xFD ∷ []) nil) nil))

abbrev items : List Item
items = word 2 0xFFFF ∷ string (82 ∷ 117 ∷ []) ∷ word 1 5 ∷ string [] ∷ []

items-AreItems : AreItems items
items-AreItems = (omega arith, (omega arith, (omega arith, (omega arith, tt))))

read_items-write_items_example :
    read_items (map kind items) (write_items items []) ≡ some (items, [])
read_items-write_items_example = read_items-write_items items items-AreItems

-- A file that ends inside a node, or behind an ESCAPE, is refused, and so is one of seven bytes.
parse_tree-open : parse_tree (0 ∷ 0 ∷ 0 ∷ 0 ∷ 0xFE ∷ 1 ∷ 9 ∷ []) ≡ none
unfolding parse_tree parse_root parse_loop step finish add_to_top
parse_tree-open = refl

accept_file-short : accept_file (79 ∷ []) (0 ∷ 0 ∷ 0 ∷ 0 ∷ 0xFE ∷ 1 ∷ 0xFF ∷ []) ≡ none
unfolding accept_file
accept_file-short = refl

skip-past : skip 3 (1 ∷ 2 ∷ []) ≡ none
unfolding skip
skip-past = refl
