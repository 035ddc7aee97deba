-- ===== src/Game/Wildcard/Online.antt =====
-- The tree after any sequence of inserts and removes of names.
use rubyserver.Base.{ℕ, ◌≡◌, refl, ◌∙◌, ap, Bool, not, ◌&&◌, ◌||◌, List, [], ◌∷◌}
use rubyserver.Game.Wildcard.{Node, insert, remove}
use rubyserver.Game.Wildcard.Names.{contains, same_name, contains-insert, contains-remove}
use rubyserver.Game.Wildcard.Trees.{IsTree, insert-IsTree, remove-IsTree}

-- Players who come and go; a name has a first letter.
pub data Change : Type 0 where
  comes : ℕ → List ℕ → Change
  goes : List ℕ → Change

unfoldable pub change : Change → Node → Node
change (comes ch str) n = insert ch str n
change (goes str) n = remove str n

unfoldable pub run : List Change → Node → Node
run [] n = n
run (c ∷ cs) n = run cs (change c n)

-- The set of names itself: whether a name is there after the changes.
unfoldable pub there : List ℕ → List Change → Bool → Bool
there name [] b = b
there name (comes ch str ∷ cs) b = there name cs (same_name name (ch ∷ str) || b)
there name (goes str ∷ cs) b = there name cs (not (same_name name str) && b)

-- Through any sequence of inserts and removes the tree keeps its shape, and holds exactly the names of
-- the set on which the same inserts and removes were done.
pub run-there :
    (cs : List Change) (name : List ℕ) (n : Node)
    → IsTree n
    → IsTree (run cs n) × (contains name (run cs n) ≡ there name cs (contains name n))
unfolding run change there
run-there [] name n h = (h, refl)
run-there (comes ch str ∷ cs) name n h =
    let later = run-there cs name (insert ch str n) (insert-IsTree str ch n h) in
    (later.0, later.1 ∙ ap (there name cs) (contains-insert name str ch n))
run-there (goes str ∷ cs) name n h =
    let later = run-there cs name (remove str n) (remove-IsTree str n h) in
    (later.0, later.1 ∙ ap (there name cs) (contains-remove name str n))
