-- ===== src/Memtable/Levels.antt =====
-- The links of each level under Add: the loop over `preds` of Add, which links the new node on the
-- levels below its height, each behind the last node of the level that is before its key.
use basalt.Prelude.{ℕ, ◌≡◌, List, [], ◌∷◌, ◌++◌, ltb, if◌then◌else◌}
use basalt.Memtable.{SkipNode}
use basalt.Memtable.Search.{Below}
use basalt.Memtable.Insert.{AllBefore}

-- The chain that the next links of level `level` make from the head.
unfoldable pub links : ℕ → List SkipNode → List SkipNode
links level [] = []
links level (n ∷ rest) = if ltb level n.height then n ∷ links level rest else links level rest

-- One level before and after a node went in: `front` ends with the predecessor, `back` starts with
-- the node that the predecessor was linked to.
pub record Linked (level : ℕ) (n : SkipNode) (was now : List SkipNode) : Type 0 where
  pub front : List SkipNode
  pub back : List SkipNode
  pub before : was ≡ front ++ back
  pub after : now ≡ front ++ (if ltb level n.height then n ∷ back else back)
  pub in_front : AllBefore n.key front
  pub behind : Below n.key back
