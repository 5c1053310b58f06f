-- ===== src/Session/Tree.antt =====
-- session/tree.go: the walk from the leaf to the root, and the messages of the current branch.
use piglet.Prelude.{
  ℕ, zero, suc, String, Option, none, some, List, [], ◌∷◌, ◌++◌, str_eq, lookup, length,
  if◌then◌else◌, ◌>>=◌,
}
use piglet.Core.Types.{Message}
use piglet.Session.Types.{Node, Nodes, Session}

-- The loop of `branchPath`. The source appends and reverses at the end; here each entry goes to the
-- front. `none` means that the fuel ran out.
unfoldable pub branch_loop : ℕ → Nodes → String → List String → Option (List String)
branch_loop zero nodes current path = none
branch_loop (suc fuel) nodes current path =
    if str_eq current "" then some path else elim (lookup current nodes) [
      | none ↦ some (current ∷ path)
      | some n ↦ branch_loop fuel nodes n.parent_id (current ∷ path)
    ]

-- `branchPath`, with one round for each node and one for the test that ends the loop.
unfoldable pub branch_path : Session → Option (List String)
unfolding branch_loop
branch_path s = branch_loop (suc (length s.nodes)) s.nodes s.leaf_id []

-- One round of the loop of `buildBranch`: a compact entry replaces all that came before.
unfoldable pub add_node : Node → List Message → List Message
add_node n msgs = elim n.compact [
  | some c ↦ c
  | none ↦ elim n.message [ some m ↦ msgs ++ m ∷ [] | none ↦ msgs ]
]

unfoldable pub build_loop : Nodes → List String → List Message → List Message
unfolding add_node
build_loop nodes [] msgs = msgs
build_loop nodes (id ∷ path) msgs =
    build_loop nodes path (elim (lookup id nodes) [ none ↦ msgs | some n ↦ add_node n msgs ])

-- `buildBranch`, which `Messages` returns.
unfoldable pub messages : Session → Option (List Message)
unfolding branch_path build_loop
messages s = do path ← branch_path s; some (build_loop s.nodes path [])
