-- ===== src/Merkle/Tests.antt =====
-- Trees over three numbers, each hashed to the list of itself; a byte string is hashed to itself.
use tradeverse_api.Prelude.{ℕ, true, false, List, [], ◌∷◌, ◌==◌, some, ◌≡◌, refl, arith}
use tradeverse_api.Merkle.{
  new_leafs, build_intermediate, next_level, pair, sort_append, find_leaf, climb, ancestors, Bytes,
  TreeContent, Leaf, Node, leaf, branch, MerkleTree, new_tree, verify_content, get_merkle_path,
}
use tradeverse_api.Merkle.Laws.{Proves, merkle_path-Proves}
use tradeverse_api.Merkle.Checks.{AllHash, verify_content-contains}

abbrev content : TreeContent ℕ
content = record { calculate_hash = λ n. some (n ∷ []); equals = λ a b. some (a == b) }

abbrev hash : Bytes → Bytes
hash bs = bs

three_hash : AllHash content hash false (1 ∷ 2 ∷ 3 ∷ [])
three_hash = (ground arith, (ground arith, (ground arith, tt)))

abbrev one : Leaf ℕ
one = record { digest = 1 ∷ []; content = 1 }

abbrev two : Leaf ℕ
two = record { digest = 2 ∷ []; content = 2 }

abbrev last : Leaf ℕ
last = record { digest = 3 ∷ []; content = 3 }

-- The third leaf is alone, so it is paired with itself.
abbrev left : Node ℕ
left = branch (1 ∷ 2 ∷ []) (leaf one) (leaf two)

abbrev right : Node ℕ
right = branch (3 ∷ 3 ∷ []) (leaf last) (leaf last)

abbrev top : Node ℕ
top = branch (1 ∷ 2 ∷ 3 ∷ 3 ∷ []) left right

abbrev tree : MerkleTree ℕ
tree = record {
  root = top;
  merkle_root = 1 ∷ 2 ∷ 3 ∷ 3 ∷ [];
  leafs = one ∷ two ∷ last ∷ [];
  parents = (left ∷ right ∷ []) ∷ (top ∷ []) ∷ [];
  sort = false;
}

built : new_tree content hash false (1 ∷ 2 ∷ 3 ∷ []) ≡ some tree
unfolding new_tree new_leafs build_intermediate next_level pair sort_append
built = refl

verify_content-contains_example : verify_content content hash tree 2 ≡ some true
verify_content-contains_example =
    verify_content-contains content hash false (1 ∷ 2 ∷ 3 ∷ []) tree 2 built

-- The path of the third leaf: itself on the right, then the pair on the left.
abbrev path : List (Bytes × ℕ)
path = (3 ∷ [], 1) ∷ (1 ∷ 2 ∷ [], 0) ∷ []

path_found : get_merkle_path content hash tree 3 ≡ some (some (last, some path))
unfolding get_merkle_path find_leaf climb ancestors
path_found = refl

merkle_path-Proves_example :
    Proves content hash false 3 (1 ∷ 2 ∷ 3 ∷ 3 ∷ []) (some (last, some path))
merkle_path-Proves_example =
    merkle_path-Proves content hash false (1 ∷ 2 ∷ 3 ∷ []) tree 3 (some (last, some path)) built
      path_found
