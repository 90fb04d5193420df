-- ===== src/Merkle/Laws.antt =====
-- What the paths and the checks of a tree that tools/merkletree.go has built say.
use tradeverse_api.Prelude.{
  ℕ, zero, suc, ◌+◌, ◌<◌, Bool, true, List, [], ◌∷◌, ◌≡◌, ◌⊎◌, inl, inr, refl, Option, none, some,
  length, arith, Option-cases, Bool-cases, ◌==◌, if◌then◌else◌, sym, subst, bytes_equal,
  bytes_equal_self, eq_of_bytes_equal,
}
use tradeverse_api.Merkle.{
  Bytes, TreeContent, Node, Leaf, MerkleTree, leaf, hash_of, pair, new_leaf, add_leaf, new_leafs,
  nodes_of, planted, grown, new_tree, build_intermediate, ancestors, get_elem?, sort_append,
  find_leaf, sibling, step_up, climb, get_merkle_path,
}
use tradeverse_api.Merkle.Links.{Climbs, Rises, build_intermediate-Rises, AllHashed}

module _ {C : Type 0} (content : TreeContent C) (hash : Bytes → Bytes) (sort : Bool) where
  -- The hash one level up, from a hash and its sibling.
  abbrev pub hash_with : Bytes → Bytes × ℕ → Bytes
  hash_with h (s, i) = if i == 1 then hash (sort_append sort h s) else hash (sort_append sort s h)

  -- How a verifier that has only the path recomputes the root.
  abbrev pub recompute : Bytes → List (Bytes × ℕ) → Bytes
  recompute h [] = h
  recompute h (s ∷ path) = recompute (hash_with h s) path

  abbrev pub Leads : Bytes → Bytes → Option (List (Bytes × ℕ)) → Type 0
  Leads h root none = ⊥
  Leads h root (some path) = recompute h path ≡ root

  sibling_lem :
      (x l r : Node C)
      → (x ≡ l) ⊎ (x ≡ r)
      → (s : Bytes × ℕ) × (sibling content hash x (pair content hash sort l r) ≡ some s)
        × (hash_with (hash_of x) s ≡ hash_of (pair content hash sort l r))
  unfolding sibling pair
  sibling_lem x l r e = elim (Bool-cases (bytes_equal (hash_of l) (hash_of x))) [
    | inl same ↦
        ((hash_of r, 1), rw same, ground (arith, eq_of_bytes_equal (hash_of l) (hash_of x)))
    | inr other ↦ ((hash_of l, 0), rw other, ground (arith, bytes_equal_self (hash_of l)))
  ]

  step_up-Leads :
      (h root : Bytes) (s : Bytes × ℕ) (o : Option (List (Bytes × ℕ)))
      → Leads (hash_with h s) root o
      → Leads h root (step_up content hash (some s) o)
  unfolding step_up
  step_up-Leads h root s none k = k
  step_up-Leads h root s (some path) k = k

  climb-Leads :
      (x : Node C) (ps : List (Node C)) (root : Node C)
      → Climbs content hash sort x ps root
      → Leads (hash_of x) (hash_of root) (climb content hash x ps)
  unfolding climb
  climb-Leads x [] root h = rw h refl
  climb-Leads x (p ∷ ps) root ((l, r, e, side), above) =
      let (s, es, eh) = sibling_lem x l r side in
      let k : Leads (hash_of p) (hash_of root) (climb content hash p ps) =
        climb-Leads p ps root above in
      let e' : sibling content hash x p ≡ some s = rw e es in
      let h' : hash_of p ≡ hash_with (hash_of x) s = rw e (sym eh) in
      rw e' (step_up-Leads (hash_of x) (hash_of root) s (climb content hash p ps) (rw (sym h') k))

  -- What `new_tree` has put together.
  pub record Grown (cs : List C) (t : MerkleTree C) : Type 0 where
    pub leafed : new_leafs content hash cs ≡ some t.leafs
    pub sorted : t.sort ≡ sort
    pub built :
        build_intermediate content hash (suc (length t.leafs)) sort (nodes_of content hash t.leafs)
        ≡ some (t.root, t.parents)
    pub rooted : t.merkle_root ≡ hash_of t.root
    pub inhabited : 0 < length cs

  pub new_tree-Grown :
      (cs : List C) (t : MerkleTree C) → new_tree content hash sort cs ≡ some t → Grown cs t
  unfolding new_tree grown planted
  new_tree-Grown [] t e = ground arith
  new_tree-Grown (c ∷ cs) t e = elim (Option-cases (new_leafs content hash (c ∷ cs))) [
    | inl n ↦ ground arith
    | inr (ls, n) ↦
        elim (Option-cases
          (build_intermediate content hash (suc (length ls)) sort (nodes_of content hash ls))) [
            | inl m ↦ ground arith
            | inr ((root, levels), m) ↦ ground arith
          ]
  ]

  pub new_leafs-AllHashed :
      (cs : List C) (ls : List (Leaf C))
      → new_leafs content hash cs ≡ some ls
      → AllHashed content hash sort (nodes_of content hash ls) × (length ls ≡ length cs)
  unfolding new_leafs new_leaf add_leaf
  new_leafs-AllHashed [] ls e = ground arith
  new_leafs-AllHashed (c ∷ cs) ls e = elim (Option-cases (content.calculate_hash c)) [
    | inl n ↦ ground arith
    | inr (h, n) ↦ elim (Option-cases (new_leafs content hash cs)) [
      | inl m ↦ ground arith
      | inr (ls', m) ↦ ground (arith, new_leafs-AllHashed cs ls')
    ]
  ]

  AllHashed-get_elem? :
      (ls : List (Leaf C)) (i : ℕ) (l : Leaf C)
      → AllHashed content hash sort (nodes_of content hash ls)
      → get_elem? ls i ≡ some l
      → (content.calculate_hash l.content ≡ some l.digest)
        × (get_elem? (nodes_of content hash ls) i ≡ some (leaf l))
  AllHashed-get_elem? [] i l h e = ground arith
  AllHashed-get_elem? (x ∷ xs) zero l h e = ground arith
  AllHashed-get_elem? (x ∷ xs) (suc i) l h e = AllHashed-get_elem? xs i l h.1 e

  -- A leaf that is found stands at its place and equals the content.
  find_leaf-found :
      (n : ℕ) (ls : List (Leaf C)) (c : C) (i : ℕ) (l : Leaf C)
      → find_leaf content hash n ls c ≡ some (some (i, l))
      → (content.equals l.content c ≡ some true)
        × ((k : ℕ) × (i ≡ n + k) × (get_elem? ls k ≡ some l))
  unfolding find_leaf
  find_leaf-found n [] c i l e = ground arith
  find_leaf-found n (x ∷ xs) c i l e = elim (Option-cases (content.equals x.content c)) [
    | inl q ↦ ground arith
    | inr (b, q) ↦ elim (Bool-cases b) [
      | inl y ↦ (ground arith, (0, ground arith, ground arith))
      | inr y ↦
          let (same, (k, at, here)) = find_leaf-found (suc n) xs c i l (ground arith) in
          (same, (suc k, omega arith, here))
    ]
  ]

  pub length-nodes_of : (ls : List (Leaf C)) → length (nodes_of content hash ls) ≡ length ls
  length-nodes_of [] = omega arith
  length-nodes_of (l ∷ ls) = omega (arith, length-nodes_of ls)

  -- In a tree that was built over `cs`, a found leaf is hashed and its chain leads to the root.
  pub leaf-Climbs :
      (cs : List C) (t : MerkleTree C) (c : C) (i : ℕ) (l : Leaf C)
      → new_tree content hash sort cs ≡ some t
      → find_leaf content hash 0 t.leafs c ≡ some (some (i, l))
      → (content.equals l.content c ≡ some true)
        × (content.calculate_hash l.content ≡ some l.digest)
        × Climbs content hash sort (leaf l) (ancestors content hash i t.parents) t.root
        × (t.merkle_root ≡ hash_of t.root)
  leaf-Climbs cs t c i l e f =
      let g = new_tree-Grown cs t e in
      let (hashed, long) = new_leafs-AllHashed cs t.leafs g.leafed in
      let (same, (k, at, here)) = find_leaf-found 0 t.leafs c i l f in
      let (digest, node) = AllHashed-get_elem? t.leafs k l hashed here in
      let rises =
        build_intermediate-Rises content hash sort (suc (length t.leafs))
          (nodes_of content hash t.leafs) (omega (arith, length-nodes_of t.leafs, g.inhabited))
          (omega (arith, length-nodes_of t.leafs)) in
      let up : Rises content hash sort (nodes_of content hash t.leafs) (some (t.root, t.parents)) =
        subst (Rises content hash sort (nodes_of content hash t.leafs)) g.built rises in
      let i≡k : i ≡ k = omega arith in (same, digest, rw i≡k (up k (leaf l) node), g.rooted)

  abbrev pub Proves : C → Bytes → Option (Leaf C × Option (List (Bytes × ℕ))) → Type 0
  Proves c root none = Unit
  Proves c root (some (l, path)) =
      (content.equals l.content c ≡ some true)
      × (content.calculate_hash l.content ≡ some l.digest)
      × Leads l.digest root path

  -- A path that a built tree gives for a content belongs to a leaf that equals the content and whose
  -- digest is its hash, and it proves that leaf: its hashes, combined in turn with the leaf's on the
  -- sides that the path names, give the Merkle root.
  pub merkle_path-Proves :
      (cs : List C) (t : MerkleTree C) (c : C) (found : Option (Leaf C × Option (List (Bytes × ℕ))))
      → new_tree content hash sort cs ≡ some t
      → get_merkle_path content hash t c ≡ some found
      → Proves c t.merkle_root found
  unfolding get_merkle_path
  merkle_path-Proves cs t c found e p = elim (Option-cases (find_leaf content hash 0 t.leafs c)) [
    | inl n ↦ ground arith
    | inr (none, n) ↦ ground arith
    | inr (some (i, l), n) ↦
        let (same, digest, up, rooted) = leaf-Climbs cs t c i l e n in
        let path = climb content hash (leaf l) (ancestors content hash i t.parents) in
        let leads = climb-Leads (leaf l) (ancestors content hash i t.parents) t.root up in
        let is_path : some (l, path) ≡ found = ground arith in
        rw (sym is_path) (same, digest, rw rooted leads)
  ]
