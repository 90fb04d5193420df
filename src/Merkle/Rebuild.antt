-- ===== src/Merkle/Rebuild.antt =====
-- `RebuildTree` of tools/merkletree.go.
use tradeverse_api.Prelude.{Bool, List, [], ◌∷◌, some, ◌≡◌, ◌≢◌, arith, inl, inr, ap, ◌∙◌}
use tradeverse_api.Prelude.{Option-cases}
use tradeverse_api.Merkle.{
  Bytes, TreeContent, Leaf, MerkleTree, new_leafs, contents, new_tree, rebuild,
}

module _ {C : Type 0} (content : TreeContent C) (hash : Bytes → Bytes) where
  new_leafs-contents :
      (cs : List C) (ls : List (Leaf C))
      → new_leafs content hash cs ≡ some ls
      → contents content hash ls ≡ cs
  unfolding new_leafs
  new_leafs-contents [] ls e = ground arith
  new_leafs-contents (c ∷ cs) ls e = elim (Option-cases (new_leafs content hash cs)) [
    | inl n ↦ ground arith
    | inr (ls', n) ↦ ground (arith, new_leafs-contents cs ls' n)
  ]

  grown_kept :
      (sort : Bool) (c : C) (cs : List C) (t : MerkleTree C)
      → new_tree content hash sort (c ∷ cs) ≡ some t
      → (t.sort ≡ sort) × (new_leafs content hash (c ∷ cs) ≡ some t.leafs)
  unfolding new_tree
  grown_kept sort c cs t e = elim (Option-cases (new_leafs content hash (c ∷ cs))) [
    | inl n ↦ ground arith
    | inr (ls', n) ↦ ground arith
  ]

  no_tree : (sort : Bool) (t : MerkleTree C) → new_tree content hash sort [] ≢ some t
  unfolding new_tree
  no_tree sort t e = ground arith

  -- A tree that has been built is built again, as it was, from the contents of its leaves.
  pub rebuild-new_tree :
      (sort : Bool) (cs : List C) (t : MerkleTree C)
      → new_tree content hash sort cs ≡ some t
      → rebuild content hash t ≡ some t
  unfolding rebuild
  rebuild-new_tree sort [] t e = absurd (no_tree sort t e)
  rebuild-new_tree sort (c ∷ cs) t e =
      let (sorted, leafed) = grown_kept sort c cs t e in
      let same = new_leafs-contents (c ∷ cs) t.leafs leafed in
      ap (λ b. new_tree content hash b (contents content hash t.leafs)) sorted
      ∙ (ap (new_tree content hash sort) same ∙ e)
