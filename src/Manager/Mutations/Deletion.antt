-- ===== src/Manager/Mutations/Deletion.antt =====
-- DeleteNodes: which nodes end where, and which nodes the adapter is asked to delete.
use sylos_fs.Base.{
  String, List, [], ◌∷◌, ◌++◌, append-nil, append_assoc, subst, Option, none, some, ◌≡◌, refl, sym,
  ap, ◌∙◌, inl, inr, Option-cases,
}
use sylos_fs.Manager.Mutations.{
  NodeRef, MutationError, adapter_error, DeleteNodesResult, Adapter, validate_delete_node,
  add_error, add_deleted, after_delete, delete_one, delete_loop, nothing_yet, delete_nodes,
}

-- What becomes of the nodes of a request, one after the other: from a world, the ids that end among the
-- deleted and those that end with an error, each with its error, and the world that is left.
pub data Deletes {E W : Type 0} (adapter : Adapter E W)
    : List NodeRef → W → List String → List (String × MutationError E) → W → Type 0 where
  all_done : {w : W} → Deletes adapter [] w [] [] w
  -- The node does not pass its validation, and the adapter is not called.
  refused :
      {node : NodeRef} {nodes : List NodeRef} {w v : W} {ds : List String}
      {es : List (String × MutationError E)} {e : MutationError E}
      → validate_delete_node node ≡ some e
      → Deletes adapter nodes w ds es v
      → Deletes adapter (node ∷ nodes) w ds ((node.id, e) ∷ es) v
  -- The adapter answers with an error.
  failed :
      {node : NodeRef} {nodes : List NodeRef} {w u v : W} {ds : List String}
      {es : List (String × MutationError E)} {x : E}
      → validate_delete_node {E = E} node ≡ none
      → adapter.delete_node node.id node.type w ≡ (some x, u)
      → Deletes adapter nodes u ds es v
      → Deletes adapter (node ∷ nodes) w ds ((node.id, adapter_error x) ∷ es) v
  -- The adapter has deleted the node.
  deleted :
      {node : NodeRef} {nodes : List NodeRef} {w u v : W} {ds : List String}
      {es : List (String × MutationError E)}
      → validate_delete_node {E = E} node ≡ none
      → adapter.delete_node node.id node.type w ≡ (none, u)
      → Deletes adapter nodes u ds es v
      → Deletes adapter (node ∷ nodes) w (node.id ∷ ds) es v

module _ {E W : Type 0} (adapter : Adapter E W) where
  -- What the loop adds to a result.
  abbrev Adds : List NodeRef → W → DeleteNodesResult E → DeleteNodesResult E × W → Type 0
  Adds nodes w r (r', v) =
      (ds : List String) × (es : List (String × MutationError E)) × Deletes adapter nodes w ds es v
      × (r'.deleted ≡ r.deleted ++ ds)
      × (r'.errors ≡ r.errors ++ es)

  -- How one node leaves the result and the world.
  data One (node : NodeRef) (r : DeleteNodesResult E) (w : W)
      : DeleteNodesResult E × W → Type 0 where
    one_refused :
        (e : MutationError E)
        → validate_delete_node node ≡ some e
        → One node r w (add_error node e r, w)
    one_failed :
        (x : E) (u : W)
        → validate_delete_node {E = E} node ≡ none
        → adapter.delete_node node.id node.type w ≡ (some x, u)
        → One node r w (add_error node (adapter_error x) r, u)
    one_deleted :
        (u : W)
        → validate_delete_node {E = E} node ≡ none
        → adapter.delete_node node.id node.type w ≡ (none, u)
        → One node r w (add_deleted node r, u)

  after_delete-One :
      (node : NodeRef) (r : DeleteNodesResult E) (w : W) (a : Option E × W)
      → validate_delete_node {E = E} node ≡ none
      → adapter.delete_node node.id node.type w ≡ a
      → One node r w (after_delete node r a)
  after_delete-One node r w (none, u) valid e = one_deleted u valid e
  after_delete-One node r w (some x, u) valid e = one_failed x u valid e

  delete_one-One :
      (node : NodeRef) (r : DeleteNodesResult E) (w : W)
      → One node r w (delete_one adapter node (r, w))
  delete_one-One node r w = elim (Option-cases (validate_delete_node {E = E} node)) [
    | inl valid ↦ rw (valid, delete_one) (after_delete-One node r w _ valid refl)
    | inr (e, invalid) ↦ rw (invalid, delete_one) (one_refused e invalid)
  ]

  One-Adds :
      (node : NodeRef) (nodes : List NodeRef) (r : DeleteNodesResult E) (w : W)
      (s t : DeleteNodesResult E × W)
      → One node r w s
      → Adds nodes s.1 s.0 t
      → Adds (node ∷ nodes) w r t
  One-Adds node nodes r w _ t (one_refused e invalid) (ds, es, rest, d, x) =
      (ds, (node.id, e) ∷ es, refused invalid rest, d, x ∙ append_assoc r.errors _ es)
  One-Adds node nodes r w _ t (one_failed y u valid called) (ds, es, rest, d, x) = (
    ds,
    (node.id, adapter_error y) ∷ es,
    failed valid called rest,
    d,
    x ∙ append_assoc r.errors _ es,
  )
  One-Adds node nodes r w _ t (one_deleted u valid called) (ds, es, rest, d, x) =
      (node.id ∷ ds, es, deleted valid called rest, d ∙ append_assoc r.deleted _ ds, x)

  delete_loop-Adds :
      (nodes : List NodeRef) (s : DeleteNodesResult E × W)
      → Adds nodes s.1 s.0 (delete_loop adapter nodes s)
  delete_loop-Adds [] s = ([], [], all_done, sym (append-nil _), sym (append-nil _))
  delete_loop-Adds (node ∷ nodes) s =
      One-Adds node nodes s.0 s.1 (delete_one adapter node s) _ (delete_one-One node s.0 s.1)
        (delete_loop-Adds nodes (delete_one adapter node s))

  -- A request of some nodes ends without an error of its own. In order, each node is refused by its
  -- validation, and the adapter is not called, or DeleteNode is called for it, in the world that the
  -- nodes before it have left. Its id is among the deleted if DeleteNode answers without an error, and
  -- otherwise in the list of errors, with the error of the validation or of the adapter.
  pub delete_nodes-Deletes :
      (node : NodeRef) (nodes : List NodeRef) (w : W)
      → let ((error, result), v) = delete_nodes adapter (node ∷ nodes) w in
        (error ≡ none) × Deletes adapter (node ∷ nodes) w result.deleted result.errors v
  unfolding delete_nodes
  delete_nodes-Deletes node nodes w =
      let (ds, es, rest, d, x) = delete_loop-Adds (node ∷ nodes) (nothing_yet, w) in
      (refl, rw (d, x) rest)

  One-keeps :
      (P : W → Type 0) (node : NodeRef) (r : DeleteNodesResult E) (w : W)
      (s : DeleteNodesResult E × W)
      → (validate_delete_node {E = E} node ≡ none → P (adapter.delete_node node.id node.type w).1)
      → P w
      → One node r w s
      → P s.1
  One-keeps P node r w _ h p (one_refused e invalid) = p
  One-keeps P node r w _ h p (one_failed x u valid called) =
      subst P (ap (λ q. q.1) called) (h valid)
  One-keeps P node r w _ h p (one_deleted u valid called) = subst P (ap (λ q. q.1) called) (h valid)

  delete_loop-keeps :
      (P : W → Type 0) (nodes : List NodeRef) (r : DeleteNodesResult E) (w : W)
      → ((node : NodeRef) (v : W)
          → validate_delete_node {E = E} node ≡ none
          → P v
          → P (adapter.delete_node node.id node.type v).1)
      → P w
      → P (delete_loop adapter nodes (r, w)).1
  delete_loop-keeps P [] r w h p = p
  delete_loop-keeps P (node ∷ nodes) r w h p = delete_loop-keeps P nodes _ _ h (
      One-keeps P node r w (delete_one adapter node (r, w)) (λ valid. h node w valid p) p
        (delete_one-One node r w))

  -- A property of the world that DeleteNode keeps whenever it is called for a node that passes
  -- validation holds after DeleteNodes if it held before.
  pub delete_nodes-keeps :
      (P : W → Type 0) (nodes : List NodeRef) (w : W)
      → ((node : NodeRef) (v : W)
          → validate_delete_node {E = E} node ≡ none
          → P v
          → P (adapter.delete_node node.id node.type v).1)
      → P w
      → P (delete_nodes adapter nodes w).1
  unfolding delete_nodes
  delete_nodes-keeps P [] w h p = p
  delete_nodes-keeps P (node ∷ nodes) w h p = delete_loop-keeps P (node ∷ nodes) nothing_yet w h p
