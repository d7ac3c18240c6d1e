-- ===== src/Fat/FsTree/Map.antt =====
-- The tree of files is a map from paths to files, whatever insertions and deletions made it.
use operating_system_fa_maf.Common.{
  ℕ, ◌≡◌, ◌≢◌, refl, sym, ap, ◌∙◌, inl, inr, List, [], ◌∷◌, Option, none, some, Run, done, fault,
  ◌>>=◌, Run-cases, arith, subst,
}
use operating_system_fa_maf.Fat.Tree.{
  below, same, above, HTree, branch, h_tree_insert, h_tree_search, h_tree_get_data,
}
use operating_system_fa_maf.Fat.Tree.Search.{Sign-cases, or_new}
use operating_system_fa_maf.Fat.Tree.Delete.{h_tree_delete}
use operating_system_fa_maf.Fat.Tree.Delete.Removal.{inorder}
use operating_system_fa_maf.Fat.Tree.Sorted.{
  IsLinear, IsOrdered, h_tree_insert-IsOrdered, h_tree_delete-IsOrdered,
}
use operating_system_fa_maf.Fat.Tree.Scan.{h_tree_search-h_tree_delete}
use operating_system_fa_maf.Fat.PathOrder.{
  FileRef, strcmp, fat_file_cmp, fat_file_cmp_path, by_path, strcmp_same,
}
use operating_system_fa_maf.Fat.FsTree.{
  FatTree, fat_tree_init, fat_tree_insert, fat_tree_delete, fat_tree_search, search_from,
}
use operating_system_fa_maf.Fat.FsTree.Lookup.{fat_tree_search-eq, fat_tree_search-fat_tree_insert}

strcmp_below :
    (xs ys zs : List ℕ) → strcmp xs ys ≡ below → strcmp ys zs ≢ above → strcmp xs zs ≡ below
unfolding strcmp
strcmp_below [] [] zs h k = cc
strcmp_below [] (y ∷ ys) [] h k = absurd (k refl)
strcmp_below [] (y ∷ ys) (z ∷ zs) h k = refl
strcmp_below (x ∷ xs) [] zs h k = cc
strcmp_below (x ∷ xs) (y ∷ ys) [] h k = absurd (k refl)
strcmp_below (x ∷ xs) (y ∷ ys) (z ∷ zs) h k = let later = strcmp_below xs ys zs in ground arith

strcmp_above :
    (xs ys zs : List ℕ) → strcmp xs ys ≡ below → strcmp xs zs ≢ below → strcmp ys zs ≡ above
unfolding strcmp
strcmp_above [] [] zs h k = cc
strcmp_above [] (y ∷ ys) [] h k = refl
strcmp_above [] (y ∷ ys) (z ∷ zs) h k = absurd (k refl)
strcmp_above (x ∷ xs) [] zs h k = cc
strcmp_above (x ∷ xs) (y ∷ ys) [] h k = refl
strcmp_above (x ∷ xs) (y ∷ ys) (z ∷ zs) h k = let later = strcmp_above xs ys zs in ground arith

by_path-IsLinear : IsLinear by_path
unfolding fat_file_cmp fat_file_cmp_path
by_path-IsLinear = record {
  cmp_of_key = λ a b. refl;
  below_below = λ a b k. strcmp_below a.filepath b.filepath k;
  above_above = λ a b k. strcmp_above a.filepath b.filepath k;
}

-- What is done to the tree.
pub data Change : Type 0 where
  inserted : FileRef → Change
  deleted : List ℕ → Change

unfoldable pub apply_change : FatTree by_path → Change → Run (Option (FatTree by_path))
apply_change t (inserted file) = done (fat_tree_insert by_path (some t) (some file))
apply_change t (deleted path) = fat_tree_delete by_path (some t) (some path)

-- From the tree that `fat_tree_init` makes; a tree that is lost is a fault.
abbrev pub keep : {A : Type 0} → Option A → Run A
keep none = fault
keep (some a) = done a

unfoldable pub after_changes : FatTree by_path → List Change → Run (FatTree by_path)
unfolding apply_change
after_changes t [] = done t
after_changes t (c ∷ cs) = apply_change t c >>= keep >>= λ t'. after_changes t' cs

-- The same on a map: the first file of a path stays, a deletion takes it away.
abbrev pub FileMap : Type 0
FileMap = List ℕ → Option FileRef

abbrev pub change_map : FileMap → Change → FileMap
change_map m (inserted file) p =
    branch (strcmp file.filepath p) (m p) (or_new by_path (m p) file) (m p)
change_map m (deleted path) p = branch (strcmp path p) (m p) none (m p)

abbrev pub map_after : FileMap → List Change → FileMap
map_after m [] = m
map_after m (c ∷ cs) = map_after (change_map m c) cs

-- The tree is in order, and its paths lead where the map says.
record Agrees (t : FatTree by_path) (m : FileMap) : Type 0 where
  ordered : IsOrdered by_path t.file_tree
  leads : (p : List ℕ) → fat_tree_search by_path (some t) (some p) ≡ m p

inserted-Agrees :
    (t : FatTree by_path) (m : FileMap) (file : FileRef)
    → Agrees t m
    → Agrees
        (record { file_tree = h_tree_insert by_path t.file_tree (some file) })
        (change_map m (inserted file))
unfolding fat_tree_insert fat_file_cmp_path
inserted-Agrees t m file agrees =
    let (found, others, _) = fat_tree_search-fat_tree_insert by_path t file in
    record {
      ordered =
          h_tree_insert-IsOrdered by_path by_path-IsLinear t.file_tree (some file) agrees.ordered;
      leads = λ p. elim (Sign-cases (strcmp file.filepath p)) [
        | inl e ↦ rw e (others p (λ f. cc) ∙ agrees.leads p)
        | inr (inl e) ↦
            let is : file.filepath ≡ p = strcmp_same file.filepath p e in
            rw e (
              ap
                (λ q.
                  fat_tree_search by_path (fat_tree_insert by_path (some t) (some file)) (some q))
                (sym is)
              ∙ found
              ∙ ap (λ r. or_new by_path r file) (agrees.leads file.filepath ∙ ap m is))
        | inr (inr e) ↦ rw e (others p (λ f. cc) ∙ agrees.leads p)
      ];
    }

deleted-Agrees :
    (t : FatTree by_path) (u : HTree FileRef) (m : FileMap) (path : List ℕ)
    → Agrees t m
    → h_tree_delete by_path t.file_tree (some path) ≡ done u
    → Agrees (record { file_tree = u }) (change_map m (deleted path))
unfolding fat_file_cmp_path
deleted-Agrees t u m path agrees run =
    let (gone, others) =
      h_tree_search-h_tree_delete by_path by_path-IsLinear t.file_tree u path agrees.ordered run in
    let after : FatTree by_path = record { file_tree = u } in
    let stays = λ (p : List ℕ) (differ : strcmp path p ≢ same).
      fat_tree_search-eq by_path after p
      ∙ others p (λ a keyed other.
        differ (ap (λ q. strcmp q p) (sym (strcmp_same a.filepath path keyed)) ∙ other))
      ∙ sym (fat_tree_search-eq by_path t p)
      ∙ agrees.leads p in
    record {
      ordered = h_tree_delete-IsOrdered by_path t.file_tree u (some path) agrees.ordered run;
      leads = λ p. elim (Sign-cases (strcmp path p)) [
        | inl e ↦ rw e (stays p (λ f. cc))
        | inr (inl e) ↦
            let is : path ≡ p = strcmp_same path p e in
            rw e (
              fat_tree_search-eq by_path after p
              ∙ ap (λ q. h_tree_get_data (h_tree_search by_path u (some q))) (sym is)
              ∙ gone)
        | inr (inr e) ↦ rw e (stays p (λ f. cc))
      ];
    }

after_changes-Agrees :
    (t t' : FatTree by_path) (m : FileMap) (cs : List Change)
    → Agrees t m
    → after_changes t cs ≡ done t'
    → Agrees t' (map_after m cs)
unfolding after_changes apply_change fat_tree_insert fat_tree_delete
after_changes-Agrees t t' m [] agrees run = subst (λ x. Agrees x m) (cc run) agrees
after_changes-Agrees t t' m (inserted file ∷ cs) agrees run =
    after_changes-Agrees (record { file_tree = h_tree_insert by_path t.file_tree (some file) }) t'
      (change_map m (inserted file)) cs (inserted-Agrees t m file agrees) run
after_changes-Agrees t t' m (deleted path ∷ cs) agrees run =
    elim (Run-cases (h_tree_delete by_path t.file_tree (some path))) [
      | inl (u, ran) ↦
          after_changes-Agrees (record { file_tree = u }) t' (change_map m (deleted path)) cs
            (deleted-Agrees t u m path agrees ran) (rw ran at run)
      | inr (inl faults) ↦ absurd (cc (rw faults at run))
      | inr (inr out) ↦ absurd (cc (rw out at run))
    ]

-- Where a sequence of insertions and deletions returns from the tree that `fat_tree_init` makes, its
-- elements are in the order of their paths, and every path leads where it leads in the map that the
-- same changes make of the empty one.
pub after_changes_lem :
    (cs : List Change) (t : FatTree by_path)
    → after_changes (fat_tree_init by_path) cs ≡ done t
    → IsOrdered by_path t.file_tree
      × ((p : List ℕ) → fat_tree_search by_path (some t) (some p) ≡ map_after (λ q. none) cs p)
unfolding fat_tree_init inorder fat_tree_search search_from
after_changes_lem cs t run =
    let agrees =
      after_changes-Agrees (fat_tree_init by_path) t (λ q. none) cs
        (record { ordered = tt; leads = λ p. refl }) run in
    (agrees.ordered, agrees.leads)
