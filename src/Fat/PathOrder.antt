-- ===== src/Fat/PathOrder.antt =====
-- `fat_file_cmp` and `fat_file_cmp_path` of lab4/esqueleto/fat_file.c: files compare by `strcmp` of
-- their paths. The tree's elements are pointers to files, here the address and the path, which
-- never changes.
use operating_system_fa_maf.Common.{ℕ, ◌≡◌, refl, arith, List, [], ◌∷◌, ltb, if◌then◌else◌}
use operating_system_fa_maf.Fat.Tree.{Sign, below, same, above, opposite, Order}

pub record FileRef : Type 0 where
  pub addr : ℕ
  pub filepath : List ℕ

-- The sign of `strcmp`: the first difference decides, the end of a text being below every byte.
unfoldable pub strcmp : List ℕ → List ℕ → Sign
strcmp [] [] = same
strcmp [] (y ∷ ys) = below
strcmp (x ∷ xs) [] = above
strcmp (x ∷ xs) (y ∷ ys) =
    let rest = strcmp xs ys in if ltb x y then below else if ltb y x then above else rest

unfoldable pub fat_file_cmp : FileRef → FileRef → Sign
fat_file_cmp file1 file2 = strcmp file1.filepath file2.filepath

unfoldable pub fat_file_cmp_path : FileRef → List ℕ → Sign
fat_file_cmp_path file1 path = strcmp file1.filepath path

strcmp-opposite : (xs ys : List ℕ) → strcmp xs ys ≡ opposite (strcmp ys xs)
unfolding strcmp
strcmp-opposite [] [] = refl
strcmp-opposite [] (y ∷ ys) = refl
strcmp-opposite (x ∷ xs) [] = refl
strcmp-opposite (x ∷ xs) (y ∷ ys) = let later = strcmp-opposite xs ys in ground arith

strcmp_self : (xs : List ℕ) → strcmp xs xs ≡ same
unfolding strcmp
strcmp_self [] = refl
strcmp_self (x ∷ xs) = let later = strcmp_self xs in ground arith

-- Texts that compare as the same are the same.
pub strcmp_same : (xs ys : List ℕ) → strcmp xs ys ≡ same → xs ≡ ys
unfolding strcmp
strcmp_same [] [] h = refl
strcmp_same [] (y ∷ ys) h = absurd (cc h)
strcmp_same (x ∷ xs) [] h = absurd (cc h)
strcmp_same (x ∷ xs) (y ∷ ys) h =
    let later = strcmp_same xs ys in
    let heads : x ≡ y = ground arith in
    let tails : strcmp xs ys ≡ same = ground arith in cc (heads, later tails)

pub path_opposite : (a b : FileRef) → fat_file_cmp_path a b.filepath ≡ opposite (fat_file_cmp b a)
unfolding fat_file_cmp fat_file_cmp_path
path_opposite a b = strcmp-opposite a.filepath b.filepath

pub path_self : (a : FileRef) → fat_file_cmp a a ≡ same
unfolding fat_file_cmp
path_self a = strcmp_self a.filepath

abbrev pub by_path : Order
by_path = record {
  Data = FileRef;
  Key = List ℕ;
  cmp = fat_file_cmp;
  cmp_key = fat_file_cmp_path;
  key = λ file. file.filepath;
  cmp_key-key = path_opposite;
  cmp_self = path_self;
}
