-- ===== src/Fat/Dentry/Read.antt =====
-- A directory entry out of the bytes of a cluster: the cast of the buffer in `fat_file_read_children`
-- of lab4/esqueleto/fat_file.c, and the copy that `init_direntry_from_buff` makes.
use mathlib.Core.List.{append_assoc}
use operating_system_fa_maf.Common.{
  ℕ, zero, suc, ◌+◌, ◌*◌, ◌/◌, ◌%◌, ◌^◌, ◌<◌, ◌≡◌, refl, sym, ap, ◌∙◌, List, [], ◌∷◌, ◌++◌, length,
  get_or, take, drop, take-append, drop-append, arith,
}
use operating_system_fa_maf.Fat.Table.{le32}
use operating_system_fa_maf.Fat.Dentry.{Dentry, le16, dentry_bytes}

abbrev pub word16 : List ℕ → (i : ℕ) → ℕ
word16 bs i = get_or bs i 0 + 256 * get_or bs (i + 1) 0

abbrev pub word32 : List ℕ → (i : ℕ) → ℕ
word32 bs i = word16 bs i + 65536 * word16 bs (i + 2)

unfoldable pub read_entry : List ℕ → Dentry
read_entry bs = record {
  base_name = take 8 bs;
  extension = take 3 (drop 8 bs);
  attribs = get_or bs 11 0;
  reserved = get_or bs 12 0;
  create_time_fine_res = get_or bs 13 0;
  create_time = word16 bs 14;
  create_date = word16 bs 16;
  last_access_date = word16 bs 18;
  start_cluster_high = word16 bs 20;
  last_modified_time = word16 bs 22;
  last_modified_date = word16 bs 24;
  start_cluster_low = word16 bs 26;
  file_size = word32 bs 28;
}

-- The entries of a buffer that has room for `count` of them.
unfoldable pub entries_of : (count : ℕ) → List ℕ → List Dentry
unfolding read_entry
entries_of zero bs = []
entries_of (suc count) bs = read_entry bs ∷ entries_of count (drop 32 bs)

-- An entry whose members have the widths of the format.
pub record IsEntry (d : Dentry) : Type 0 where
  pub base : length d.base_name ≡ 8
  pub ext : length d.extension ≡ 3
  pub create_time : d.create_time < 2 ^ 16
  pub create_date : d.create_date < 2 ^ 16
  pub last_access_date : d.last_access_date < 2 ^ 16
  pub start_cluster_high : d.start_cluster_high < 2 ^ 16
  pub last_modified_time : d.last_modified_time < 2 ^ 16
  pub last_modified_date : d.last_modified_date < 2 ^ 16
  pub start_cluster_low : d.start_cluster_low < 2 ^ 16
  pub file_size : d.file_size < 2 ^ 32

le16-word : (n : ℕ) → n < 2 ^ 16 → n % 256 + 256 * ((n / 256) % 256) ≡ n
le16-word n h = omega arith

le32-word :
    (n : ℕ)
    → n < 2 ^ 32
    → n % 256 + 256 * ((n / 256) % 256) + 65536 * ((n / 65536) % 256 + 256 * ((n / 16777216) % 256))
      ≡ n
le32-word n h = omega arith

get_or-drop : (n i : ℕ) (xs : List ℕ) → get_or xs (n + i) 0 ≡ get_or (drop n xs) i 0
get_or-drop zero i xs = let e : 0 + i ≡ i = omega arith in rw e refl
get_or-drop (suc n) i [] = refl
get_or-drop (suc n) i (x ∷ xs) =
    let e : suc n + i ≡ suc (n + i) = omega arith in rw e (get_or-drop n i xs)

drop-nil : (n : ℕ) → drop {A = ℕ} n [] ≡ []
drop-nil zero = refl
drop-nil (suc n) = refl

drop-drop : (n m : ℕ) (xs : List ℕ) → drop (n + m) xs ≡ drop m (drop n xs)
drop-drop zero m xs = let e : 0 + m ≡ m = omega arith in rw e refl
drop-drop (suc n) m [] = drop-nil (suc n + m) ∙ sym (drop-nil m)
drop-drop (suc n) m (x ∷ xs) =
    let e : suc n + m ≡ suc (n + m) = omega arith in rw e (drop-drop n m xs)

-- The bytes of an entry behind its name.
abbrev pub tail_bytes : Dentry → List ℕ
tail_bytes d =
    d.attribs ∷ d.reserved ∷ d.create_time_fine_res ∷ le16 d.create_time
    ++ le16 d.create_date
    ++ le16 d.last_access_date
    ++ le16 d.start_cluster_high
    ++ le16 d.last_modified_time
    ++ le16 d.last_modified_date
    ++ le16 d.start_cluster_low
    ++ le32 d.file_size

read_entry-eq :
    (d : Dentry) (bs rest : List ℕ)
    → IsEntry d
    → take 8 bs ≡ d.base_name
    → take 3 (drop 8 bs) ≡ d.extension
    → drop 11 bs ≡ tail_bytes d ++ rest
    → read_entry bs ≡ d
unfolding read_entry le16 le32
read_entry-eq d bs rest h base ext tail =
    let at : (i : ℕ) → get_or bs (11 + i) 0 ≡ get_or (tail_bytes d ++ rest) i 0 =
      λ i. get_or-drop 11 i bs ∙ ap (λ l. get_or l i 0) tail in
    rw
      (
        base,
        ext,
        at 0,
        at 1,
        at 2,
        at 3,
        at 4,
        at 5,
        at 6,
        at 7,
        at 8,
        at 9,
        at 10,
        at 11,
        at 12,
        at 13,
        at 14,
        at 15,
        at 16,
        at 17,
        at 18,
        at 19,
        at 20,
        le16-word d.create_time h.create_time,
        le16-word d.create_date h.create_date,
        le16-word d.last_access_date h.last_access_date,
        le16-word d.start_cluster_high h.start_cluster_high,
        le16-word d.last_modified_time h.last_modified_time,
        le16-word d.last_modified_date h.last_modified_date,
        le16-word d.start_cluster_low h.start_cluster_low,
        le32-word d.file_size h.file_size,
      )
      refl

-- The bytes that are written for an entry whose members have the widths of the format are read back
-- as that entry, and the entries behind it are those of the bytes behind it.
pub entries_of-dentry_bytes :
    (d : Dentry) (count : ℕ) (rest : List ℕ)
    → IsEntry d
    → entries_of (suc count) (dentry_bytes d ++ rest) ≡ d ∷ entries_of count rest
unfolding entries_of dentry_bytes le16 le32
entries_of-dentry_bytes d count rest h =
    let tail = tail_bytes d ++ rest in
    let bs = d.base_name ++ (d.extension ++ tail) in
    let split : dentry_bytes d ++ rest ≡ bs = simp append_assoc in
    let eight : drop 8 bs ≡ d.extension ++ tail = drop-append d.base_name _ 8 h.base in
    let eleven : drop 11 bs ≡ tail =
      drop-drop 8 3 bs ∙ ap (drop 3) eight ∙ drop-append d.extension tail 3 h.ext in
    let entry =
      read_entry-eq d bs rest h (take-append d.base_name _ 8 h.base)
        (ap (take 3) eight ∙ take-append d.extension tail 3 h.ext) eleven in
    let behind : drop 32 bs ≡ rest = drop-drop 11 21 bs ∙ ap (drop 21) eleven in
    ap (entries_of (suc count)) split ∙ rw (entry, behind) refl
