-- ===== src/Fat/Disk/Entries.antt =====
-- The entries in the bytes of a cluster, when the bytes are cut between entries.
use operating_system_fa_maf.Common.{
  ℕ, zero, suc, ◌+◌, ◌*◌, ◌≤◌, ◌<◌, ◌≡◌, refl, ap, ◌∙◌, List, [], ◌∷◌, ◌++◌, length, get_or, arith,
  take, drop, take-append, drop-append, length-drop,
}
use operating_system_fa_maf.Fat.Dentry.Read.{read_entry, entries_of, word16}

take-append_le : (n : ℕ) (xs ys : List ℕ) → n ≤ length xs → take n (xs ++ ys) ≡ take n xs
take-append_le zero xs ys h = refl
take-append_le (suc n) [] ys h = absurd (omega arith)
take-append_le (suc n) (x ∷ xs) ys h = rw (take-append_le n xs ys (omega arith))

drop-append_le : (n : ℕ) (xs ys : List ℕ) → n ≤ length xs → drop n (xs ++ ys) ≡ drop n xs ++ ys
drop-append_le zero xs ys h = refl
drop-append_le (suc n) [] ys h = absurd (omega arith)
drop-append_le (suc n) (x ∷ xs) ys h = drop-append_le n xs ys (omega arith)

get_or-append_lt : (i : ℕ) (xs ys : List ℕ) → i < length xs → get_or (xs ++ ys) i 0 ≡ get_or xs i 0
get_or-append_lt i [] ys h = absurd (omega arith)
get_or-append_lt zero (x ∷ xs) ys h = refl
get_or-append_lt (suc i) (x ∷ xs) ys h = get_or-append_lt i xs ys (omega arith)

word16-append : (i : ℕ) (xs ys : List ℕ) → i + 1 < length xs → word16 (xs ++ ys) i ≡ word16 xs i
word16-append i xs ys h =
    rw (get_or-append_lt i xs ys (omega arith), get_or-append_lt (i + 1) xs ys h) refl

read_entry-append : (xs ys : List ℕ) → 32 ≤ length xs → read_entry (xs ++ ys) ≡ read_entry xs
unfolding read_entry
read_entry-append xs ys h =
    rw
      (
        take-append_le 8 xs ys (omega arith),
        drop-append_le 8 xs ys (omega arith),
        take-append_le 3 (drop 8 xs) ys (omega (arith, length-drop 8 xs)),
        get_or-append_lt 11 xs ys (omega arith),
        get_or-append_lt 12 xs ys (omega arith),
        get_or-append_lt 13 xs ys (omega arith),
        word16-append 14 xs ys (omega arith),
        word16-append 16 xs ys (omega arith),
        word16-append 18 xs ys (omega arith),
        word16-append 20 xs ys (omega arith),
        word16-append 22 xs ys (omega arith),
        word16-append 24 xs ys (omega arith),
        word16-append 26 xs ys (omega arith),
        word16-append 28 xs ys (omega arith),
        word16-append 30 xs ys (omega arith),
      )
      refl

pub entries_of-append :
    (k m : ℕ) (xs ys : List ℕ)
    → length xs ≡ k * 32
    → entries_of (k + m) (xs ++ ys) ≡ entries_of k xs ++ entries_of m ys
unfolding entries_of
entries_of-append zero m [] ys h = let zero_and : 0 + m ≡ m = omega arith in rw zero_and refl
entries_of-append zero m (x ∷ xs) ys h = absurd (omega (arith, h))
entries_of-append (suc k) m xs ys h =
    let one_and : suc k + m ≡ suc (k + m) = omega arith in
    let size : 32 ≤ length xs = omega (arith, h) in
    rw (one_and, read_entry-append xs ys size, drop-append_le 32 xs ys size)
      (ap (λ es. read_entry xs ∷ es)
        (entries_of-append k m (drop 32 xs) ys (omega (arith, h, length-drop 32 xs))))

length-entries_of : (k : ℕ) (xs : List ℕ) → length (entries_of k xs) ≡ k
unfolding entries_of
length-entries_of zero xs = refl
length-entries_of (suc k) xs = omega (arith, length-entries_of k (drop 32 xs))

pub take-entries_of :
    (k m : ℕ) (xs ys : List ℕ)
    → length xs ≡ k * 32
    → take k (entries_of (k + m) (xs ++ ys)) ≡ entries_of k xs
take-entries_of k m xs ys h =
    ap (take k) (entries_of-append k m xs ys h)
    ∙ take-append (entries_of k xs) (entries_of m ys) k (length-entries_of k xs)

pub drop-entries_of :
    (k m : ℕ) (xs ys : List ℕ)
    → length xs ≡ k * 32
    → drop k (entries_of (k + m) (xs ++ ys)) ≡ entries_of m ys
drop-entries_of k m xs ys h =
    ap (drop k) (entries_of-append k m xs ys h)
    ∙ drop-append (entries_of k xs) (entries_of m ys) k (length-entries_of k xs)
