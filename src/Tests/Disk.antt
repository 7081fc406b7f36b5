-- ===== src/Tests/Disk.antt =====
-- A disk as the list of its files, newest first.
use praft.Prelude.{
  ℕ, ◌≡◌, refl, sym, ap, ◌∙◌, Bool, true, false, ◌&&◌, ◌||◌, List, [], ◌∷◌, Option, none, some,
  arith, some-inj, if◌then◌else◌, Bool-cases, inl, inr,
}
use praft.Util.Slices.{same_bytes, same_bytes-eq, same_bytes_refl}
use praft.Files.{FilePath, Files, IsLawful, found, not_there}

abbrev same_path : FilePath → FilePath → Bool
same_path [] [] = true
same_path [] (y ∷ ys) = false
same_path (x ∷ xs) [] = false
same_path (x ∷ xs) (y ∷ ys) = same_bytes x y && same_path xs ys

abbrev is_below : FilePath → FilePath → Bool
is_below [] other = true
is_below (x ∷ xs) [] = false
is_below (x ∷ xs) (y ∷ ys) = same_bytes x y && is_below xs ys

abbrev pub Disk : Type 0
Disk = List (FilePath × List ℕ)

abbrev read_from : FilePath → Disk → Option (List ℕ)
read_from path [] = none
read_from path (file ∷ disk) = if same_path file.0 path then some file.1 else read_from path disk

abbrev any_below : FilePath → Disk → Bool
any_below path [] = false
any_below path (file ∷ disk) = is_below path file.0 || any_below path disk

abbrev without : FilePath → Disk → Disk
without path [] = []
without path (file ∷ disk) =
    let rest = without path disk in if is_below path file.0 then rest else file ∷ rest

abbrev pub memory : Files Disk
memory = record {
  stat = λ path disk. if any_below path disk then found else not_there;
  remove_all = without;
  mkdir = λ path disk. some disk;
  write_file = λ path bytes disk. some ((path, bytes) ∷ disk);
  read_file = read_from;
}

same_path-eq : (a b : FilePath) → same_path a b ≡ true → a ≡ b
same_path-eq [] [] h = refl
same_path-eq [] (y ∷ ys) h = cc
same_path-eq (x ∷ xs) [] h = cc
same_path-eq (x ∷ xs) (y ∷ ys) h = ground (arith, same_bytes-eq x y, same_path-eq xs ys)

same_path_refl : (a : FilePath) → same_path a a ≡ true
same_path_refl [] = refl
same_path_refl (x ∷ xs) = ground (arith, same_bytes_refl x, same_path_refl xs)

-- A file in a directory is below it.
below_dir :
    (dir : List ℕ) (below file : FilePath)
    → same_path file (dir ∷ below) ≡ true
    → is_below (dir ∷ []) file ≡ true
below_dir dir below [] h = cc
below_dir dir below (x ∷ xs) h =
    let same : x ≡ dir = same_bytes-eq x dir (ground arith) in
    ground (arith, same, same_bytes_refl dir)

read_from-without :
    (dir : List ℕ) (below : FilePath) (disk : Disk)
    → read_from (dir ∷ below) (without (dir ∷ []) disk) ≡ none
read_from-without dir below [] = refl
read_from-without dir below (file ∷ disk) = elim (Bool-cases (is_below (dir ∷ []) file.0)) [
  | inl inside ↦ rw inside (read_from-without dir below disk)
  | inr outside ↦ elim (Bool-cases (same_path file.0 (dir ∷ below))) [
    | inl same ↦ absurd (ground (arith, outside, below_dir dir below file.0 same))
    | inr other ↦ rw (outside, other) (read_from-without dir below disk)
  ]
]

read_from-not_there :
    (dir : List ℕ) (below : FilePath) (disk : Disk)
    → any_below (dir ∷ []) disk ≡ false
    → read_from (dir ∷ below) disk ≡ none
read_from-not_there dir below [] h = refl
read_from-not_there dir below (file ∷ disk) h =
    ground (arith, below_dir dir below file.0, read_from-not_there dir below disk)

stat_none : (b : Bool) → (if b then found else not_there) ≡ not_there → b ≡ false
stat_none true h = cc
stat_none false h = refl

pub memory-IsLawful : IsLawful memory
memory-IsLawful = record {
  read-write_file = λ path bytes disk disk' new wrote.
      ap (read_from path) (sym (some-inj wrote)) ∙ rw (same_path_refl path) refl;
  read-write_other = λ path other bytes disk disk' differ wrote.
      ap (read_from other) (sym (some-inj wrote)) ∙ elim (Bool-cases (same_path path other)) [
        | inl same ↦ absurd (differ (sym (same_path-eq path other same)))
        | inr apart ↦ rw apart refl
      ];
  read-mkdir = λ path other disk disk' made. ap (read_from other) (sym (some-inj made));
  read-remove_all = read_from-without;
  read-not_there = λ dir below disk answer.
      read_from-not_there dir below disk (stat_none (any_below (dir ∷ []) disk) answer);
}
