-- ===== src/Platform/Samples.antt =====
-- Files that are an association list, for runs of the code.
use cortado.Base.{
  ◌≡◌, refl, true, false, List, some, Bytes, arith, lookup, insert, remove, lookup-insert,
  lookup-remove, ◌==◌, ==_iff, nat_eq, list_eq,
}
use cortado.Platform.Files.{FileSystem, IsFileSystem}

abbrev pub Files : Type 0
Files = List (Bytes × Bytes)

abbrev pub files : FileSystem
files = record {
  State = Files;
  read = λ p s. lookup p s;
  write = λ p bs s. (true, insert p bs s);
  remove = λ p s. remove p s;
}

written_read : (p bs : Bytes) (s : Files) → lookup p (insert p bs s) ≡ some bs
written_read p bs s =
    let seen = lookup-insert p p bs s in let same = (==_iff p p).1 refl in ground arith

other_read : (p q bs : Bytes) (s : Files) → (p == q) ≡ false → lookup q (insert p bs s) ≡ lookup q s
other_read p q bs s h = let seen = lookup-insert p q bs s in ground arith

removed_read : (p q : Bytes) (s : Files) → (p == q) ≡ false → lookup q (remove p s) ≡ lookup q s
removed_read p q s h = let seen = lookup-remove p q s in ground arith

pub files-IsFileSystem : IsFileSystem files
files-IsFileSystem = record {
  read_written = λ p bs s h. written_read p bs s;
  read_other = other_read;
  read_removed = removed_read;
}
