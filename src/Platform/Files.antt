-- ===== src/Platform/Files.antt =====
-- `std::fs` as the program uses it: reading and writing whole files, and removing them.
use cortado.Base.{◌≡◌, Bool, true, false, Option, some, Bytes, ◌==◌, list_eq, nat_eq}

pub record FileSystem : Type 1 where
  pub State : Type 0
  pub read : Bytes → State → Option Bytes
  pub write : Bytes → Bytes → State → Bool × State
  pub remove : Bytes → State → State

-- A write that succeeds changes that file to the contents; a write that fails, and a removal, change
-- that file only.
pub record IsFileSystem (fs : FileSystem) : Type 0 where
  pub read_written :
      (p bs : Bytes) (s : fs.State)
      → (fs.write p bs s).0 ≡ true
      → fs.read p (fs.write p bs s).1 ≡ some bs
  pub read_other :
      (p q bs : Bytes) (s : fs.State)
      → (p == q) ≡ false
      → fs.read q (fs.write p bs s).1 ≡ fs.read q s
  pub read_removed :
      (p q : Bytes) (s : fs.State) → (p == q) ≡ false → fs.read q (fs.remove p s) ≡ fs.read q s
