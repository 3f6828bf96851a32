-- ===== src/App/ConfigFile.antt =====
-- src/lib.rs: where the configuration is looked for, written and read. The disk is a parameter, and
-- so are the TOML printer and parser; paths are joined as `Path::join` does.
use cortado.Base.{
  Bool, true, false, ◌||◌, [], ◌∷◌, ◌++◌, Option, none, some, Bytes, codes, Result, ok, err,
  list_eq, nat_eq, nat_beq, is_empty, if◌then◌else◌,
}
use cortado.Base.Effects.{Effect, ◌>>=◌, ◌>>◌, require, pure}
use cortado.Config.{Parsing, Config, default, validate}
use cortado.Platform.Files.{FileSystem}

-- The files, with the two further questions that are asked of the disk.
pub record Disk : Type 1 where
  pub fs : FileSystem
  pub is_file : Bytes → fs.State → Bool
  pub create_dir_all : Bytes → fs.State → Bool × fs.State

pub record Toml : Type 0 where
  pub from_str : Bytes → Option Config
  pub to_string_pretty : Config → Option Bytes

-- The two variables of the environment that are read.
pub record Environment : Type 0 where
  pub xdg_config_home : Option Bytes
  pub home : Option Bytes

pub data LoadError : Type 0 where
  not_found unreadable unparsable invalid : LoadError
  no_directory unprintable unwritable : LoadError

abbrev pub is_absolute : Bytes → Bool
is_absolute [] = false
is_absolute (c ∷ cs) = nat_beq c b'/'

abbrev pub ends_with_slash : Bytes → Bool
ends_with_slash [] = false
ends_with_slash (c ∷ []) = nat_beq c b'/'
ends_with_slash (c ∷ d ∷ cs) = ends_with_slash (d ∷ cs)

-- `Path::join` of a relative path.
abbrev pub join : Bytes → Bytes → Bytes
join p q = if is_empty p || ends_with_slash p then p ++ q else p ++ (b'/' ∷ q)

abbrev pub config_file_name : Bytes
config_file_name = codes "cortado.conf"

abbrev pub system_config_dir : Bytes
system_config_dir = codes "/etc/cortado"

abbrev pub system_config_path : Bytes
system_config_path = join system_config_dir config_file_name

abbrev pub or_else : Option Bytes → Option Bytes → Option Bytes
or_else none later = later
or_else (some p) later = some p

abbrev pub absolute : Option Bytes → Option Bytes
absolute none = none
absolute (some p) = if is_absolute p then some p else none

abbrev pub mapped : (Bytes → Bytes) → Option Bytes → Option Bytes
mapped f none = none
mapped f (some p) = some (f p)

-- The directory that holds the user's file.
abbrev pub user_config_dir : Environment → Option Bytes
user_config_dir env =
    mapped (λ base. join base (codes "cortado"))
      (or_else (absolute env.xdg_config_home) (mapped (λ h. join h (codes ".config")) env.home))

unfoldable pub user_config_path : Environment → Option Bytes
user_config_path env = mapped (λ dir. join dir config_file_name) (user_config_dir env)

abbrev pub unwrapped : Option Bytes → Bytes → Bytes
unwrapped none d = d
unwrapped (some p) d = p

-- The text before the last slash.
abbrev pub before_slash : Bytes → Option Bytes
before_slash [] = none
before_slash (c ∷ cs) = elim (before_slash cs) [
  | some rest ↦ some (c ∷ rest)
  | none ↦ if nat_beq c b'/' then some [] else none
]

-- `Path::parent` of a path that ends with a file's name.
abbrev pub parent : Bytes → Bytes
parent path = elim (before_slash path) [ none ↦ [] | some [] ↦ codes "/" | some (c ∷ cs) ↦ c ∷ cs ]

module _ (disk : Disk) (toml : Toml) (env : Environment) where
  abbrev pub Files : Type 0
  Files = disk.fs.State

  abbrev pub M : Type 0 → Type 0
  M A = Effect Files LoadError A

  abbrev pub if_file : Files → Option Bytes → Option Bytes
  if_file s none = none
  if_file s (some p) = if disk.is_file p s then some p else none

  unfoldable pub existing_config_path : Files → Option Bytes
  unfolding user_config_path
  existing_config_path s =
      if disk.is_file system_config_path s
      then some system_config_path
      else if_file s (user_config_path env)

  abbrev pub succeeded : LoadError → Bool × Files → Result LoadError (Unit {0}) × Files
  succeeded e (true, s) = (ok tt, s)
  succeeded e (false, s) = (err e, s)

  abbrev pub path_if : Bool × Files → Result LoadError Bytes × Files
  path_if (true, s) = (ok system_config_path, s)
  path_if (false, s) = (ok (unwrapped (user_config_path env) system_config_path), s)

  unfoldable pub writable_config_path : M Bytes
  unfolding user_config_path
  writable_config_path s = path_if (disk.create_dir_all system_config_dir s)

  unfoldable pub init_config : M Bytes
  unfolding writable_config_path
  init_config = do
    path ← writable_config_path
    (λ s. succeeded no_directory (disk.create_dir_all (parent path) s))
    content ← require (toml.to_string_pretty default) unprintable
    (λ s. succeeded unwritable (disk.fs.write path content s))
    pure path

  module _ (std : Parsing) where
    abbrev pub accepted : Config → Result LoadError Config
    accepted cfg = elim (validate std cfg) [ err e ↦ err invalid | ok u ↦ ok cfg ]

    abbrev pub decoded : Option Config → Result LoadError Config
    decoded none = err unparsable
    decoded (some cfg) = accepted cfg

    abbrev pub parsed : Option Bytes → Result LoadError Config
    parsed none = err unreadable
    parsed (some content) = decoded (toml.from_str content)

    unfoldable pub read_config : Bytes → Files → Result LoadError Config
    unfolding validate
    read_config path s = parsed (disk.fs.read path s)

    abbrev pub found : Files → Option Bytes → Result LoadError Config
    found s none = err not_found
    found s (some path) = read_config path s

    -- `load_config`; `reload_config` differs in the text of the error only.
    unfoldable pub load_config : Files → Result LoadError Config
    unfolding existing_config_path read_config
    load_config s = found s (existing_config_path s)

    unfoldable pub reload_config : Files → Result LoadError Config
    unfolding existing_config_path read_config
    reload_config s = found s (existing_config_path s)
