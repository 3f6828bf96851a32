-- ===== src/App/Load.antt =====
-- src/lib.rs: what `load_config` returns, and that it finds what `init_config` wrote.
use cortado.Base.{
  ◌≡◌, refl, sym, ap, subst, ◌∙◌, ◌⊎◌, inl, inr, Bool, true, false, ◌||◌, Option, none, some, Bytes,
  Result, ok, err, ◌==◌, ==_iff, list_eq, nat_eq, arith, Bool-cases, Result-cases,
}
use cortado.Base.Effects.{continue, require}
use cortado.Config.{Parsing, Config, default, validate}
use cortado.Platform.Files.{IsFileSystem}
use cortado.App.ConfigFile.{
  Disk, Toml, Environment, LoadError, system_config_path, system_config_dir, user_config_path,
  parent, unwrapped, unwritable, no_directory, unprintable, Files, existing_config_path, succeeded,
  path_if, writable_config_path, init_config, accepted, decoded, parsed, found, read_config,
  load_config, reload_config,
}

-- Documented behaviour of the disk: a write that succeeds makes that file and no other, directories
-- are no files, and a directory that holds a file can be created again.
pub record IsDisk (disk : Disk) : Type 0 where
  pub files : IsFileSystem disk.fs
  pub file_written :
      (p q bs : Bytes) (s : disk.fs.State)
      → (disk.fs.write p bs s).0 ≡ true
      → disk.is_file q (disk.fs.write p bs s).1 ≡ (p == q || disk.is_file q s)
  pub no_file_made :
      (d q : Bytes) (s : disk.fs.State)
      → disk.is_file q (disk.create_dir_all d s).1 ≡ disk.is_file q s
  pub directory_there :
      (s : disk.fs.State)
      → disk.is_file system_config_path s ≡ true
      → (disk.create_dir_all system_config_dir s).0 ≡ true

module _ (disk : Disk) (toml : Toml) (env : Environment) (std : Parsing) where
  accepted-valid : (cfg c : Config) → accepted disk toml env std cfg ≡ ok c → validate std c ≡ ok tt
  accepted-valid cfg c h = elim (Result-cases (validate std cfg)) [
    | inl (_, valid) ↦ let e : cfg ≡ c = ground arith in ground arith
    | inr (_, invalid) ↦ absurd (ground arith)
  ]

  decoded-valid :
      (o : Option Config) (c : Config) → decoded disk toml env std o ≡ ok c → validate std c ≡ ok tt
  decoded-valid none c h = absurd (ground arith)
  decoded-valid (some cfg) c h = accepted-valid cfg c h

  parsed-valid :
      (o : Option Bytes) (c : Config) → parsed disk toml env std o ≡ ok c → validate std c ≡ ok tt
  parsed-valid none c h = absurd (ground arith)
  parsed-valid (some content) c h = decoded-valid (toml.from_str content) c h

  found-valid :
      (o : Option Bytes) (s : Files disk toml env) (c : Config)
      → found disk toml env std s o ≡ ok c
      → validate std c ≡ ok tt
  unfolding read_config
  found-valid none s c h = absurd (ground arith)
  found-valid (some path) s c h = parsed-valid (disk.fs.read path s) c h

  -- A configuration that is read for a reload is validated.
  pub reload_config-valid :
      (s : Files disk toml env) (c : Config)
      → reload_config disk toml env std s ≡ ok c
      → validate std c ≡ ok tt
  unfolding reload_config
  reload_config-valid s c h = found-valid (existing_config_path disk toml env s) s c h

  -- Reading the default configuration, as it was printed.
  read_default :
      (path text : Bytes) (s : Files disk toml env)
      → disk.fs.read path s ≡ some text
      → toml.from_str text ≡ some default
      → validate std default ≡ ok tt
      → read_config disk toml env std path s ≡ ok default
  unfolding read_config
  read_default path text s read read_as valid =
      let known : accepted disk toml env std default ≡ ok default = rw (valid, accepted) refl in
      ap (parsed disk toml env std) read ∙ ap (decoded disk toml env std) read_as ∙ known

  -- A written file is the one that is found: either there is no file of the system's, or it is that
  -- file that was written.
  found_written :
      (path text : Bytes) (s : Files disk toml env)
      → IsDisk disk
      → (path ≡ system_config_path)
        ⊎ ((disk.is_file system_config_path s ≡ false) × (user_config_path env ≡ some path))
      → (disk.fs.write path text s).0 ≡ true
      → existing_config_path disk toml env (disk.fs.write path text s).1 ≡ some path
  unfolding existing_config_path
  found_written path text s laws (inl system) written =
      let made = laws.file_written path system_config_path text s written in
      let same = (==_iff path system_config_path).1 system in
      rw
        (let there : disk.is_file system_config_path (disk.fs.write path text s).1 ≡ true =
            ground arith in
          there)
        (ap some (sym system))
  found_written path text s laws (inr (none_there, user)) written =
      let made = laws.file_written path system_config_path text s written in
      let own = laws.file_written path path text s written in
      let same = (==_iff path path).1 refl in
      let there : disk.is_file path (disk.fs.write path text s).1 ≡ true = ground arith in
      elim (Bool-cases (path == system_config_path)) [
        | inl system ↦
            let present : disk.is_file system_config_path (disk.fs.write path text s).1 ≡ true =
              ground arith in
            rw present (ap some (sym ((==_iff path system_config_path).0 system)))
        | inr other ↦
            let absent : disk.is_file system_config_path (disk.fs.write path text s).1 ≡ false =
              ground arith in
            rw (absent, user) (rw there refl)
      ]

  -- Where a file to write was chosen: the system's, or the user's where there is no system's.
  Chosen : Bytes → Files disk toml env → Type 0
  Chosen path s =
      (path ≡ system_config_path)
      ⊎ ((disk.is_file system_config_path s ≡ false) × (user_config_path env ≡ some path))

  Chosen-user :
      (o : Option Bytes) (s : Files disk toml env)
      → user_config_path env ≡ o
      → disk.is_file system_config_path s ≡ false
      → Chosen (unwrapped o system_config_path) s
  unfolding Chosen
  Chosen-user none s e absent = inl refl
  Chosen-user (some p) s e absent = inr (absent, e)

  writable-Chosen :
      (s : Files disk toml env) (b : Bool)
      → IsDisk disk
      → (disk.create_dir_all system_config_dir s).0 ≡ b
      → (path : Bytes) × (writable_config_path disk toml env s
          ≡ (ok path, (disk.create_dir_all system_config_dir s).1))
        × Chosen path s
  unfolding writable_config_path Chosen
  writable-Chosen s true laws e = (
    system_config_path,
    ap (λ b. path_if disk toml env (b, (disk.create_dir_all system_config_dir s).1)) e,
    inl refl,
  )
  writable-Chosen s false laws e = (
    unwrapped (user_config_path env) system_config_path,
    ap (λ b. path_if disk toml env (b, (disk.create_dir_all system_config_dir s).1)) e,
    elim (Bool-cases (disk.is_file system_config_path s)) [
      | inl present ↦ let there = laws.directory_there s present in absurd (ground arith)
      | inr absent ↦ Chosen-user (user_config_path env) s refl absent
    ],
  )

  Chosen-directory :
      (path d : Bytes) (s : Files disk toml env)
      → IsDisk disk
      → Chosen path s
      → Chosen path (disk.create_dir_all d s).1
  unfolding Chosen
  Chosen-directory path d s laws (inl system) = inl system
  Chosen-directory path d s laws (inr (absent, user)) =
      inr (laws.no_file_made d system_config_path s ∙ absent, user)

  succeeded-ok :
      (e : LoadError) (b : Bool) (s : Files disk toml env)
      → (succeeded disk toml env e (b, s)).0 ≡ ok tt
      → (b ≡ true) × ((succeeded disk toml env e (b, s)).1 ≡ s)
  succeeded-ok e true s h = (refl, refl)
  succeeded-ok e false s h = absurd (ground arith)

  require-ok :
      (o : Option Bytes) (s : Files disk toml env) (text : Bytes)
      → (require o unprintable s).0 ≡ ok text
      → (o ≡ some text) × ((require o unprintable s).1 ≡ s)
  require-ok none s text h = absurd (ground arith)
  require-ok (some t) s text h = (ground arith, refl)

  loaded_back :
      (path text : Bytes) (s : Files disk toml env)
      → IsDisk disk
      → Chosen path s
      → (disk.fs.write path text s).0 ≡ true
      → toml.from_str text ≡ some default
      → validate std default ≡ ok tt
      → load_config disk toml env std (disk.fs.write path text s).1 ≡ ok default
  unfolding load_config Chosen
  loaded_back path text s laws chosen written back valid =
      ap (found disk toml env std (disk.fs.write path text s).1)
        (found_written path text s laws chosen written)
      ∙ read_default path text (disk.fs.write path text s).1
          (laws.files.read_written path text s written) back valid

  -- That where a step succeeds, the default configuration is loaded after it.
  abbrev Loads {ℓ} : {A : Type ℓ} → Result LoadError A × Files disk toml env → Type ℓ
  Loads c = (a : _) → c.0 ≡ ok a → load_config disk toml env std c.1 ≡ ok default

  continue-Loads {ℓ} :
      {A : Type ℓ} (r : Result LoadError A) (s : Files disk toml env)
      (next : A → Files disk toml env → Result LoadError Bytes × Files disk toml env)
      → ((a : A) → r ≡ ok a → Loads (next a s))
      → Loads (continue (r, s) next)
  continue-Loads (ok a) s next h b k = h a refl b k
  continue-Loads (err e) s next h a k = absurd (ground arith)

  -- Where `init_config` succeeds, `load_config` then returns the default configuration, if it is
  -- valid and TOML parses what it printed of it.
  pub init_config-load_config :
      (s : Files disk toml env) (path : Bytes)
      → IsDisk disk
      → (init_config disk toml env s).0 ≡ ok path
      → ((text : Bytes)
          → toml.to_string_pretty default ≡ some text
          → toml.from_str text ≡ some default)
      → validate std default ≡ ok tt
      → load_config disk toml env std (init_config disk toml env s).1 ≡ ok default
  unfolding init_config Chosen
  init_config-load_config s path laws h back valid =
      let (p, at_path, chosen) =
        writable-Chosen s (disk.create_dir_all system_config_dir s).0 laws refl in
      let s1 = (disk.create_dir_all system_config_dir s).1 in
      let made = disk.create_dir_all (parent p) s1 in
      let there : Chosen p made.1 =
        Chosen-directory p (parent p) s1 laws
          (Chosen-directory p system_config_dir s laws chosen) in
      let c = succeeded disk toml env no_directory made in
      let printed = toml.to_string_pretty default in
      let all : Loads (init_config disk toml env s) = rw at_path (
        continue-Loads c.0 c.1 _ λ u made_ok.
          continue-Loads (require printed unprintable c.1).0 (require printed unprintable c.1).1 _
            λ text text_ok.
              let (is_text, same) = require-ok printed c.1 text text_ok in
              let s2 = (require printed unprintable c.1).1 in
              let w = disk.fs.write p text s2 in
              continue-Loads (succeeded disk toml env unwritable w).0
                (succeeded disk toml env unwritable w).1 _
                λ v written q k.
                  let (done, left) = succeeded-ok unwritable w.0 w.1 written in
                  let (_, kept) = succeeded-ok no_directory made.0 made.1 made_ok in
                  let chosen2 = subst (Chosen p) (sym (same ∙ kept)) there in
                  ap (load_config disk toml env std) left
                  ∙ loaded_back p text s2 laws chosen2 done (back text is_text) valid) in
      all path h
