-- ===== src/Linux/ResolvConf.antt =====
-- src/platform/linux/dns.rs: `ResolvConf`. The files are a parameter, and std's printing of an
-- address. A call keeps what it did before an error.
use cortado.Base.{
  Bool, true, false, List, [], ◌∷◌, ◌++◌, Option, none, some, Bytes, codes, Result, ok, err, ◌==◌,
  option_eq, if◌then◌else◌,
}
use cortado.Base.Effects.{Effect, ◌>>◌, quietly, modify, skip}
use cortado.Addr.{IpAddr, ip_eq}
use cortado.Platform.{DnsCall, apply, reload, restore}
use cortado.Platform.Files.{FileSystem}

pub record ResolvConf : Type 0 where
  pub path : Bytes
  pub backup_path : Bytes
  pub current : Option IpAddr
  pub original : Option Bytes

abbrev pub resolv_conf_path : Bytes
resolv_conf_path = codes "/etc/resolv.conf"

abbrev pub resolv_conf_backup_path : Bytes
resolv_conf_backup_path = codes "/etc/resolv.conf.cortado.bak"

abbrev pub new : Bytes → Bytes → ResolvConf
new path backup_path = record {
  path = path;
  backup_path = backup_path;
  current = none;
  original = none;
}

abbrev pub system : ResolvConf
system = new resolv_conf_path resolv_conf_backup_path

pub data ResolvError : Type 0 where
  write_failed backup_failed restore_failed : ResolvError

module _ (fs : FileSystem) (show_ip : IpAddr → Bytes) where
  -- The object and the files.
  pub record Host : Type 0 where
    pub conf : ResolvConf
    pub files : fs.State

  abbrev pub M : Type 0
  M = Effect Host ResolvError (Unit {0})

  abbrev pub nameserver : IpAddr → Bytes
  nameserver server = codes "nameserver " ++ (show_ip server ++ codes "\n")

  abbrev pub write_outcome :
      ResolvConf → ResolvError → Bool × fs.State → Result ResolvError (Unit {0}) × Host
  write_outcome rc e (true, s) = (ok tt, record { conf = rc; files = s })
  write_outcome rc e (false, s) = (err e, record { conf = rc; files = s })

  abbrev pub write_file : Bytes → Bytes → ResolvError → M
  write_file path contents e h = write_outcome h.conf e (fs.write path contents h.files)

  unfoldable pub write_nameserver : IpAddr → M
  write_nameserver server h = write_file h.conf.path (nameserver server) write_failed h

  abbrev pub keep_original : Option Bytes → M
  keep_original o = modify λ h. record h { conf = record h.conf { original = o } }

  abbrev pub back_up : Option Bytes → Bytes → M
  back_up none backup_path = keep_original none
  back_up (some orig) backup_path =
      write_file backup_path orig backup_failed >> keep_original (some orig)

  abbrev pub back_up_unless : Option Bytes → M
  back_up_unless (some orig) h = (ok tt, h)
  back_up_unless none h = back_up (fs.read h.conf.path h.files) h.conf.backup_path h

  unfoldable pub ensure_backup : M
  ensure_backup h = back_up_unless h.conf.original h

  abbrev pub set_current : Option IpAddr → M
  set_current o = modify λ h. record h { conf = record h.conf { current = o } }

  abbrev pub redirect : IpAddr → M
  redirect dns = ensure_backup >> write_nameserver dns

  abbrev pub remove_backup : M
  remove_backup = modify λ h. record h { files = fs.remove h.conf.backup_path h.files }

  unfoldable pub apply_dns : Option IpAddr → M
  unfolding ensure_backup write_nameserver
  apply_dns none = skip
  apply_dns (some dns) = redirect dns >> set_current (some dns)

  -- The original contents, if there are any; then the backup is removed.
  abbrev pub put_back : Option Bytes → M
  put_back none h = (ok tt, h)
  put_back (some orig) h = (write_file h.conf.path orig restore_failed >> remove_backup) h

  abbrev pub switch_to : Option IpAddr → M
  switch_to (some dns) h = redirect dns h
  switch_to none h = put_back h.conf.original h

  unfoldable pub reload_dns : Option IpAddr → M
  unfolding ensure_backup write_nameserver
  reload_dns server h =
      if server == h.conf.current then (ok tt, h) else (switch_to server >> set_current server) h

  -- `restore` logs a failed write and goes on.
  abbrev pub restore_from : Option IpAddr → M
  restore_from none h = (ok tt, h)
  restore_from (some dns) h = (quietly (put_back h.conf.original) >> set_current none) h

  unfoldable pub restore_dns : M
  restore_dns h = restore_from h.conf.current h

  unfoldable pub call : DnsCall → M
  unfolding apply_dns reload_dns restore_dns
  call (apply server) = apply_dns server
  call (reload server) = reload_dns server
  call restore = restore_dns

  -- Calls in turn, whether or not they succeed.
  unfoldable pub calls : List DnsCall → Host → Host
  unfolding call
  calls [] h = h
  calls (d ∷ ds) h = calls ds (call d h).1
