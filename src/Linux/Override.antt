-- ===== src/Linux/Override.antt =====
-- src/platform/linux/dns.rs: `ResolvConf` keeps the promise of a resolver override.
use cortado.Base.{
  ◌≡◌, refl, sym, subst, ap, ◌∙◌, ◌⊎◌, inl, inr, true, false, List, [], ◌∷◌, Option, none, some,
  Bytes, ok, ◌==◌, ==_iff, list_eq, nat_eq, option_eq, Bool-cases,
}
use cortado.Base.Effects.{◌>>◌, >>=-ok}
use cortado.Addr.{IpAddr, ip_eq}
use cortado.Platform.{DnsCall, apply, reload, restore, in_force, in_force_after}
use cortado.Platform.Files.{FileSystem, IsFileSystem}
use cortado.Linux.ResolvConf.{
  Host, nameserver, write_nameserver, ensure_backup, set_current, redirect, put_back, switch_to,
  apply_dns, reload_dns, restore_from, restore_dns, call, calls,
}

module _ (fs : FileSystem) (laws : IsFileSystem fs) (show_ip : IpAddr → Bytes)
    (reliable : (p bs : Bytes) (s : fs.State) → (fs.write p bs s).0 ≡ true) (orig : Bytes) where
  -- What the resolver's file shows under an override.
  abbrev pub shown : Option IpAddr → Bytes
  shown none = orig
  shown (some dns) = nameserver fs show_ip dns

  pub record Represents (current : Option IpAddr) (h : Host fs show_ip) : Type 0 where
    pub apart : (h.conf.backup_path == h.conf.path) ≡ false
    pub tracked : h.conf.current ≡ current
    pub visible : fs.read h.conf.path h.files ≡ some (shown current)
    pub saved : (h.conf.original ≡ some orig) ⊎ ((h.conf.original ≡ none) × (current ≡ none))

  -- After the backup, whether it was made now or before.
  record BackedUp (h g : Host fs show_ip) : Type 0 where
    apart : (g.conf.backup_path == g.conf.path) ≡ false
    same_path : g.conf.path ≡ h.conf.path
    kept : g.conf.original ≡ some orig

  backed_up :
      (current : Option IpAddr) (h : Host fs show_ip)
      → Represents current h
      → ((ensure_backup fs show_ip h).0 ≡ ok tt) × BackedUp h (ensure_backup fs show_ip h).1
  unfolding ensure_backup
  backed_up current h r = elim r.saved [
    | inl held ↦ rw held (refl, record { apart = r.apart; same_path = refl; kept = refl })
    | inr (nothing, unset) ↦
        let there : fs.read h.conf.path h.files ≡ some orig =
          r.visible ∙ ap (λ (c : Option IpAddr). some (shown c)) unset in
        rw (nothing, there, reliable h.conf.backup_path orig h.files)
          (refl, record { apart = r.apart; same_path = refl; kept = refl })
  ]

  redirected :
      (current : Option IpAddr) (dns : IpAddr) (h : Host fs show_ip)
      → Represents current h
      → let step = redirect fs show_ip dns >> set_current fs show_ip (some dns) in
        ((step h).0 ≡ ok tt) × Represents (some dns) (step h).1
  unfolding write_nameserver
  redirected current dns h r =
      let (done, b) = backed_up current h r in
      let g = (ensure_backup fs show_ip h).1 in
      let written = reliable g.conf.path (nameserver fs show_ip dns) g.files in
      let seen = laws.read_written g.conf.path (nameserver fs show_ip dns) g.files written in
      rw
        (
          >>=-ok (ensure_backup fs show_ip) (λ _. write_nameserver fs show_ip dns) h tt done,
          written,
        )
        (refl, record { apart = b.apart; tracked = refl; visible = seen; saved = inl b.kept })

  -- Putting the original back, or nothing where nothing was changed.
  unset :
      (current : Option IpAddr) (h : Host fs show_ip)
      → Represents current h
      → ((put_back fs show_ip h.conf.original h).0 ≡ ok tt)
        × Represents none (set_current fs show_ip none (put_back fs show_ip h.conf.original h).1).1
  unset current h r = elim r.saved [
    | inl held ↦
        let written = reliable h.conf.path orig h.files in
        let s = (fs.write h.conf.path orig h.files).1 in
        let back =
          laws.read_removed h.conf.backup_path h.conf.path s r.apart
          ∙ laws.read_written h.conf.path orig h.files written in
        rw (held, written)
          (refl, record { apart = r.apart; tracked = refl; visible = back; saved = inl refl })
    | inr (nothing, free) ↦
        let same = r.visible ∙ ap (λ (c : Option IpAddr). some (shown c)) free in
        rw nothing (
          refl,
          record { apart = r.apart; tracked = refl; visible = same; saved = inr (refl, refl) },
        )
  ]

  reloaded :
      (current server : Option IpAddr) (h : Host fs show_ip)
      → Represents current h
      → let step = switch_to fs show_ip server >> set_current fs show_ip server in
        ((step h).0 ≡ ok tt) × Represents server (step h).1
  reloaded current (some dns) h r = redirected current dns h r
  reloaded current none h r =
      let (done, back) = unset current h r in
      rw (>>=-ok (switch_to fs show_ip none) (λ _. set_current fs show_ip none) h tt done)
        (refl, back)

  restored :
      (current held : Option IpAddr) (h : Host fs show_ip)
      → h.conf.current ≡ held
      → Represents current h
      → ((restore_from fs show_ip held h).0 ≡ ok tt)
        × Represents none (restore_from fs show_ip held h).1
  restored current none h e r =
      let free : current ≡ none = sym r.tracked ∙ e in (refl, subst (λ c. Represents c h) free r)
  restored current (some dns) h e r = let (done, back) = unset current h r in (refl, back)

  -- One call does what was promised, and succeeds.
  call-Represents :
      (d : DnsCall) (current : Option IpAddr) (h : Host fs show_ip)
      → Represents current h
      → ((call fs show_ip d h).0 ≡ ok tt) × Represents (in_force d current) (call fs show_ip d h).1
  unfolding call apply_dns reload_dns restore_dns
  call-Represents (apply none) current h r = (refl, r)
  call-Represents (apply (some dns)) current h r = redirected current dns h r
  call-Represents (reload server) current h r = elim (Bool-cases (server == h.conf.current)) [
    | inl same ↦
        let e : current ≡ server = sym r.tracked ∙ sym ((==_iff server h.conf.current).0 same) in
        rw same (refl, subst (λ c. Represents c h) e r)
    | inr other ↦ rw other (reloaded current server h r)
  ]
  call-Represents restore current h r = restored current h.conf.current h refl r

  -- If the files exist and no write fails, then after any calls the resolver's file shows what an
  -- override in the order of the calls promises: the last server set, or else the original contents.
  pub calls-Represents :
      (ds : List DnsCall) (current : Option IpAddr) (h : Host fs show_ip)
      → Represents current h
      → Represents (in_force_after ds current) (calls fs show_ip ds h)
  unfolding calls
  calls-Represents [] current h r = r
  calls-Represents (d ∷ ds) current h r =
      let (done, next) = call-Represents d current h r in
      calls-Represents ds (in_force d current) (call fs show_ip d h).1 next
