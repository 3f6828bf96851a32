-- ===== src/Macos/Override.antt =====
-- src/platform/macos/dns.rs: `NetworkSetupDns` keeps the promise of a resolver override.
use cortado.Base.{
  ◌≡◌, refl, sym, subst, ap, ◌∙◌, ◌⊎◌, inl, inr, Bool, true, false, not, ◌&&◌, List, [], ◌∷◌, ◌++◌,
  Option, none, some, Bytes, codes, ok, ◌==◌, ==_iff, list_eq, nat_eq, option_eq, Bool-cases, all,
  arith, if◌then◌else◌, is_some,
}
use cortado.Base.Effects.{◌>>◌, >>=-ok}
use cortado.Addr.{IpAddr, ip_eq}
use cortado.Text.Listed.{
  is_word, lines_of, lines-lines_of, words-lines_of, lines_of-no_space, contains_text-absent,
}
use cortado.Platform.{DnsCall, apply, reload, restore, in_force, in_force_after}
use cortado.Macos.Dns.{
  NetworkSetup, Host, servers_in, servers_of, get_servers, arguments, set_servers, ensure_backup,
  set_current, redirect, put_back, switch_to, apply_dns, reload_dns, restore_from, restore_dns,
  call, calls, back_up_unless, NetworkSetupDns,
}

-- What `networksetup` prints for a service with those servers.
abbrev pub printed : Bytes → List Bytes → Bytes
printed service [] = codes "There aren't any DNS Servers set on " ++ (service ++ codes ".\n")
printed service (s ∷ rest) = lines_of (s ∷ rest)

-- The servers that the arguments ask for.
abbrev pub meant : List Bytes → List Bytes
meant args = if args == (codes "Empty" ∷ []) then [] else args

-- What is printed is the servers, one on each line; setting, where it succeeds, sets them.
pub record IsNetworkSetup (ns : NetworkSetup) (service : Bytes) : Type 0 where
  pub prints :
      (s : ns.State) (out : Bytes)
      → ns.get_output s ≡ some out
      → out ≡ printed service (ns.servers s)
  pub holds :
      (args : List Bytes) (s : ns.State)
      → (ns.set args s).0 ≡ true
      → ns.servers (ns.set args s).1 ≡ meant args

-- A name of a server: a word, and not the word Empty.
abbrev pub is_server : Bytes → Bool
is_server s = is_word s && not (s == codes "Empty")

words : (l : List Bytes) → all is_server l ≡ true → all is_word l ≡ true
words [] h = refl
words (s ∷ l) h = let rest = words l (ground arith) in ground (arith, h)

-- What is printed is read back.
pub servers_in-printed :
    (service : Bytes) (l : List Bytes) → all is_server l ≡ true → servers_in (printed service l) ≡ l
unfolding servers_in
servers_in-printed service [] h = refl
servers_in-printed service (s ∷ l) h =
    let w = words (s ∷ l) h in
    let absent =
      contains_text-absent (codes "There aren't any") (lines_of (s ∷ l)) b' ' refl
        (lines_of-no_space (s ∷ l) w) in
    rw (absent, lines-lines_of (s ∷ l) w) (words-lines_of (s ∷ l) w)

-- The servers that are asked for are meant.
meant-arguments : (l : List Bytes) → all is_server l ≡ true → meant (arguments l) ≡ l
meant-arguments [] h = refl
meant-arguments (s ∷ l) h = let other : (s == codes "Empty") ≡ false = ground arith in rw other refl

module _ (ns : NetworkSetup) (show_ip : IpAddr → Bytes) (service : Bytes)
    (laws : IsNetworkSetup ns service) (gets : (s : ns.State) → is_some (ns.get_output s) ≡ true)
    (sets : (l : List Bytes) (s : ns.State)
      → all is_server l ≡ true
      → (ns.set (arguments l) s).0 ≡ true)
    (shows : (dns : IpAddr) → is_server (show_ip dns) ≡ true) (orig : List Bytes)
    (named : all is_server orig ≡ true) where
  -- The servers of the service under an override.
  abbrev pub shown : Option IpAddr → List Bytes
  shown none = orig
  shown (some dns) = show_ip dns ∷ []

  shown-servers : (current : Option IpAddr) → all is_server (shown current) ≡ true
  shown-servers none = named
  shown-servers (some dns) = let one = shows dns in ground (arith, one)

  pub record Represents (current : Option IpAddr) (h : Host ns show_ip) : Type 0 where
    pub tracked : h.conf.current ≡ current
    pub visible : ns.servers h.settings ≡ shown current
    pub saved : (h.conf.original ≡ some orig) ⊎ ((h.conf.original ≡ none) × (current ≡ none))

  -- `set_servers` succeeds, and changes only the settings, to those servers.
  set_servers-sets :
      (l : List Bytes) (h : Host ns show_ip)
      → all is_server l ≡ true
      → (set_servers ns show_ip l h
          ≡ (ok tt, record h { settings = (ns.set (arguments l) h.settings).1 }))
        × (ns.servers (ns.set (arguments l) h.settings).1 ≡ l)
  unfolding set_servers
  set_servers-sets l h names = (
    rw (sets l h.settings names) refl,
    laws.holds (arguments l) h.settings (sets l h.settings names) ∙ meant-arguments l names,
  )

  get_servers-shown :
      (s : ns.State) → all is_server (ns.servers s) ≡ true → get_servers ns show_ip s ≡ ns.servers s
  unfolding get_servers
  get_servers-shown s names = shown_by (ns.get_output s) refl (gets s)
    where
      shown_by :
          (o : Option Bytes)
          → ns.get_output s ≡ o
          → is_some o ≡ true
          → servers_of ns show_ip o ≡ ns.servers s
      shown_by none e there = cc
      shown_by (some out) e there =
          rw (laws.prints s out e) (servers_in-printed service (ns.servers s) names)

  -- After the backup, whether it was made now or before.
  backed_up :
      (current : Option IpAddr) (h : Host ns show_ip)
      → Represents current h
      → ensure_backup ns show_ip h
        ≡ (ok tt, record h { conf = record h.conf { original = some orig } })
  unfolding ensure_backup
  backed_up current h r =
      let with : Option (List Bytes) → Host ns show_ip =
        λ o. record h { conf = record h.conf { original = o } } in
      elim r.saved [
        | inl held ↦ ap (λ o. back_up_unless ns show_ip o h) held ∙ ap (λ o. (ok tt, with o)) held
        | inr (nothing, unset) ↦
            let plain : ns.servers h.settings ≡ orig = r.visible ∙ ap shown unset in
            let names = subst (λ l. all is_server l ≡ true) (sym plain) named in
            ap (λ o. back_up_unless ns show_ip o h) nothing
            ∙ ap (λ l. (ok tt, with (some l))) (get_servers-shown h.settings names ∙ plain)
      ]

  redirected :
      (current : Option IpAddr) (dns : IpAddr) (h : Host ns show_ip)
      → Represents current h
      → let step = redirect ns show_ip dns >> set_current ns show_ip (some dns) in
        ((step h).0 ≡ ok tt) × Represents (some dns) (step h).1
  redirected current dns h r =
      let g : Host ns show_ip = record h { conf = record h.conf { original = some orig } } in
      let (done, seen) = set_servers-sets (show_ip dns ∷ []) g (shown-servers (some dns)) in
      rw (backed_up current h r, done)
        (refl, record { tracked = refl; visible = seen; saved = inl refl })

  -- Putting the original servers back, or nothing where nothing was changed.
  unset_from :
      (o : Option (List Bytes)) (h : Host ns show_ip)
      → (o ≡ some orig) ⊎ ((o ≡ none) × (ns.servers h.settings ≡ orig))
      → let back = put_back ns show_ip o h in
        (back.0 ≡ ok tt) × ((back.1.conf ≡ h.conf) × (ns.servers back.1.settings ≡ orig))
  unset_from o h (inl held) =
      let (done, seen) = set_servers-sets orig h named in rw (held, done) (refl, (refl, seen))
  unset_from o h (inr (nothing, same)) = rw nothing (refl, (refl, same))

  unset :
      (current : Option IpAddr) (h : Host ns show_ip)
      → Represents current h
      → let back = put_back ns show_ip h.conf.original h in
        (back.0 ≡ ok tt) × ((back.1.conf ≡ h.conf) × (ns.servers back.1.settings ≡ orig))
  unset current h r = unset_from h.conf.original h (elim r.saved [
    | inl held ↦ inl held
    | inr (nothing, free) ↦ inr (nothing, r.visible ∙ ap shown free)
  ])

  cleared :
      (current : Option IpAddr) (h : Host ns show_ip)
      → Represents current h
      → Represents none (set_current ns show_ip none (put_back ns show_ip h.conf.original h).1).1
  cleared current h r =
      let facts = unset current h r in
      let kept = facts.1.0 in
      let seen = facts.1.1 in
      record {
        tracked = refl;
        visible = seen;
        saved = elim r.saved [
          | inl held ↦ inl (ap (λ (x : NetworkSetupDns). x.original) kept ∙ held)
          | inr (nothing, free) ↦
              inr (ap (λ (x : NetworkSetupDns). x.original) kept ∙ nothing, refl)
        ];
      }

  reloaded :
      (current server : Option IpAddr) (h : Host ns show_ip)
      → Represents current h
      → let step = switch_to ns show_ip server >> set_current ns show_ip server in
        ((step h).0 ≡ ok tt) × Represents server (step h).1
  reloaded current (some dns) h r = redirected current dns h r
  reloaded current none h r =
      let (done, _) = unset current h r in
      rw (>>=-ok (switch_to ns show_ip none) (λ _. set_current ns show_ip none) h tt done)
        (refl, cleared current h r)

  restored :
      (current held : Option IpAddr) (h : Host ns show_ip)
      → h.conf.current ≡ held
      → Represents current h
      → let step = restore_from ns show_ip held h.conf.original h in
        (step.0 ≡ ok tt) × Represents none step.1
  restored current none h e r =
      let free : current ≡ none = sym r.tracked ∙ e in (refl, subst (λ c. Represents c h) free r)
  restored current (some dns) h e r = restored_from h.conf.original (elim r.saved [
    | inl held ↦ held
    | inr (nothing, free) ↦ let clash = sym e ∙ r.tracked ∙ free in cc
  ])
    where
      g : Host ns show_ip
      g = record h { conf = record h.conf { original = none } }

      restored_from :
          (o : Option (List Bytes))
          → o ≡ some orig
          → let step = restore_from ns show_ip (some dns) o h in
            (step.0 ≡ ok tt) × Represents none step.1
      restored_from o held =
          let (done, seen) = set_servers-sets orig g named in
          rw (held, done)
            (refl, record { tracked = refl; visible = seen; saved = inr (refl, refl) })

  -- One call does what was promised, and succeeds.
  call-Represents :
      (d : DnsCall) (current : Option IpAddr) (h : Host ns show_ip)
      → Represents current h
      → ((call ns show_ip d h).0 ≡ ok tt) × Represents (in_force d current) (call ns show_ip d h).1
  unfolding call apply_dns reload_dns restore_dns
  call-Represents (apply none) current h r = (refl, r)
  call-Represents (apply (some dns)) current h r = redirected current dns h r
  call-Represents (reload server) current h r = elim (Bool-cases (server == h.conf.current)) [
    | inl same ↦
        let e : current ≡ server = sym r.tracked ∙ sym ((==_iff server h.conf.current).0 same) in
        rw same (refl, subst (λ c. Represents c h) e r)
    | inr other ↦ rw other (reloaded current server h r)
  ]
  call-Represents restore current h r = restored current h.conf.current h refl r

  -- If what `networksetup` prints and sets is as documented, no call of it that reads the servers
  -- or sets servers to words fails, and the names of the servers are words, then after any calls
  -- the servers of the service are what an override in the order of the calls promises: the last
  -- server set, or else the original ones.
  pub calls-Followed :
      (ds : List DnsCall) (current : Option IpAddr) (h : Host ns show_ip)
      → Represents current h
      → Represents (in_force_after ds current) (calls ns show_ip ds h)
  unfolding calls
  calls-Followed [] current h r = r
  calls-Followed (d ∷ ds) current h r =
      let (done, next) = call-Represents d current h r in
      calls-Followed ds (in_force d current) (call ns show_ip d h).1 next
