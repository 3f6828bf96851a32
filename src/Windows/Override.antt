-- ===== src/Windows/Override.antt =====
-- src/platform/windows/dns.rs: `NetshDns` keeps the promise of a resolver override.
use cortado.Base.{
  ◌≡◌, refl, sym, subst, ◌∙◌, inl, inr, Bool, true, false, List, [], ◌∷◌, Option, none, some, Bytes,
  codes, ok, ◌==◌, ==_iff, nat_eq, option_eq, Bool-cases, is_some, if◌then◌else◌,
}
use cortado.Base.Effects.{◌>>◌}
use cortado.Addr.{IpAddr, v4, v6, ip_eq}
use cortado.Platform.{DnsCall, apply, reload, restore, in_force, in_force_after}
use cortado.Windows.Dns.{
  Netsh, Host, family, set_arguments, static_arguments, set_static, set_dhcp, reset, set_conf,
  switch_to, apply_dns, reload_dns, restore_dns, call, calls,
}

-- Setting a static server, where it succeeds, sets it for its family; going back to DHCP, where it
-- succeeds, clears that of the family; and for IPv6 it leaves that of IPv4 alone.
pub record IsNetsh (netsh : Netsh) (show_ip : IpAddr → Bytes) (interface : Bytes) : Type 0 where
  pub set_holds :
      (dns : IpAddr) (s : netsh.State)
      → (netsh.status (static_arguments netsh show_ip interface dns) s).0 ≡ true
      → netsh.dns_server interface
          (family dns)
          (netsh.status (static_arguments netsh show_ip interface dns) s).1
        ≡ some (show_ip dns)
  pub cleared :
      (inet : Bytes) (s : netsh.State)
      → (netsh.status (set_arguments interface inet (codes "dhcp" ∷ [])) s).0 ≡ true
      → netsh.dns_server interface inet
          (netsh.status (set_arguments interface inet (codes "dhcp" ∷ [])) s).1
        ≡ none
  pub cleared_v6_keeps_v4 :
      (s : netsh.State)
      → netsh.dns_server interface
          (codes "ipv4")
          (netsh.status (set_arguments interface (codes "ipv6") (codes "dhcp" ∷ [])) s).1
        ≡ netsh.dns_server interface (codes "ipv4") s

module _ (netsh : Netsh) (show_ip : IpAddr → Bytes) (interface : Bytes)
    (laws : IsNetsh netsh show_ip interface)
    (sets : (dns : IpAddr) (s : netsh.State)
      → (netsh.status (static_arguments netsh show_ip interface dns) s).0 ≡ true)
    (clears : (dns : IpAddr) (s : netsh.State)
      → (netsh.status (set_arguments interface (family dns) (codes "dhcp" ∷ [])) s).0 ≡ true) where
  -- What the interface has under an override.
  abbrev pub Shown : Option IpAddr → netsh.State → Type 0
  Shown none s =
      (netsh.dns_server interface (codes "ipv4") s ≡ none)
      × (netsh.dns_server interface (codes "ipv6") s ≡ none)
  Shown (some dns) s = netsh.dns_server interface (family dns) s ≡ some (show_ip dns)

  pub record Represents (current : Option IpAddr) (h : Host netsh show_ip interface) : Type 0 where
    pub tracked : h.conf.current ≡ current
    pub noted : h.conf.configured ≡ is_some current
    pub visible : Shown current h.settings

  static_set :
      (dns : IpAddr) (h : Host netsh show_ip interface)
      → set_static netsh show_ip interface dns h ≡ (
        ok tt,
        record h {
          settings = (netsh.status (static_arguments netsh show_ip interface dns) h.settings).1;
        },
      )
  unfolding set_static
  static_set dns h = rw (sets dns h.settings) refl

  reset-Shown :
      (h : Host netsh show_ip interface)
      → ((reset netsh show_ip interface h).0 ≡ ok tt)
        × (((reset netsh show_ip interface h).1.conf ≡ h.conf)
            × Shown none (reset netsh show_ip interface h).1.settings)
  unfolding set_dhcp
  reset-Shown h =
      let s =
        (netsh.status (set_arguments interface (codes "ipv4") (codes "dhcp" ∷ [])) h.settings).1 in
      (
        refl,
        (
          refl,
          (
            laws.cleared_v6_keeps_v4 s
                ∙ laws.cleared (codes "ipv4") h.settings (clears (v4 0) h.settings),
            laws.cleared (codes "ipv6") s (clears (v6 0) s),
          ),
        ),
      )

  reloaded :
      (server : Option IpAddr) (h : Host netsh show_ip interface)
      → let step =
          switch_to netsh show_ip interface server
          >> set_conf netsh show_ip interface (λ c. record c { current = server }) in
        ((step h).0 ≡ ok tt) × Represents server (step h).1
  unfolding set_dhcp
  reloaded (some dns) h = rw (static_set dns h) (
    refl,
    record {
      tracked = refl;
      noted = refl;
      visible = laws.set_holds dns h.settings (sets dns h.settings);
    },
  )
  reloaded none h = (refl, record { tracked = refl; noted = refl; visible = (reset-Shown h).1.1 })

  restored :
      (current : Option IpAddr) (h : Host netsh show_ip interface)
      → Represents current h
      → (b : Bool) → h.conf.configured ≡ b
      → let step =
          if b
          then (reset netsh show_ip interface
                >> set_conf netsh show_ip interface
                    (λ c. record c { configured = false; current = none }))
              h
          else (ok tt, h) in
        (step.0 ≡ ok tt) × Represents none step.1
  unfolding set_dhcp
  restored current h r true e =
      (refl, record { tracked = refl; noted = refl; visible = (reset-Shown h).1.1 })
  restored none h r false e = (refl, r)
  restored (some dns) h r false e = let clash = sym e ∙ r.noted in cc

  call-Represents :
      (d : DnsCall) (current : Option IpAddr) (h : Host netsh show_ip interface)
      → Represents current h
      → ((call netsh show_ip interface d h).0 ≡ ok tt)
        × Represents (in_force d current) (call netsh show_ip interface d h).1
  unfolding call apply_dns reload_dns restore_dns
  call-Represents (apply none) current h r = (refl, r)
  call-Represents (apply (some dns)) current h r = rw (static_set dns h) (
    refl,
    record {
      tracked = refl;
      noted = refl;
      visible = laws.set_holds dns h.settings (sets dns h.settings);
    },
  )
  call-Represents (reload server) current h r = elim (Bool-cases (server == h.conf.current)) [
    | inl same ↦
        let e : current ≡ server = sym r.tracked ∙ sym ((==_iff server h.conf.current).0 same) in
        rw same (refl, subst (λ c. Represents c h) e r)
    | inr other ↦ rw other (reloaded server h)
  ]
  call-Represents restore current h r = restored current h r h.conf.configured refl

  -- If `netsh` does as documented and no call of it fails, then after any calls the interface has
  -- what an override in the order of the calls promises: the last server set for its family, or
  -- else none for either family.
  pub calls-Kept :
      (ds : List DnsCall) (current : Option IpAddr) (h : Host netsh show_ip interface)
      → Represents current h
      → Represents (in_force_after ds current) (calls netsh show_ip interface ds h)
  unfolding calls
  calls-Kept [] current h r = r
  calls-Kept (d ∷ ds) current h r =
      let (done, next) = call-Represents d current h r in
      calls-Kept ds (in_force d current) (call netsh show_ip interface d h).1 next
