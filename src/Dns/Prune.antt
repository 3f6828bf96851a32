-- ===== src/Dns/Prune.antt =====
-- src/dns.rs: what `prune` and `conn_count` do to the buckets.
use cortado.Base.{
  ℕ, ◌≡◌, refl, sym, inl, inr, Bool, true, false, not, ◌&&◌, List, [], ◌∷◌, none, arith, filter,
  is_empty, lookup, IsMap, nat_beq, unwrap_or, Bool-cases,
}
use cortado.Addr.{SocketAddr, socket_eq, socket_beq_iff}
use cortado.Dns.Conn.{Conn, update}
use cortado.Dns.Pool.{DnsPool, bucket_of, is_idle, prune_bucket, prune_map, prune}

-- Alive, and with a query in flight or used within the idle time.
abbrev pub keeps : ℕ → ℕ → Conn → Bool
keeps now idle c = c.alive && not (is_idle now idle c)

module _ (now idle : ℕ) (first : ℕ → Conn) where
  -- What was closed so far was not to be kept.
  abbrev Agrees : (ℕ → Conn) → Type 0
  Agrees heap = (j : ℕ) → keeps now idle (heap j) ≡ keeps now idle (first j)

  closed-Agrees :
      (heap : ℕ → Conn) (i : ℕ)
      → Agrees heap
      → is_idle now idle (heap i) ≡ true
      → Agrees (update heap i (record (heap i) { alive = false }))
  closed-Agrees heap i h idled j = elim (Bool-cases (nat_beq i j)) [
    | inl same ↦ let e : i ≡ j = ground arith in let at_i = h i in rw (same, sym e) (ground arith)
    | inr other ↦ rw other (h j)
  ]

  prune_bucket-filter :
      (is : List ℕ) (heap : ℕ → Conn)
      → Agrees heap
      → ((prune_bucket now idle is heap).0 ≡ filter (λ j. keeps now idle (first j)) is)
        × Agrees (prune_bucket now idle is heap).1
  unfolding prune_bucket
  prune_bucket-filter [] heap h = (refl, h)
  prune_bucket-filter (i ∷ is) heap h = elim (Bool-cases (heap i).alive) [
    | inr dead ↦
        let here = h i in
        let (same, later) = prune_bucket-filter is heap h in rw dead (ground arith, later)
    | inl alive ↦ elim (Bool-cases (is_idle now idle (heap i))) [
      | inl idled ↦
          let here = h i in
          let (same, later) =
            prune_bucket-filter is (update heap i (record (heap i) { alive = false }))
              (closed-Agrees heap i h idled) in
          rw (alive, idled) (ground arith, later)
      | inr used ↦
          let here = h i in
          let (same, later) = prune_bucket-filter is heap h in
          rw (alive, used) (ground arith, later)
    ]
  ]

  empty_nil : (is : List ℕ) → is_empty is ≡ true → is ≡ []
  empty_nil [] h = refl
  empty_nil (i ∷ is) h = cc

  prune_map-filter :
      (s : SocketAddr) (m : List (SocketAddr × List ℕ)) (heap : ℕ → Conn)
      → Agrees heap
      → IsMap m
      → (unwrap_or (lookup s (prune_map now idle m heap).0) []
          ≡ filter (λ j. keeps now idle (first j)) (unwrap_or (lookup s m) []))
        × Agrees (prune_map now idle m heap).1
  unfolding prune_map lookup
  prune_map-filter s [] heap h distinct = (refl, h)
  prune_map-filter s ((t, bucket) ∷ rest) heap h (fresh, distinct) =
      let (kept, later) = prune_bucket-filter bucket heap h in
      let (others, last) =
        prune_map-filter s rest (prune_bucket now idle bucket heap).1 later distinct in
      let nil = empty_nil (prune_bucket now idle bucket heap).0 in
      elim (Bool-cases (is_empty (prune_bucket now idle bucket heap).0)) [
        | inl gone ↦ rw gone (ground (arith, socket_beq_iff t s), last)
        | inr some_left ↦ rw some_left (ground arith, last)
      ]

  prune_map-absent :
      (s : SocketAddr) (m : List (SocketAddr × List ℕ)) (heap : ℕ → Conn)
      → lookup s m ≡ none
      → lookup s (prune_map now idle m heap).0 ≡ none
  unfolding prune_map lookup
  prune_map-absent s [] heap h = refl
  prune_map-absent s ((t, bucket) ∷ rest) heap h =
      ground (arith, prune_map-absent s rest (prune_bucket now idle bucket heap).1)

  prune_map-IsMap :
      (m : List (SocketAddr × List ℕ)) (heap : ℕ → Conn)
      → IsMap m
      → IsMap (prune_map now idle m heap).0
  unfolding prune_map
  prune_map-IsMap [] heap h = tt
  prune_map-IsMap ((t, bucket) ∷ rest) heap (fresh, h) =
      let heap' = (prune_bucket now idle bucket heap).1 in
      ground (arith, prune_map-IsMap rest heap' h, prune_map-absent t rest heap' fresh)

-- After a prune the bucket of each server has, in order, exactly those of its connections that were
-- alive and either had a query in flight or were used within the idle time, and which
-- connections are to be kept is the same for the heap after it.
pub prune_lem :
    (now : ℕ) (p : DnsPool) (s : SocketAddr)
    → IsMap p.conns
    → (bucket_of s (prune now p)
        ≡ filter (λ j. keeps now p.idle_timeout (p.heap j)) (bucket_of s p))
      × ((j : ℕ)
          → keeps now p.idle_timeout ((prune now p).heap j) ≡ keeps now p.idle_timeout (p.heap j))
unfolding prune
prune_lem now p s h = prune_map-filter now p.idle_timeout p.heap s p.conns p.heap (λ j. refl) h

pub prune-IsMap : (now : ℕ) (p : DnsPool) → IsMap p.conns → IsMap (prune now p).conns
unfolding prune
prune-IsMap now p h = prune_map-IsMap now p.idle_timeout p.heap p.conns p.heap h
