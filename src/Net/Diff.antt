-- ===== src/Net/Diff.antt =====
-- src/net.rs: `diff_cidrs`, what a reload adds to and removes from the bypass list.
use cortado.Base.{
  ℕ, ◌≡◌, Bool, not, ◌&&◌, List, ◌++◌, arith, filter, contains, contains-append, contains-filter,
  nat_eq, pair_eq,
}
use cortado.Addr.{IpAddr, ip_eq}

abbrev pub Block : Type 0
Block = IpAddr × ℕ

abbrev pub absent_from : List Block → Block → Bool
absent_from blocks b = not (contains blocks b)

-- What is added, then what is removed.
unfoldable pub diff_cidrs : List Block → List Block → List Block × List Block
diff_cidrs old latest = (filter (absent_from old) latest, filter (absent_from latest) old)

-- Removing and adding what the difference says turns the old list into one with the blocks of the
-- latest list, nothing added was there before, and nothing removed is in the latest list.
pub diff_cidrs_lem :
    (old latest : List Block) (b : Block)
    → let (add, remove) = diff_cidrs old latest in
      (contains (filter (absent_from remove) old ++ add) b ≡ contains latest b)
      × (contains add b ≡ (contains latest b && not (contains old b)))
      × (contains remove b ≡ (contains old b && not (contains latest b)))
unfolding diff_cidrs
diff_cidrs_lem old latest b =
    let add = filter (absent_from old) latest in
    let remove = filter (absent_from latest) old in
    let kept = filter (absent_from remove) old in
    let facts = contains-append kept add b in
    ground (
      arith,
      contains-append kept add b,
      contains-filter (absent_from remove) old b,
      contains-filter (absent_from latest) old b,
      contains-filter (absent_from old) latest b,
    )
