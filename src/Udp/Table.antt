-- ===== src/Udp/Table.antt =====
-- src/udp.rs: the table of sessions under the insertions and removals that its handlers do.
use cortado.Base.{
  ℕ, ◌≤◌, ◌<◌, ◌≡◌, true, List, some, arith, length, lookup, remove, insert, IsMap, is_some,
  lookup-remove, lookup-insert, length-remove-le, length-remove-lt, remove-IsMap, insert-IsMap,
}
use cortado.Addr.{SocketAddr, socket_eq}
use cortado.Udp.{Session, session_channel_depth, fresh}

abbrev pub Table : Type 0
Table = List (SocketAddr × Session)

-- At most so many sessions, none of them twice, and no channel above its depth.
pub record SessionsFit (most : ℕ) (m : Table) : Type 0 where
  pub distinct : IsMap m
  pub few : length m ≤ most
  pub shallow :
      (k : SocketAddr) (s : Session) → lookup k m ≡ some s → length s.queue ≤ session_channel_depth

put-shallow :
    (m : Table) (k : SocketAddr) (s : Session)
    → ((j : SocketAddr) (t : Session)
        → lookup j m ≡ some t
        → length t.queue ≤ session_channel_depth)
    → length s.queue ≤ session_channel_depth
    → (j : SocketAddr) (t : Session) → lookup j (insert k s m) ≡ some t
    → length t.queue ≤ session_channel_depth
put-shallow m k s h small j t e = let old = h j t in ground (arith, lookup-insert k j s m)

pub put_existing :
    (most : ℕ) (m : Table) (k : SocketAddr) (s t : Session)
    → SessionsFit most m
    → lookup k m ≡ some s
    → length t.queue ≤ session_channel_depth
    → SessionsFit most (insert k t m)
unfolding insert
put_existing most m k s t h e small =
    let found : is_some (lookup k m) ≡ true = ground arith in
    record {
      distinct = insert-IsMap k t m h.distinct;
      few = omega (arith, h.few, length-remove-lt k m found);
      shallow = put-shallow m k t h.shallow small;
    }

pub put_new :
    (most : ℕ) (m : Table) (k : SocketAddr)
    → SessionsFit most m
    → length m < most
    → SessionsFit most (insert k fresh m)
unfolding insert
put_new most m k h room = record {
  distinct = insert-IsMap k fresh m h.distinct;
  few = omega (arith, room, length-remove-le k m);
  shallow = put-shallow m k fresh h.shallow (omega arith);
}

pub drop_one :
    (most : ℕ) (m : Table) (k : SocketAddr) → SessionsFit most m → SessionsFit most (remove k m)
drop_one most m k h = record {
  distinct = remove-IsMap k m h.distinct;
  few = omega (arith, h.few, length-remove-le k m);
  shallow = λ j t e. let old = h.shallow j t in ground (arith, lookup-remove k j m);
}
