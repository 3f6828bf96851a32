-- ===== src/Windows/Tests.antt =====
-- Runs of src/platform/windows/tun.rs: a packet that is read in two pieces.
mod Routes
mod Dns
use cortado.Base.{◌≡◌, refl, ◌++◌, false, List, [], ◌∷◌, none}
use cortado.Windows.Tun.{WindowsTun, poll_read, step_reader}
use cortado.Windows.Reads.{Event, arrives, turns, reads, after_events, Kept, after_events-Kept}

abbrev idle : WindowsTun
idle = record {
  arrived = [];
  held = none;
  incoming = [];
  reader_gone = false;
  outgoing = [];
  writer_gone = false;
  pending = none;
}

abbrev events : List Event
events = arrives (1 ∷ 2 ∷ 3 ∷ []) ∷ turns ∷ reads 2 ∷ arrives (4 ∷ []) ∷ turns ∷ reads 9 ∷ []

two_pieces : (after_events events idle).delivered ≡ 1 ∷ 2 ∷ 3 ∷ []
unfolding after_events poll_read step_reader
two_pieces = refl

after_events-Kept_example : Kept events idle
after_events-Kept_example = after_events-Kept events idle
