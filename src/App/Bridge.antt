-- ===== src/App/Bridge.antt =====
-- src/lib.rs: `bridge_tun_to_stack`. The device and the network stack are parameters by what each call
-- on them comes to.
use cortado.Base.{Bool, true, false, List, [], ◌∷◌, Bytes}

-- A read of the device, at most as long as the buffer, and whether the stack takes the packet.
pub data Read : Type 0 where
  failed : Read
  packet : Bytes → Bool → Read

-- The packets that are handed to the stack.
unfoldable pub uplink : List Read → List Bytes
uplink [] = []
uplink (failed ∷ rest) = []
uplink (packet [] taken ∷ rest) = []
uplink (packet (b ∷ bs) true ∷ rest) = (b ∷ bs) ∷ uplink rest
uplink (packet (b ∷ bs) false ∷ rest) = []

-- An item of the stack, and whether the device takes all of it.
pub data Item : Type 0 where
  broken : Item
  item : Bytes → Bool → Item

-- The packets that are written to the device.
unfoldable pub downlink : List Item → List Bytes
downlink [] = []
downlink (broken ∷ rest) = []
downlink (item pkt true ∷ rest) = pkt ∷ downlink rest
downlink (item pkt false ∷ rest) = []
