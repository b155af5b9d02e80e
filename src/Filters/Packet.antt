-- ===== src/Filters/Packet.antt =====
-- `PacketMut` for the byte buffers of src/net/packet.rs.
use quilkin.Common.{ℕ, ◌-◌, Option, none, some, ◌++◌, length, take, drop, leb, if◌then◌else◌}
use quilkin.Net.Address.{Bytes}

-- `split_to` panics on a length past the end.
unfoldable pub remove_head : ℕ → Bytes → Option Bytes
remove_head len contents = if leb len (length contents) then some (drop len contents) else none

abbrev pub remove_tail : ℕ → Bytes → Bytes
remove_tail len contents = take (length contents - len) contents

abbrev pub extend_head : Bytes → Bytes → Bytes
extend_head bytes contents = bytes ++ contents

abbrev pub extend_tail : Bytes → Bytes → Bytes
extend_tail bytes contents = contents ++ bytes
