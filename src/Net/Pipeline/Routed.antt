-- ===== src/Net/Pipeline/Routed.antt =====
-- Packets that are routed, through the filters and the sessions (src/net/packet.rs).
