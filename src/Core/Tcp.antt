-- ===== src/Core/Tcp.antt =====
-- bomba_core.hpp: what the networking layer and the protocols tell one another.

-- The states that a parser of messages reports.
pub data ServerReaction : Type 0 where
  ok read_on wrong_reply disconnect : ServerReaction
