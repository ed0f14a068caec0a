-- ===== src/Hk/Server/Stale.antt =====
-- A datagram that is too short for a header: bazelPro/src/hk/main.cpp reads the type all the same.
use ng.Hk.Server.{Server}
