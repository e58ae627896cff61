-- ===== src/Network/Echo/Lost.antt =====
-- src/network_io_benchmarker_cpp.cpp: what follows when a `send` of the server takes a part of its bytes,
-- or none.
use context_switching.Prelude.Double.{Double}
use context_switching.Network.Echo.Short.{Short}
