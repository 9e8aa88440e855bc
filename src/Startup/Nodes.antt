-- ===== src/Startup/Nodes.antt =====
-- The nodes of a gateway and of an ingestor that were started with the same option.
use tantylla.Base.{List}
