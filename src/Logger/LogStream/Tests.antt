-- ===== src/Logger/LogStream/Tests.antt =====
-- src/logger/LogStream.cpp: formatting a negative integer into an array of 64 bytes.
use tiny_network.Prelude.{replicate}
use tiny_network.Logger.FixedBuffer.{FixedBuffer}

abbrev blank : FixedBuffer
blank = record { size = 64; bytes = replicate 64 0; cur = 0 }
