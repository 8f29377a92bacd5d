-- ===== src/Tests/Echo.antt =====
-- The answer to the first of two pings arrives at the worker of Tests/Workers.
use async_ping.Prelude.Buffer.{Buffer}
use async_ping.IcmpPacket.{IcmpPacket}
use async_ping.TaskWorker.{TaskWorker}
use async_ping.Wire.{probe_packet}
use async_ping.Tests.Packets.{zeros, echo_of}

-- Process 77 and thread 1 sent it for ping 0 of the task that is at work under the time 5.
abbrev probe : IcmpPacket
probe = probe_packet zeros zeros 77 1 5 0

abbrev echo : Buffer
echo = echo_of probe
