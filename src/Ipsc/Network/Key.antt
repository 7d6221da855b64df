-- ===== src/Ipsc/Network/Key.antt =====
-- What the package does where it has a key: a HMAC-SHA1 has twenty bytes, a datagram is compared by
-- ten, and the buffer for the code in hexadecimal digits is half of what it needs.
use go_dmr.Ipsc.Network.{Ipsc}
