-- ===== src/InetServer/Adopt.antt =====
-- A server that a child process opens where its parent has handed down its socket.
use libxio.InetServer.{InetServer}
