-- ===== src/Socket/Reach.antt =====
-- What holds in every state that a client socket reaches.
use libxio.Socket.{Socket}
use libxio.Socket.Steps.{Transfer}
