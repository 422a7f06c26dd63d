-- ===== src/Transfer.antt =====
-- coordinator-node/network/storage_node_data_plane.py: how a client moves content to and from a storage
-- node. Wire has the frames on the socket, Crypto the key exchange and the cipher, Download and Upload the
-- two loops with their resumption. The hash of a text of bytes, the cryptography of the libraries and the
-- storage node are parameters.
pub mod Wire
pub mod Download
pub mod Upload
pub mod Crypto
mod Sealed
mod Tests
