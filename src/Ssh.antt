-- ===== src/Ssh.antt =====
-- node/internal/protocols/sshd: the SSH decoy. The child models the tee that captures the first
-- bytes of a connection and the parser of the client's algorithm lists.
mod Hello
