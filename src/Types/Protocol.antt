-- ===== src/Types/Protocol.antt =====
-- The protocol versions and the length of the common header, of types.go.
use bfcp.Base.{ℕ}

abbrev pub version_rfc4582 : ℕ
version_rfc4582 = 1

abbrev pub version_rfc8855 : ℕ
version_rfc8855 = 2

-- `ProtocolVersion`, the version that `NewMessage` sets.
abbrev pub default_version : ℕ
default_version = version_rfc4582

abbrev pub common_header_length : ℕ
common_header_length = 12
