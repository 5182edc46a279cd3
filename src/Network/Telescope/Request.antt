-- ===== src/Network/Telescope/Request.antt =====
-- The payload of EXTEND: what services/tor-client/src/core/circuit.rs writes, the relays of
-- services/relay-node/src/circuit read.
use nopanic.Prelude.{ℕ, ◌≡◌, ◌≢◌, List, true, ok, length, All}
use nopanic.Crypto.Library.{Crypto}
use nopanic.Discovery.{NodeDescriptor}
use nopanic.Client.Builder.{Outside, extend_payload}
use nopanic.Relay.Utf8.{is_utf8}
use nopanic.Relay.Extend.{parse_extend}
use nopanic.Relay.Extend.Request.{parse_extend-request}

-- A relay reads the fields of the client's request as they were written: the text of the address
-- where it is UTF-8 without a zero byte, the client's key where it has 32 bytes, and the
-- fingerprint where it is UTF-8.
pub parse_extend-extend_payload :
    (lib : Crypto) (outside : Outside) (key : List ℕ) (node : NodeDescriptor)
    → All (λ b. b ≢ 0) (outside.addr_text node.address)
    → is_utf8 (outside.addr_text node.address) ≡ true
    → is_utf8 node.tls_cert_fingerprint ≡ true
    → length key ≡ 32
    → parse_extend (extend_payload lib outside key node)
      ≡ ok (record {
        addr = outside.addr_text node.address;
        client_public = key;
        fingerprint = node.tls_cert_fingerprint;
      })
unfolding extend_payload
parse_extend-extend_payload lib outside key node nonzero utf8 utf8' len =
    parse_extend-request (outside.addr_text node.address) key node.tls_cert_fingerprint nonzero utf8
      utf8' len
