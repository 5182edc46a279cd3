-- ===== src/Protocol/Messages.antt =====
-- services/common/src/protocol.rs: the constructors `Message::new`, `circuit`, `create` and so on.
use nopanic.Prelude.{ℕ, List, [], replicate}
use nopanic.Protocol.{Message, MessageCommand}

-- `Message::new`: the digest is zero.
unfoldable pub new : ℕ → ℕ → MessageCommand → List ℕ → Message
new cid sid c d = record {
  circuit_id = cid;
  stream_id = sid;
  command = c;
  payload = d;
  digest = replicate 4 0;
}

unfoldable pub circuit : ℕ → MessageCommand → List ℕ → Message
unfolding new
circuit cid c d = new cid 0 c d

unfoldable pub stream : ℕ → ℕ → MessageCommand → List ℕ → Message
unfolding new
stream cid sid c d = new cid sid c d

unfoldable pub create : ℕ → List ℕ → Message
unfolding circuit
create cid public_key = circuit cid MessageCommand.create public_key

unfoldable pub created : ℕ → List ℕ → Message
unfolding circuit
created cid public_key = circuit cid MessageCommand.created public_key

unfoldable pub extend : ℕ → List ℕ → Message
unfolding circuit
extend cid encrypted_payload = circuit cid MessageCommand.extend encrypted_payload

unfoldable pub extended : ℕ → List ℕ → Message
unfolding circuit
extended cid response_data = circuit cid MessageCommand.extended response_data

unfoldable pub destroy : ℕ → Message
unfolding circuit
destroy cid = circuit cid MessageCommand.destroy []

unfoldable pub begin : ℕ → ℕ → List ℕ → Message
unfolding stream
begin cid sid destination = stream cid sid MessageCommand.begin destination

unfoldable pub connected : ℕ → ℕ → Message
unfolding stream
connected cid sid = stream cid sid MessageCommand.connected []

unfoldable pub data_cell : ℕ → ℕ → List ℕ → Message
unfolding stream
data_cell cid sid payload = stream cid sid MessageCommand.data_cell payload

unfoldable pub end : ℕ → ℕ → List ℕ → Message
unfolding stream
end cid sid reason = stream cid sid MessageCommand.end reason

-- The random bytes of the payload are an argument.
unfoldable pub padding : ℕ → List ℕ → Message
unfolding circuit
padding cid random = circuit cid MessageCommand.padding random
