-- ===== src/Network.antt =====
-- The client and the relays of a circuit together: services/tor-client/src/core/circuit.rs and
-- services/relay-node/src/circuit. What one side writes, the other reads.
pub mod Forward
pub mod Backward
pub mod Ends
pub mod Delivery
pub mod Answers
pub mod Conversation
pub mod Telescope
use nopanic.Prelude.{ℕ, List, [], ◌∷◌, ◌++◌, ◌≡◌, Bool, false, Option, none, some, Result, ok, err}
use nopanic.Protocol.{Message}
use nopanic.Protocol.Wire.{IoError, Writer, from_stream}
use nopanic.Crypto.Library.{Crypto}
use nopanic.Crypto.{CipherPair}
use nopanic.Relay.Context.{World, NextHop}
use nopanic.Relay.Handler.{CircuitHandler, entry, middle, exit, handle_message}

-- A connection that everything written to has been read from.
abbrev pub idle : Writer
idle = record { written = []; broken = false }

abbrev pub cell_of : Result IoError (Option Message) → Option Message
cell_of (ok m) = m
cell_of (err e) = none

-- The one cell that stands in a connection.
abbrev pub cell_in : Writer → Option Message
cell_in w = cell_of (from_stream (record { incoming = w.written; broken = w.broken })).0

module _ (lib : Crypto) where
  abbrev pub next_hop : CircuitHandler lib → Option NextHop
  next_hop (entry h) = h.next_hop
  next_hop (middle h) = h.next_hop
  next_hop (exit h) = none

  abbrev pub cipher_pair : CircuitHandler lib → Option (CipherPair lib)
  cipher_pair (entry h) = h.context.cipher_pair
  cipher_pair (middle h) = h.context.cipher_pair
  cipher_pair (exit h) = none

  -- The next hop has read what was written to it.
  abbrev pub drained : Option NextHop → Option NextHop
  drained none = none
  drained (some hop) = some (record hop { write = idle })

  abbrev pub drain : CircuitHandler lib → CircuitHandler lib
  drain (entry h) = entry (record h { next_hop = drained h.next_hop })
  drain (middle h) = middle (record h { next_hop = drained h.next_hop })
  drain (exit h) = exit h

  abbrev pub outgoing : Option NextHop → Option Message
  outgoing none = none
  outgoing (some hop) = cell_in hop.write

  -- A relay handles a cell; what it wrote to the next hop is read there.
  abbrev pub pass : World → CircuitHandler lib → Message → Option Message × CircuitHandler lib
  pass world h m =
      let (result, h', w) = handle_message lib world h m none in (outgoing (next_hop h'), drain h')

  -- A cell on its way from relay to relay; `none` if one of them sends nothing on.
  abbrev pub carry :
      World
      → List (CircuitHandler lib)
      → Option Message
      → Option Message × List (CircuitHandler lib)
  carry world [] m = (m, [])
  carry world (h ∷ hs) none = (none, h ∷ hs)
  carry world (h ∷ hs) (some m) =
      let (m', h') = pass world h m in let (last, hs') = carry world hs m' in (last, h' ∷ hs')

  -- The relay holds the cipher pair, and has an idle connection to a next hop.
  pub record Linked (c : CipherPair lib) (h : CircuitHandler lib) : Type 0 where
    pub pair : cipher_pair h ≡ some c
    pub hop : NextHop
    pub has_hop : next_hop h ≡ some hop
    pub idle_hop : hop.write ≡ idle

  -- The client's ciphers are those of the relays, and the last one is the exit's.
  abbrev pub LinkedPath :
      List (CipherPair lib) → List (CircuitHandler lib) → CipherPair lib → Type 0
  LinkedPath cs [] last = cs ≡ last ∷ []
  LinkedPath [] (h ∷ hs) last = ⊥
  LinkedPath (c ∷ cs) (h ∷ hs) last = Linked c h × LinkedPath cs hs last
