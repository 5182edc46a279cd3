-- ===== src/Network/Backward.antt =====
-- A cell from the exit through the relays to the client.
use nopanic.Prelude.{
  ℕ, List, [], ◌∷◌, ◌≡◌, ◌≤◌, ◌∙◌, refl, ap, Option, none, some, Result, ok, err, length, arith,
}
use nopanic.Protocol.{Message, max_payload_size, IsWire}
use nopanic.Protocol.Messages.{new}
use nopanic.Protocol.Wire.{write_to_stream}
use nopanic.Protocol.Wire.Framing.{Fits, write_to_stream-Fits}
use nopanic.Crypto.Library.{Crypto, KeystreamLaws}
use nopanic.Crypto.{CipherPair, apply_backward}
use nopanic.Client.Onion.Layers.{coat, length-coat}
use nopanic.Relay.Context.{HandlerError, World}
use nopanic.Relay.Entry
use nopanic.Relay.Middle
use nopanic.Relay.Handler.{CircuitHandler, entry, middle, exit, handle_backward_relay}
use nopanic.Network.{idle, cell_in, Linked, LinkedPath}
use nopanic.Network.Forward.{cell_in-to_bytes}

-- What the reader task of a relay writes to the previous hop is read there.
abbrev pub written_back : World → Result HandlerError (Option Message) → Option Message
written_back world (err e) = none
written_back world (ok none) = none
written_back world (ok (some response)) = cell_in (write_to_stream world.rng response idle).1

module _ (lib : Crypto) (world : World) where
  abbrev pub back : CircuitHandler lib → Message → Option Message × CircuitHandler lib
  back h m = let (result, h') = handle_backward_relay lib h m in (written_back world result, h')

  abbrev back_next : CircuitHandler lib → Option Message → Option Message × CircuitHandler lib
  back_next h none = (none, h)
  back_next h (some m) = back h m

  -- A cell on its way back, from the last relay to the first.
  abbrev pub carry_back :
      List (CircuitHandler lib) → Option Message → Option Message × List (CircuitHandler lib)
  carry_back [] m = (m, [])
  carry_back (h ∷ hs) m =
      let (inner, hs') = carry_back hs m in let (outer, h') = back_next h inner in (outer, h' ∷ hs')

  pub written_back-Fits : (m : Message) → Fits m → written_back world (ok (some m)) ≡ some m
  written_back-Fits m fits =
      ap (λ t. cell_in t.1) (write_to_stream-Fits world.rng m [] fits)
      ∙ cell_in-to_bytes world.rng m fits

  -- A linked relay puts its layer on, and is linked again.
  back-Linked :
      (c : CipherPair lib) (h : CircuitHandler lib) (m : Message)
      → Linked lib c h
      → (let (coated, c') = apply_backward lib c m.payload in
          Fits (record m { payload = coated })
          → ((back h m).0 ≡ some (record m { payload = coated })) × Linked lib c' (back h m).1)
  unfolding handle_backward_relay Entry.handle_backward_relay Middle.handle_backward_relay new
  back-Linked c (entry h) m l fits =
      let pair = l.pair in
      rw (pair) (
        written_back-Fits _ fits,
        record { pair = refl; hop = l.hop; has_hop = l.has_hop; idle_hop = l.idle_hop },
      )
  back-Linked c (middle h) m l fits =
      let pair = l.pair in
      rw (pair) (
        written_back-Fits _ fits,
        record { pair = refl; hop = l.hop; has_hop = l.has_hop; idle_hop = l.idle_hop },
      )
  back-Linked c (exit h) m l fits = let impossible = l.pair in cc

  module _ (laws : KeystreamLaws lib) where
    back-coated :
        (c : CipherPair lib) (h : CircuitHandler lib) (m : Message) (bytes : List ℕ)
        → IsWire m
        → length bytes ≤ max_payload_size
        → Linked lib c h
        → (let (coated, c') = apply_backward lib c bytes in
            ((back h (record m { payload = bytes })).0 ≡ some (record m { payload = coated }))
            × Linked lib c' (back h (record m { payload = bytes })).1)
    unfolding apply_backward
    back-coated c h m bytes w small l =
        back-Linked c h (record m { payload = bytes }) l
          (record {
            wire = record {
              circuit_id_u32 = w.circuit_id_u32;
              stream_id_u16 = w.stream_id_u16;
              digest_array = w.digest_array;
            };
            small = omega (arith, laws.keeps_length c.backward bytes);
          })

    -- A cell that the exit has sealed arrives at the client under one layer for each relay, all else
    -- unchanged, and each relay's cipher is where the client's cipher for it will be.
    pub carry_back-coat :
        (cs : List (CipherPair lib)) (hs : List (CircuitHandler lib)) (last : CipherPair lib)
        (m : Message) (bytes : List ℕ)
        → IsWire m
        → length bytes ≤ max_payload_size
        → LinkedPath lib cs hs last
        → (let (inner, last') = apply_backward lib last bytes in
            let (coated, cs') = coat lib cs bytes in
            let (arrived, hs') = carry_back hs (some (record m { payload = inner })) in
            (arrived ≡ some (record m { payload = coated })) × LinkedPath lib cs' hs' last')
    unfolding coat
    carry_back-coat cs [] last m bytes w small l = rw (l, coat) (refl, refl)
    carry_back-coat [] (h ∷ hs) last m bytes w small l = elim l [ ]
    carry_back-coat (c ∷ cs) (h ∷ hs) last m bytes w small (l, ls) =
        let (there, path) = carry_back-coat cs hs last m bytes w small ls in
        let (here, linked) =
          back-coated c h m (coat lib cs bytes).0 w (omega (arith, length-coat lib laws cs bytes))
            l in
        rw (carry_back, there) (here, (linked, path))
