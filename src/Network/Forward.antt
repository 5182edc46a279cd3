-- ===== src/Network/Forward.antt =====
-- A cell from the client through the relays.
use nopanic.Prelude.{
  subst, ℕ, List, [], ◌∷◌, ◌≡◌, ◌≤◌, ◌∙◌, refl, ap, sym, false, some, length, arith, append-nil,
}
use nopanic.Protocol.{Message, IsWire, max_payload_size}
use nopanic.Protocol.Codec.{to_bytes}
use nopanic.Protocol.Wire.{from_stream}
use nopanic.Protocol.Wire.Framing.{Fits, from_stream-to_bytes}
use nopanic.Crypto.Library.{Crypto, KeystreamLaws}
use nopanic.Crypto.{CipherPair, apply_forward}
use nopanic.Client.Onion.{wrap}
use nopanic.Client.Onion.Layers.{apply_forward_undo, length-wrap}
use nopanic.Relay.Context.{Relayed, World}
use nopanic.Relay.Entry
use nopanic.Relay.Middle
use nopanic.Relay.Handler.{CircuitHandler, entry, middle, exit, handle_message}
use nopanic.Network.{idle, cell_of, cell_in, pass, carry, Linked, LinkedPath}

-- What a written cell reads as.
pub cell_in-to_bytes :
    (rng : ℕ → ℕ) (m : Message)
    → Fits m
    → cell_in (record { written = to_bytes rng m; broken = false }) ≡ some m
cell_in-to_bytes rng m f =
    ap (λ bytes. cell_of (from_stream (record { incoming = bytes; broken = false })).0)
      (sym (append-nil (to_bytes rng m)))
    ∙ ap (λ t. cell_of t.0) (from_stream-to_bytes rng m [] false f)

module _ (lib : Crypto) (world : World) where
  -- A linked relay passes a cell on without its layer, and is linked again.
  pass-Linked :
      (c : CipherPair lib) (h : CircuitHandler lib) (m : Message)
      → Relayed m.command
      → Linked lib c h
      → (let (plain, c') = apply_forward lib c m.payload in
          Fits (record m { payload = plain })
          → ((pass lib world h m).0 ≡ some (record m { payload = plain }))
            × Linked lib c' (pass lib world h m).1)
  unfolding handle_message
  pass-Linked c (entry h) m r l fits =
      let e =
        Entry.Forwarding.handle_message-Relayed lib world h c l.hop [] m r l.pair l.has_hop
          l.idle_hop fits in
      rw e (
        cell_in-to_bytes world.rng _ fits,
        record {
          pair = refl;
          hop = record l.hop { write = idle };
          has_hop = refl;
          idle_hop = refl;
        },
      )
  pass-Linked c (middle h) m r l fits =
      let e =
        Middle.Forwarding.handle_message-Relayed lib world h c l.hop [] m r l.pair l.has_hop
          l.idle_hop fits in
      rw e (
        cell_in-to_bytes world.rng _ fits,
        record {
          pair = refl;
          hop = record l.hop { write = idle };
          has_hop = refl;
          idle_hop = refl;
        },
      )
  pass-Linked c (exit h) m r l fits = let impossible = l.pair in cc

  module _ (laws : KeystreamLaws lib) where
    pass-wrapped :
        (c : CipherPair lib) (h : CircuitHandler lib) (m : Message) (inner : List ℕ)
        → Relayed m.command
        → IsWire m
        → length inner ≤ max_payload_size
        → Linked lib c h
        → (let (outer, c') = apply_forward lib c inner in
            let (sent, h') = pass lib world h (record m { payload = outer }) in
            (sent ≡ some (record m { payload = inner })) × Linked lib c' h')
    pass-wrapped c h m inner r w small l =
        let (outer, c') = apply_forward lib c inner in
        let undo = apply_forward_undo lib laws c inner in
        let fits : Fits (record m { payload = inner }) = record {
          wire = record {
            circuit_id_u32 = w.circuit_id_u32;
            stream_id_u16 = w.stream_id_u16;
            digest_array = w.digest_array;
          };
          small = small;
        } in
        subst
          (λ (t : List ℕ × CipherPair lib).
            Fits (record m { payload = t.0 })
            → ((pass lib world h (record m { payload = outer })).0
                ≡ some (record m { payload = t.0 }))
              × Linked lib t.1 (pass lib world h (record m { payload = outer })).1)
          undo (pass-Linked c h (record m { payload = outer }) r l) fits

    -- A cell that the client has wrapped arrives behind the relays under the exit's layer alone,
    -- all else unchanged, and each relay's cipher is where the client's cipher for it is.
    pub carry-wrap :
        (cs : List (CipherPair lib)) (hs : List (CircuitHandler lib)) (last : CipherPair lib)
        (m : Message) (bytes : List ℕ)
        → Relayed m.command
        → IsWire m
        → length bytes ≤ max_payload_size
        → LinkedPath lib cs hs last
        → (let (wrapped, cs') = wrap lib cs bytes in
            let (inner, last') = apply_forward lib last bytes in
            let (arrived, hs') = carry lib world hs (some (record m { payload = wrapped })) in
            (arrived ≡ some (record m { payload = inner })) × LinkedPath lib cs' hs' last')
    unfolding wrap
    carry-wrap cs [] last m bytes r w small l = rw (l, wrap) (refl, refl)
    carry-wrap [] (h ∷ hs) last m bytes r w small l = elim l [ ]
    carry-wrap (c ∷ cs) (h ∷ hs) last m bytes r w small (l, ls) =
        let (here, linked) =
          pass-wrapped c h m (wrap lib cs bytes).0 r w
            (omega (arith, length-wrap lib laws cs bytes)) l in
        let (there, path) = carry-wrap cs hs last m bytes r w small ls in
        rw here (there, (linked, path))
