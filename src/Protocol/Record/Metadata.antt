-- ===== src/Protocol/Record/Metadata.antt =====
-- Records whose metadata is that of crates/wsnet-protocol/src/canon.rs.
use my_websocket_net.Prelude.{
  ℕ, ◌≡◌, ◌≤◌, sym, ap, ◌∙◌, List, arith, ltb, length, Bool-cases, inl, inr, ltb→le,
}
use my_websocket_net.Prelude.Result.{ok}
use my_websocket_net.Limits.{max_metadata}
use my_websocket_net.Protocol.Canon.{
  Canonical, CanonError, IsValue, to_bytes, to_bounded_bytes, max_canon_depth,
}
use my_websocket_net.Protocol.Canon.Nesting.{nesting}
use my_websocket_net.Protocol.Canon.Values.{from_bytes_bounded}
use my_websocket_net.Protocol.Canon.RoundTrip.{from_bytes_bounded-to_bytes}
use my_websocket_net.Protocol.Record.{MetadataFormat}

-- Values that the parser takes: those of the Rust type, nested as deep as it goes.
abbrev pub IsShallow : Canonical → Type 0
IsShallow v = IsValue v × (nesting v ≤ max_canon_depth)

written_bytes :
    (v : Canonical) (bytes : List ℕ)
    → to_bounded_bytes v ≡ ok bytes
    → (length (to_bytes v) ≤ max_metadata) × (to_bytes v ≡ bytes)
unfolding to_bounded_bytes
written_bytes v bytes h = elim (Bool-cases (ltb max_metadata (length (to_bytes v)))) [
  | inl long ↦ absurd (ground (arith, h, long))
  | inr fits ↦ (ltb→le max_metadata (length (to_bytes v)) fits, ground (arith, h, fits))
]

pub canonical_reads_back :
    (v : Canonical) (bytes : List ℕ)
    → IsShallow v
    → to_bounded_bytes v ≡ ok bytes
    → from_bytes_bounded bytes max_metadata ≡ ok v
canonical_reads_back v bytes good h =
    let (fits, same) = written_bytes v bytes h in
    ap (λ b. from_bytes_bounded b max_metadata) (sym same)
    ∙ from_bytes_bounded-to_bytes v max_metadata good.0 good.1 fits

abbrev pub canonical_metadata : MetadataFormat
canonical_metadata = record {
  Canonical = Canonical;
  CanonError = CanonError;
  to_bounded_bytes = to_bounded_bytes;
  from_bytes_bounded = λ bytes. from_bytes_bounded bytes max_metadata;
  IsReadable = IsShallow;
  reads_back = canonical_reads_back;
}
