-- ===== src/ClientHello.antt =====
-- internal/core/tunnel.go: `parseClientHello`. An error is returned alone: the other results that
-- the source returns beside it are read by no caller.
pub mod Bounds
pub mod Tests
use Prim.Native.String.{String}
use enimul.Common.{
  ℕ, zero, suc, ◌+◌, ◌*◌, Bool, true, false, not, ◌&&◌, Option, none, some, leb, ltb, ◌==◌,
  if◌then◌else◌, Bytes, length,
}
use enimul.Common.Int.{ℤ, pos, negsuc, ◌==ℤ◌}
use enimul.Common.Result.{Error, msg}
use enimul.Outcome.{Outcome, ok, failed, panic, ◌>>=◌, ◌>>◌, guard}
use enimul.Fragment.{index?, slice?}

-- What the extensions told so far. `sni_start` is -1 where no name was found.
pub record Found : Type 0 where
  pub sni_start : ℤ
  pub sni_len : ℕ
  pub is_tls13 : Bool
  pub has_ech : Bool

pub record Hello : Type 0 where
  pub prt_ver : Bytes
  pub found : Found
  pub open found use *

abbrev pub nothing_found : Found
nothing_found = record { sni_start = negsuc 0; sni_len = 0; is_tls13 = false; has_ech = false }

-- `binary.BigEndian.Uint16(data[i : i+2])`
unfoldable pub be16 : Bytes → ℕ → Outcome ℕ
be16 xs i = do hi ← index? xs i; lo ← index? xs (i + 1); ok (hi * 256 + lo)

-- The record and handshake headers, up to the client's version; the offset behind the random is 43.
unfoldable pub parse_header : Bytes → Outcome Bytes
unfolding be16
parse_header xs = do
  kind ← index? xs 0
  guard (kind == 0x16) (msg "not a TLS handshake record")
  major ← index? xs 1
  guard (major == 0x3) (msg "not a standard TLS record")
  record_len ← be16 xs 3
  guard (leb (5 + record_len) (length xs)) (msg "record length exceeds data size")
  guard (leb 4 record_len) (msg "handshake message too short")
  type ← index? xs 5
  guard (type == 0x1) (msg "not a ClientHello handshake")
  a ← index? xs 6
  b ← index? xs 7
  c ← index? xs 8
  guard (leb (a * 65536 + b * 256 + c + 4) record_len)
      (msg "handshake length exceeds record length")
  guard (leb 35 (a * 65536 + b * 256 + c)) (msg "ClientHello too short for mandatory fields")
  version ← slice? xs 9 11
  guard (ltb 43 (length xs)) (msg "unexpected end after Random")
  ok version

-- Behind the session id, the cipher suites and the compression methods.
unfoldable pub skip_fields : Bytes → Outcome ℕ
unfolding be16
skip_fields xs = do
  sid_len ← index? xs 43
  guard (leb (44 + sid_len) (length xs)) (msg "session_id length exceeds data")
  let cs = 44 + sid_len
  guard (leb (cs + 2) (length xs)) (msg "cannot read cipher_suites length")
  cs_len ← be16 xs cs
  guard (leb (cs + 2 + cs_len) (length xs)) (msg "cipher_suites exceed data")
  let cm = cs + 2 + cs_len
  guard (ltb cm (length xs)) (msg "cannot read compression_methods length")
  cm_len ← index? xs cm
  guard (leb (cm + 1 + cm_len) (length xs)) (msg "compression_methods exceed data")
  ok (cm + 1 + cm_len)

-- `case tlsExtTypeSNI`: the extension's data stands from `start` up to `end`.
unfoldable pub parse_sni : Bytes → ℕ → ℕ → Found → Outcome Found
unfolding be16
parse_sni xs start size found = do
  guard (found.sni_start ==ℤ negsuc 0) (msg "duplicate SNI extension")
  guard (leb 2 size) (msg "malformed SNI extension (too short for list length)")
  list_len ← be16 xs start
  guard (list_len + 2 == size) (msg "SNI list length field mismatch")
  guard (leb (start + 2 + 3) (start + size)) (msg "SNI entry too short")
  name_type ← index? xs (start + 2)
  guard (name_type == 0) (msg "unsupported SNI name type")
  name_len ← be16 xs (start + 3)
  guard (leb (start + 5 + name_len) (start + size)) (msg "SNI name length exceeds extension")
  ok (record found { sni_start = pos (start + 5); sni_len = name_len })

-- The switch on the type of an extension.
unfoldable pub parse_extension : Bytes → ℕ → ℕ → ℕ → Found → Outcome Found
unfolding parse_sni
parse_extension xs type start size found =
    if type == 0x002b
    then ok (record found { is_tls13 = true })
    else if type == 0x00fe
    then ok (record found { has_ech = true })
    else if type == 0x0000
    then parse_sni xs start size found
    else ok found

-- The loop over the extensions up to `end`. A round moves the offset by at least 4; the theorems on
-- it show that the fuel of `parse_client_hello` does not run out, which would panic here.
unfoldable pub extensions_loop : ℕ → Bytes → ℕ → ℕ → Found → Outcome Found
unfolding parse_extension be16
extensions_loop zero xs end offset found = panic
extensions_loop (suc fuel) xs end offset found = elim (leb (offset + 4) end) [
  | false ↦ ok found
  | true ↦ (do
    type ← be16 xs offset
    size ← be16 xs (offset + 2)
    guard (leb (offset + 4 + size) end) (msg "extension length exceeds extensions block")
    found' ← parse_extension xs type (offset + 4) size found
    extensions_loop fuel xs end (offset + 4 + size) found')
]

unfoldable pub parse_extensions : Bytes → ℕ → Outcome Found
unfolding extensions_loop
parse_extensions xs offset =
    if leb (offset + 2) (length xs)
    then (do
      total ← be16 xs offset
      guard (leb (offset + 2 + total) (length xs)) (msg "extensions length exceeds data")
      extensions_loop (suc (length xs)) xs (offset + 2 + total) (offset + 2) nothing_found)
    else ok nothing_found

-- `parseClientHello`
unfoldable pub parse_client_hello : Bytes → Outcome Hello
unfolding parse_header skip_fields parse_extensions
parse_client_hello xs = do
  version ← parse_header xs
  offset ← skip_fields xs
  found ← parse_extensions xs offset
  ok (record { prt_ver = version; found = found })
