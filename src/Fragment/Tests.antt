-- ===== src/Fragment/Tests.antt =====
-- Runs of the fragmentation.
use mathlib.Core.List.{flatten}
use enimul.Common.{
  suc, ◌≡◌, refl, true, false, none, some, List, [], ◌∷◌, map, inl, arith, Bytes, length,
}
use enimul.Common.Int.{pos, negsuc}
use enimul.Wire.{ok, Conn, panic}
use enimul.Fragment.{make_record, split_parts}
use enimul.Fragment.Split.{read_records, flatten-split_parts, read_records-make_record}
use enimul.Fragment.Send.{Options, send_records}
use enimul.Fragment.Send.Delivers.{Delivers, patched}
use enimul.Fragment.Send.Laws.{Fragments, send_records-one_record, send_records-Fragments}

-- A record whose payload is 20 bytes, with the name "ab.example" at offset 10.
abbrev hello : Bytes
hello =
    22 ∷ 3 ∷ 1 ∷ 0 ∷ 20 ∷ 1 ∷ 0 ∷ 0 ∷ 16 ∷ 3 ∷ b'a' ∷ b'b' ∷ b'.' ∷ b'e' ∷ b'x' ∷ b'a' ∷ b'm' ∷ b'p'
    ∷ b'l' ∷ b'e' ∷ 1 ∷ 2 ∷ 3 ∷ 4 ∷ 5 ∷ []

abbrev options : Options
options = record {
  records = 4;
  segments = negsuc 0;
  minor_version = record { byte = 2; valid = true; zero = false };
  oob = true;
  oobex = false;
  wait = true;
}

abbrev connection : Conn
connection = record { reply = λ _. none; turn = 0; sent = [] }

send_records-Fragments_example :
    Fragments 4 (patched options hello) (send_records options hello 10 10)
send_records-Fragments_example =
    send_records-Fragments options hello 10 10 (omega arith) refl (inl refl) (omega arith)
      (omega arith) (omega arith)

send_records-one_record_example :
    Delivers
      (send_records (record options { records = 1; segments = pos 3 }) hello 10 10)
      (patched (record options { records = 1; segments = pos 3 }) hello)
send_records-one_record_example =
    send_records-one_record (record options { records = 1; segments = pos 3 }) hello 10 10 3
      (omega arith) refl refl (omega arith) (omega arith)

-- A negative number of segments: with one record the list of packets cannot be made, with several
-- none is sent.
send_records_panics :
    (send_records (record options { records = 1 }) hello 10 10 connection).0 ≡ panic
unfolding send_records
send_records_panics = refl

send_records_nothing :
    send_records (record options { segments = negsuc 1 }) hello 10 10 connection
    ≡ (ok tt, connection)
unfolding send_records
send_records_nothing = refl

flatten-split_parts_example : flatten (split_parts hello 3) ≡ hello
flatten-split_parts_example = flatten-split_parts hello 3 (omega arith)

abbrev parts : List Bytes
parts = (1 ∷ 2 ∷ []) ∷ (3 ∷ []) ∷ []

read_records-make_record_example :
    read_records (suc (length parts)) (flatten (map (make_record (22 ∷ 3 ∷ 1 ∷ [])) parts))
    ≡ some (map (λ p. (22 ∷ 3 ∷ 1 ∷ [], p)) parts)
read_records-make_record_example =
    read_records-make_record 22 3 1 parts (omega arith, (omega arith, tt))
