-- ===== src/Capnp/Runs.antt =====
-- Concrete messages, and the theorems at concrete inputs.
use esp_cf_tunnel.Prelude.{
  ◌≡◌, ◌≢◌, refl, none, some, true, false, List, [], ◌∷◌, length, take, replicate, arith,
}
use esp_cf_tunnel.Core.{Bytes, limit}
use esp_cf_tunnel.Framing.Deliver.{IsFrame}
use esp_cf_tunnel.Capnp.Words.{le}
use esp_cf_tunnel.Capnp.Checks.{
  Value, null_value, list, Reader, traversal_words, range, charge, admit, word_at,
}
use esp_cf_tunnel.Capnp.Follow.{
  root, follow, resolve, target_of, struct_value, list_value, finish_value, element_bits,
}
use esp_cf_tunnel.Capnp.Reader.{field, element}
use esp_cf_tunnel.Capnp.Reader.Traversal.{IsPaid, field-IsPaid, element-IsPaid}
use esp_cf_tunnel.Capnp.Builder.{
  Builder, build_init, build_struct, alloc_words, set_word, set_uint, blob, fill, build_end,
  build_all, build, Build, put_struct, put_uint, put_blob,
}
use esp_cf_tunnel.Capnp.Builder.Invariant.{IsValid, build_all-IsValid}
use esp_cf_tunnel.Capnp.Builder.Message.{build_end-IsFrame, build_init-IsValid}
use esp_cf_tunnel.Capnp.Builder.Errors.{build_end_after_error}
use esp_cf_tunnel.Capnp.Builder.Pointers.{read_back, struct_at, place, follow-build_struct}
use esp_cf_tunnel.Capnp.Builder.Blobs.{Finds, bytes-blob}

-- A root structure of one word of data and one pointer: to a list of five bytes.
abbrev segment_bytes : Bytes
segment_bytes =
    0 ∷ 0 ∷ 0 ∷ 0 ∷ 1 ∷ 0 ∷ 1 ∷ 0 ∷ 42 ∷ 0 ∷ 0 ∷ 0 ∷ 0 ∷ 0 ∷ 0 ∷ 0 ∷ 1 ∷ 0 ∷ 0 ∷ 0 ∷ 42 ∷ 0 ∷ 0 ∷ 0
    ∷ 104 ∷ 101 ∷ 108 ∷ 108 ∷ 111 ∷ 0 ∷ 0 ∷ 0 ∷ []

abbrev reader : Reader
reader = record { segments = segment_bytes ∷ []; budget = traversal_words; error = none }

abbrev root_value : Value
root_value = struct_at 1 1 1 1

abbrev hello : Value
hello = record null_value { kind = list; word = 3; count = 5; element_size = 2; depth = 2 }

root_lem : (root reader).0 ≡ root_value
unfolding root follow resolve target_of struct_value finish_value admit range charge word_at le
root_lem = refl

hello_lem : (field (root reader).1 root_value 0).0 ≡ hello
unfolding root field follow resolve target_of struct_value list_value finish_value admit range
    charge word_at le element_bits
hello_lem = refl

field-IsPaid_example : IsPaid (root reader).1 (field (root reader).1 root_value 0)
field-IsPaid_example = field-IsPaid (root reader).1 root_value 0

-- Two structures of one word each, behind their tag.
abbrev pair : Value
pair = record null_value {
  kind = list;
  word = 1;
  count = 2;
  data_words = 1;
  element_size = 7;
  depth = 2;
}

element-IsPaid_example : IsPaid reader (element reader pair 1)
element-IsPaid_example = element-IsPaid reader pair 1 (omega arith, omega arith) (omega arith)

abbrev room : Bytes
room = replicate 64 255

-- A root structure, a number in it, and a text behind its pointer.
abbrev calls : List Build
calls = put_struct 0 1 1 ∷ put_uint 1 0 2 513 ∷ put_blob 2 (104 ∷ 105 ∷ []) true ∷ []

starts : (build_init room 64).0 ≡ none
unfolding build_init
starts = refl

abbrev start : Builder
start = (build_init room 64).1

start-IsValid : IsValid start
start-IsValid = build_init-IsValid room starts

finishes : (build_end (build_all calls start)).1 ≡ 40
unfolding build_init build_all build build_struct set_uint blob fill alloc_words set_word build_end
finishes = refl

build_end-IsFrame_example :
    let b = build_all calls start in
    let (rc, written, finished) = build_end b in
    (length b.buffer ≡ 64)
    × (length finished.buffer ≡ 64)
    × (rc ≡ none → IsFrame 64 (take written finished.buffer))
    × (rc ≢ none → written ≡ 0)
build_end-IsFrame_example = build_end-IsFrame room calls starts

abbrev full : Builder
full = record { buffer = room; capacity = 64; words = 7; error = some limit }

build_end_after_error_example :
    (build_all calls full ≡ full) × (build_end (build_all calls full) ≡ (some limit, 0, full))
build_end_after_error_example = build_end_after_error full limit calls refl

follow-build_struct_example :
    (follow (read_back (build_struct start 0 1 1).1) 0 0 1).0
    ≡ struct_at (place 0 (build_struct start 0 1 1).0 1 1) 1 1 1
follow-build_struct_example =
    follow-build_struct start 0 1 1 1 start-IsValid (omega arith) (omega arith) (omega arith)
      (unfold build_init build_struct alloc_words set_word in refl)

abbrev with_root : Builder
with_root = (build_struct start 0 1 1).1

with_root-IsValid : IsValid with_root
unfolding build_all build
with_root-IsValid = build_all-IsValid (put_struct 0 1 1 ∷ []) start start-IsValid

bytes-blob_example : Finds (blob with_root 2 (104 ∷ 105 ∷ []) false) 2 2 (104 ∷ 105 ∷ []) 3 2
unfolding build_init build_struct alloc_words set_word
bytes-blob_example =
    bytes-blob with_root 2 2 (104 ∷ 105 ∷ []) with_root-IsValid (omega arith) (omega arith)
      (unfold blob fill in refl)
