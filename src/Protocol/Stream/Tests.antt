-- ===== src/Protocol/Stream/Tests.antt =====
-- Frames, the stream decoder and ids on concrete inputs.
use sinterdb.Prelude.{
  ◌≡◌, ◌↔◌, refl, inl, none, [], ◌∷◌, ◌++◌, Bytes, units, str_eq, ok, take, drop, arith,
}
use sinterdb.Protocol.BigEndian.{be_bytes, be_from, be_value}
use sinterdb.Protocol.Utf8.{
  lead, trail, decode_byte, decode_points, strip_bom, point_units, points_units, utf8_decode,
  is_well_formed, no_surrogate, code_points, utf8_encode, encode_points, encode_point,
}
use sinterdb.Protocol.Reader.{read_bytes, read_uint8, read_uint32}
use sinterdb.Protocol.Document.{null, document, field, end, has_own}
use sinterdb.Protocol.Decoder.{
  read_length_prefixed_bytes, decode_string, read_string, add_field, convert, read_fields,
  read_document, read_tagged, read_value, decode_document_value, decode_document,
}
use sinterdb.Protocol.Frame.{
  FrameInput, validate_message_kind, validate_flags, validate_request_id, validate_payload,
  encode_header, encode_frame, get_uint, validate_magic, read_frame_header, decode_frame,
  get_frame_length,
}
use sinterdb.Protocol.Frame.RoundTrip.{
  decode_frame-encode_frame, get_frame_length-encode_frame, get_frame_length-append,
}
use sinterdb.Protocol.Message.{
  DecodedMessage, validate_result, validate_fields, validate_message_payload,
  decode_message_payload, decode_message,
}
use sinterdb.Protocol.Message.{encode_message, encode_message_payload}
use sinterdb.Protocol.Message.RoundTrip.{decode_message-encode_message}
use sinterdb.Protocol.Canonical.{LosslessFields, canonical, insert_field}
use sinterdb.Protocol.Stream.Chunks.Frames.{Sent, none_sent, one_sent, push_all-Sent}
use sinterdb.Protocol.Encoder.{
  encode_document_value, write_value, write_fields, sort_entries, encode_string,
  write_length_prefixed_bytes,
}
use sinterdb.Protocol.Writer.{
  write_uint8, write_uint32, write_bytes, store, ensure_capacity, new_writer, set_bytes, finish,
}
use sinterdb.Protocol.Stream.{new_decoder, push}
use sinterdb.Protocol.Stream.Chunks.{IsPartial, Parses, stop, next}
use sinterdb.Protocol.Stream.Chunks.Push.{push_iff, push_all-Parses, PushedAll, concat}

-- The document { value: null }, and the frame of a result with it.
abbrev payload : Bytes
payload = 0x0b ∷ 0 ∷ 0 ∷ 0 ∷ 1 ∷ 0 ∷ 0 ∷ 0 ∷ 5 ∷ 0x76 ∷ 0x61 ∷ 0x6c ∷ 0x75 ∷ 0x65 ∷ 0 ∷ []

abbrev frame : Bytes
frame = 0x53 ∷ 0x4e ∷ 0x54 ∷ 0x52 ∷ 0 ∷ 1 ∷ 4 ∷ 0 ∷ 0 ∷ 0 ∷ 0 ∷ 7 ∷ 0 ∷ 0 ∷ 0 ∷ 15 ∷ payload

abbrev input : FrameInput
input = record { kind = 4; request_id = 7; payload = payload; flags = none }

input-encoded : encode_frame input ≡ ok frame
unfolding encode_frame encode_header be_bytes validate_message_kind validate_flags
    validate_request_id validate_payload
input-encoded = refl

decode_frame-encode_frame_example :
    decode_frame frame
    ≡ ok (record { version = 1; kind = 4; flags = 0; request_id = 7; payload = payload })
decode_frame-encode_frame_example = decode_frame-encode_frame input frame input-encoded

get_frame_length-encode_frame_example : get_frame_length (frame ++ frame) ≡ ok 31
get_frame_length-encode_frame_example =
    get_frame_length-encode_frame input frame frame input-encoded

get_frame_length-append_example :
    get_frame_length (take 20 frame ++ frame) ≡ get_frame_length (take 20 frame)
get_frame_length-append_example = get_frame_length-append (take 20 frame) frame (omega arith)

abbrev message : DecodedMessage
message = record {
  version = 1;
  kind = 4;
  flags = 0;
  request_id = 7;
  payload = field (units "value") null end;
}

frame-decoded : decode_message frame ≡ ok message
unfolding decode_message decode_frame read_frame_header validate_magic str_eq get_uint be_value
    be_from validate_message_kind validate_flags decode_message_payload decode_document
    decode_document_value read_value read_tagged convert read_document read_fields read_string
    read_length_prefixed_bytes decode_string add_field read_bytes read_uint8 read_uint32 utf8_decode
    decode_points decode_byte lead trail strip_bom point_units points_units has_own
    validate_message_payload validate_fields validate_result
frame-decoded = refl

frame-length : get_frame_length frame ≡ ok 31
unfolding get_frame_length read_frame_header validate_magic str_eq get_uint be_value be_from
    validate_message_kind validate_flags
frame-length = refl

-- A whole frame and the first bytes of another.
abbrev stream : Bytes
stream = frame ++ take 9 frame

stream-length : get_frame_length stream ≡ ok 31
unfolding get_frame_length read_frame_header validate_magic str_eq get_uint be_value be_from
    validate_message_kind validate_flags
stream-length = refl

stream-Parses : Parses stream (message ∷ []) (take 9 frame)
unfolding IsPartial
stream-Parses =
    next stream (take 9 frame) 31 message [] (omega arith) stream-length (omega arith) frame-decoded
      (stop (take 9 frame) (inl (omega arith)))

push_iff_example :
    ((push stream new_decoder).0 ≡ ok (message ∷ []))
    ↔ ((rest : Bytes) × Parses stream (message ∷ []) rest)
push_iff_example = push_iff 0x53 (drop 1 stream) new_decoder (message ∷ []) (omega arith)

-- In three chunks, one of them empty.
push_all-Parses_example :
    PushedAll
      (take 20 stream ∷ ([] ∷ (drop 20 stream ∷ [])))
      new_decoder
      (message ∷ [])
      (take 9 frame)
unfolding concat IsPartial
push_all-Parses_example =
    push_all-Parses (take 20 stream ∷ ([] ∷ (drop 20 stream ∷ []))) new_decoder (message ∷ [])
      (take 9 frame) (omega arith) (inl (omega arith)) stream-Parses

-- The frame, twice, cut in the middle of the second header.
abbrev sent : Sent (frame ∷ (frame ∷ [])) (message ∷ (message ∷ []))
sent =
    one_sent input frame message (frame ∷ []) (message ∷ []) input-encoded frame-decoded
      (one_sent input frame message [] [] input-encoded frame-decoded none_sent)

push_all-Sent_example :
    PushedAll (stream ∷ (drop 9 frame ∷ [])) new_decoder (message ∷ (message ∷ [])) []
unfolding concat
push_all-Sent_example =
    push_all-Sent (frame ∷ (frame ∷ [])) (stream ∷ (drop 9 frame ∷ [])) (message ∷ (message ∷ []))
      sent refl

value-Lossless : LosslessFields message.payload
unfolding has_own
value-Lossless = (
  ((omega arith, (omega arith, (omega arith, (omega arith, (omega arith, tt))))), ground arith),
  refl,
  tt,
  tt,
)

message-encoded :
    encode_message
      (record { kind = 4; request_id = 7; payload = document message.payload; flags = none })
    ≡ ok frame
unfolding encode_message encode_message_payload validate_message_payload validate_fields
    validate_result has_own str_eq encode_frame encode_header be_bytes validate_message_kind
    validate_flags validate_request_id validate_payload encode_document_value write_value
    write_fields sort_entries encode_string is_well_formed no_surrogate code_points utf8_encode
    encode_points encode_point write_length_prefixed_bytes write_uint8 write_uint32 write_bytes
    store ensure_capacity new_writer set_bytes finish
message-encoded = refl

decode_message-encode_message_example : decode_message frame ≡ ok message
unfolding canonical insert_field
decode_message-encode_message_example =
    decode_message-encode_message 4 7 none message.payload frame value-Lossless message-encoded
