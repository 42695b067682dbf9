-- ===== src/Protocol/Message/Shapes.antt =====
-- What the validators of messages test does not depend on the order of fields.
use sinterdb.Prelude.{
  ℕ, units, ◌≡◌, refl, sym, ap, ◌∙◌, inl, inr, Bool, true, false, Option, none, some, Str, str_eq,
  str_eq→≡, str_eq_refl, if◌then◌else◌, Bool-cases, arith,
}
use sinterdb.Protocol.Document.{
  Value, Items, Fields, null, bool, number, bigint, str, date, invalid_date, binary, id, array,
  document, nil, cons, end, field, get, has_own,
}
use sinterdb.Protocol.Utf8.{utf8_encode}
use sinterdb.Protocol.Encoder.{compare_bytes, is_positive}
use sinterdb.Protocol.Canonical.{
  insert_field, canonical, canonical_items, canonical_fields, LosslessFields,
}
use sinterdb.Protocol.Canonical.RoundTrip.{has_own-canonical}
use sinterdb.Protocol.Message.{
  is_document, is_non_empty_string, is_unsigned_integer, is_zero, is_string, are_strings,
  is_array_of_strings, is_date, is_boolean, validate_handshake, validate_ping, validate_command,
  validate_result, validate_stream_item, validate_stream_end, validate_error, validate_fields,
  max_uint16, max_uint32, max_safe_integer,
}

-- Two tests of which at most one holds.
swap {ℓ} :
    {A : Type ℓ} (a b : Bool) (x y z : A)
    → (a ≡ true → b ≡ true → ⊥)
    → (if a then x else if b then y else z) ≡ (if b then y else if a then x else z)
swap true true x y z h = absurd (h refl refl)
swap true false x y z h = refl
swap false b x y z h = refl

apart : (j k key : Str) → str_eq j key ≡ true → str_eq k key ≡ true → str_eq j k ≡ false → ⊥
apart j k key jk kk differ =
    let same : j ≡ k = str_eq→≡ j key jk ∙ sym (str_eq→≡ k key kk) in
    let equal : str_eq j k ≡ true = rw same (str_eq_refl k) in cc

get-insert :
    (key k : Str) (v : Value) (fs : Fields)
    → has_own k fs ≡ false
    → get key (insert_field k v fs) ≡ get key (field k v fs)
unfolding get insert_field has_own
get-insert key k v end h = refl
get-insert key k v (field j u fs) h =
    elim (Bool-cases (is_positive (compare_bytes (utf8_encode k) (utf8_encode j)))) [
      | inr first ↦ rw first refl
      | inl later ↦
          let others : has_own k fs ≡ false = ground arith in
          let differ : str_eq j k ≡ false = ground arith in
          let r = get-insert key k v fs others in
          rw later (
            rw r (
              swap (str_eq j key) (str_eq k key) (some u) (some v) (get key fs)
                (λ jk kk. apart j k key jk kk differ)))
    ]

abbrev pub canonical_option : Option Value → Option Value
canonical_option none = none
canonical_option (some v) = some (canonical v)

pub get-canonical :
    (key : Str) (fs : Fields)
    → LosslessFields fs
    → get key (canonical_fields fs) ≡ canonical_option (get key fs)
unfolding canonical get
get-canonical key end l = refl
get-canonical key (field k v fs) (_, new, _, l) =
    get-insert key k (canonical v) (canonical_fields fs) (has_own-canonical k fs ∙ new)
    ∙ elim (Bool-cases (str_eq k key)) [
      | inl same ↦ rw (same, get) refl
      | inr other ↦ rw (other, get) (get-canonical key fs l)
    ]

are_strings-canonical : (vs : Items) → are_strings (canonical_items vs) ≡ are_strings vs
unfolding are_strings canonical
are_strings-canonical nil = refl
are_strings-canonical (cons (str s) vs) = are_strings-canonical vs
are_strings-canonical (cons _ vs) = refl

-- A test that treats a value and its canonical form alike.
abbrev Blind : (Option Value → Bool) → Type 0
Blind test = (o : Option Value) → test (canonical_option o) ≡ test o

Blind-of :
    (test : Option Value → Bool)
    → ((vs : Items) → test (some (array (canonical_items vs))) ≡ test (some (array vs)))
    → ((fs : Fields) → test (some (document (canonical_fields fs))) ≡ test (some (document fs)))
    → Blind test
unfolding canonical
Blind-of test on_array on_document none = refl
Blind-of test on_array on_document (some (array vs)) = on_array vs
Blind-of test on_array on_document (some (document fs)) = on_document fs
Blind-of test on_array on_document (some null) = refl
Blind-of test on_array on_document (some (bool b)) = refl
Blind-of test on_array on_document (some (number b)) = refl
Blind-of test on_array on_document (some (bigint z)) = refl
Blind-of test on_array on_document (some (str s)) = refl
Blind-of test on_array on_document (some (date z)) = refl
Blind-of test on_array on_document (some invalid_date) = refl
Blind-of test on_array on_document (some (binary bytes)) = refl
Blind-of test on_array on_document (some (id bytes)) = refl

module _ (fs : Fields) (l : LosslessFields fs) where
  at :
      (test : Option Value → Bool) (key : Str)
      → Blind test
      → test (get key (canonical_fields fs)) ≡ test (get key fs)
  at test key blind = ap test (get-canonical key fs l) ∙ blind (get key fs)

  document_at : (key : Str) → is_document (get key (canonical_fields fs)) ≡ is_document (get key fs)
  unfolding is_document
  document_at key = at is_document key (Blind-of is_document (λ vs. refl) (λ gs. refl))

  text_at :
      (key : Str)
      → is_non_empty_string (get key (canonical_fields fs)) ≡ is_non_empty_string (get key fs)
  unfolding is_non_empty_string
  text_at key = at is_non_empty_string key (Blind-of is_non_empty_string (λ vs. refl) (λ gs. refl))

  unsigned_at :
      (key : Str) (maximum : ℕ)
      → is_unsigned_integer (get key (canonical_fields fs)) maximum
        ≡ is_unsigned_integer (get key fs) maximum
  unfolding is_unsigned_integer
  unsigned_at key maximum =
      let test : Option Value → Bool = λ o. is_unsigned_integer o maximum in
      at test key (Blind-of test (λ vs. refl) (λ gs. refl))

  zero_at : (key : Str) → is_zero (get key (canonical_fields fs)) ≡ is_zero (get key fs)
  unfolding is_zero
  zero_at key = at is_zero key (Blind-of is_zero (λ vs. refl) (λ gs. refl))

  string_at : (key s : Str) → is_string s (get key (canonical_fields fs)) ≡ is_string s (get key fs)
  unfolding is_string
  string_at key s = at (is_string s) key (Blind-of (is_string s) (λ vs. refl) (λ gs. refl))

  strings_at :
      (key : Str)
      → is_array_of_strings (get key (canonical_fields fs)) ≡ is_array_of_strings (get key fs)
  unfolding is_array_of_strings
  strings_at key =
      at is_array_of_strings key (Blind-of is_array_of_strings are_strings-canonical (λ gs. refl))

  date_at : (key : Str) → is_date (get key (canonical_fields fs)) ≡ is_date (get key fs)
  unfolding is_date
  date_at key = at is_date key (Blind-of is_date (λ vs. refl) (λ gs. refl))

  boolean_at : (key : Str) → is_boolean (get key (canonical_fields fs)) ≡ is_boolean (get key fs)
  unfolding is_boolean
  boolean_at key = at is_boolean key (Blind-of is_boolean (λ vs. refl) (λ gs. refl))

  handshake_at : validate_handshake (canonical_fields fs) ≡ validate_handshake fs
  unfolding validate_handshake
  handshake_at = rw (string_at (units "role") (units "client")) (
      rw (string_at (units "role") (units "server")) (
        rw (unsigned_at (units "protocolVersion") max_uint16) (
          rw (zero_at (units "protocolVersion")) (
            rw (text_at (units "product")) (
              rw (text_at (units "productVersion"))
                (rw (strings_at (units "capabilities")) refl))))))

  command_at : validate_command (canonical_fields fs) ≡ validate_command fs
  unfolding validate_command
  command_at = rw (text_at (units "command")) (
      rw (has_own-canonical (units "database") fs)
        (rw (text_at (units "database")) (rw (document_at (units "parameters")) refl)))

  error_at : validate_error (canonical_fields fs) ≡ validate_error fs
  unfolding validate_error
  error_at = rw (unsigned_at (units "code") max_uint32) (
      rw (text_at (units "name")) (
        rw (text_at (units "message")) (
          rw (boolean_at (units "retryable")) (
            rw (has_own-canonical (units "details") fs)
              (rw (document_at (units "details")) refl)))))

  -- Validation does not see the order of fields.
  pub validate_fields-canonical :
      (kind : ℕ) → validate_fields kind (canonical_fields fs) ≡ validate_fields kind fs
  unfolding validate_fields validate_ping validate_result validate_stream_item validate_stream_end
  validate_fields-canonical kind = rw handshake_at (
      rw (date_at (units "sentAt")) (
        rw command_at (
          rw (has_own-canonical (units "value") fs) (
            rw (unsigned_at (units "sequence") max_safe_integer)
              (rw (unsigned_at (units "count") max_safe_integer) (rw error_at refl))))))
