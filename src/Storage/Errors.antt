-- ===== src/Storage/Errors.antt =====
-- packages/storage/src/errors.ts: the `StorageError`s, by their code, and what a function may throw
-- that also encodes values.
use sinterdb.Prelude.{◌≡◌, Result, ok, err}
use sinterdb.Protocol.Errors.{Throws, ProtocolErrorCode}

pub data StorageError : Type 0 where
  invalid_document invalid_document_id invalid_filter invalid_find_options : StorageError
  invalid_batch invalid_update immutable_id duplicate_id corruption io_error : StorageError
  disk_full permission_denied closed locked duplicate_key invalid_index : StorageError
  index_not_found index_conflict unsupported_format invalid_backup : StorageError

pub data Thrown : Type 0 where
  storage : StorageError → Thrown
  protocol : ProtocolErrorCode → Thrown

-- A call of the codec, among calls that may throw either.
abbrev pub encoded {ℓ} : {A : Type ℓ} → Throws A → Result Thrown A
encoded (ok a) = ok a
encoded (err e) = err (protocol e)

pub encoded-eq-ok {ℓ} : {A : Type ℓ} (r : Throws A) {a : A} → encoded r ≡ ok a → r ≡ ok a
encoded-eq-ok (ok x) h = cc
encoded-eq-ok (err e) h = cc
