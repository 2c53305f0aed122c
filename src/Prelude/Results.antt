-- ===== src/Prelude/Results.antt =====
-- What a call returns or raises. The errors are those of the modelled components.
pub data Error : Type 0 where
  -- LookupError, KeyError, ValueError, TypeError
  lookup_error key_error value_error type_error : Error
  -- sqlalchemy's IntegrityError at a flush, and MultipleResultsFound of `scalar_one_or_none`
  integrity_error multiple_results : Error
  -- and its StatementError, for a statement that cannot be run
  statement_error : Error
  -- StorageError of the object store, and what its client raises
  storage_error client_error : Error

pub data Result {ℓ} (A : Type ℓ) : Type ℓ where
  ok : A → Result A
  err : Error → Result A
