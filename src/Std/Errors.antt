-- ===== src/Std/Errors.antt =====
-- Error values: those that the program makes itself and those of other code.
use grpc_composition.Common.{Text, codes, Bool, true, false, ◌++◌}

-- `foreign e` is an error value of other code. The program makes an `*http.MaxBytesError`, an
-- error with a text alone (`fmt.Errorf` with no `%w`), and one that wraps another behind a
-- prefix (`fmt.Errorf("%s: %w", prefix, err)`).
pub data Error (Foreign : Type 0) : Type 0 where
  foreign : Foreign → Error Foreign
  max_bytes : Error Foreign
  plain : Text → Error Foreign
  wrap : Text → Error Foreign → Error Foreign

module _ {Foreign : Type 0} where
  -- `err.Error()`, given the texts of foreign errors.
  unfoldable pub message : (Foreign → Text) → Error Foreign → Text
  message text (foreign e) = text e
  message text max_bytes = codes "http: request body too large"
  message text (plain t) = t
  message text (wrap prefix e) = prefix ++ (codes ": " ++ message text e)

  -- `errors.As(err, &maxErr)` for `*http.MaxBytesError`: the chain of wrapped errors is walked.
  unfoldable pub as_max_bytes : (Foreign → Bool) → Error Foreign → Bool
  as_max_bytes is_max (foreign e) = is_max e
  as_max_bytes is_max max_bytes = true
  as_max_bytes is_max (plain _) = false
  as_max_bytes is_max (wrap _ e) = as_max_bytes is_max e
