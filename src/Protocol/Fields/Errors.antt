-- ===== src/Protocol/Fields/Errors.antt =====
-- The exceptions of `decode_fields`.
use the_grid.Prelude.{ℕ, zero, suc, ◌≡◌, refl, true, List, [], ◌∷◌, arith}
use the_grid.Prelude.Result.{
  encoding_error, is_type_or_value_error, IsCaught, >>=-IsCaught, raise_if-IsCaught,
}
use the_grid.Bytes.{Bytes}
use the_grid.Protocol.Fields.{
  decode_items, finish_fields, decode_fields, check_domain, encode_items, encode_fields,
}

encoding_error-caught : is_type_or_value_error encoding_error ≡ true
unfolding is_type_or_value_error
encoding_error-caught = refl

decode_items-IsCaught : (count : ℕ) (rest : Bytes) → IsCaught (decode_items count rest)
unfolding decode_items
decode_items-IsCaught zero rest = tt
decode_items-IsCaught (suc count) rest =
    search (>>=-IsCaught, raise_if-IsCaught, decode_items-IsCaught count, encoding_error-caught)

finish_fields-IsCaught :
    (domain : Bytes) (parsed : List Bytes × Bytes) → IsCaught (finish_fields domain parsed)
unfolding finish_fields
finish_fields-IsCaught domain (values, b ∷ after) = encoding_error-caught
finish_fields-IsCaught domain ([], []) = encoding_error-caught
finish_fields-IsCaught domain (value ∷ values, []) =
    search (raise_if-IsCaught, encoding_error-caught)

pub decode_fields-IsCaught :
    (encoded domain : Bytes) (n : ℕ) → IsCaught (decode_fields encoded domain n)
unfolding decode_fields
decode_fields-IsCaught encoded domain n =
    search
      (
        >>=-IsCaught, raise_if-IsCaught, decode_items-IsCaught, finish_fields-IsCaught,
        encoding_error-caught,
      )
      depth 9

check_domain-IsCaught : (domain : Bytes) → IsCaught (check_domain domain)
unfolding check_domain is_type_or_value_error
check_domain-IsCaught domain = ground arith

encode_items-IsCaught : (items : List Bytes) → IsCaught (encode_items items)
unfolding encode_items
encode_items-IsCaught [] = tt
encode_items-IsCaught (item ∷ items) =
    search (>>=-IsCaught, raise_if-IsCaught, encode_items-IsCaught items, encoding_error-caught)

pub encode_fields-IsCaught :
    (domain : Bytes) (fields : List Bytes) → IsCaught (encode_fields domain fields)
unfolding encode_fields
encode_fields-IsCaught domain fields = search (
  >>=-IsCaught, raise_if-IsCaught, check_domain-IsCaught, encode_items-IsCaught,
  encoding_error-caught,
)
