-- ===== src/Protocol/Frames/Access.antt =====
-- What the checked access to the fields of a frame gives.
use the_grid.Prelude.{
  ℕ, ◌≤◌, ◌≡◌, ◌≢◌, ◌↔◌, Option, none, some, [], length, arith, ℕ_eq, list_eq, ap, sym,
}
use the_grid.Prelude.Dict.{lookup}
use the_grid.Prelude.Result.{Result, ok, err, Error, frame_error, invalid, reraise, ◌>>=◌}
use the_grid.Bytes.{Bytes, IsBytes}
use the_grid.Text.{Text}
use the_grid.Protocol.Base64.{b64url_encode, b64url_decode}
use the_grid.Protocol.Base64.RoundTrip.{b64url_decode_iff, b64url_decode_sized}
use the_grid.Protocol.Frames.{
  Value, null, boolean, number, negative, real, string, array, object, Frame, require_frame_int,
  require_frame_bytes, checked_int, checked_bytes, check_max_length,
}

checked_int_iff :
    (v : Option Value) (low high n : ℕ)
    → (checked_int v low high ≡ ok n) ↔ ((v ≡ some (number n)) × (low ≤ n) × (n ≤ high))
unfolding checked_int
checked_int_iff (some (number m)) low high n = (λ h. ground arith, λ h. ground arith)
checked_int_iff none low high n = (λ h. cc, λ h. cc)
checked_int_iff (some null) low high n = (λ h. cc, λ h. cc)
checked_int_iff (some (boolean b)) low high n = (λ h. cc, λ h. cc)
checked_int_iff (some (negative m)) low high n = (λ h. cc, λ h. cc)
checked_int_iff (some (real m)) low high n = (λ h. cc, λ h. cc)
checked_int_iff (some (string t)) low high n = (λ h. cc, λ h. cc)
checked_int_iff (some (array v)) low high n = (λ h. cc, λ h. cc)
checked_int_iff (some (object v)) low high n = (λ h. cc, λ h. cc)

-- An integer field is read as n exactly when it is the integer n within the bounds: a bool, a
-- float, a negative number, a missing field or one out of bounds is refused.
pub require_frame_int_iff :
    (frame : Frame) (name : Text) (low high n : ℕ)
    → (require_frame_int frame name low high ≡ ok n)
      ↔ ((lookup name frame ≡ some (number n)) × (low ≤ n) × (n ≤ high))
unfolding require_frame_int
require_frame_int_iff frame name low high n = checked_int_iff (lookup name frame) low high n

reraise_iff :
    (m : Result Bytes) (e : Error) (bytes : Bytes)
    → ((reraise m e >>= λ d. ok d) ≡ ok bytes) ↔ (m ≡ ok bytes)
unfolding reraise
reraise_iff (ok d) e bytes = (λ h. h, λ h. h)
reraise_iff (err x) e bytes = (λ h. ground arith, λ h. ground arith)

checked_bytes_iff :
    (v : Option Value) (size : ℕ) (bytes : Bytes)
    → IsBytes bytes
    → (checked_bytes v (some size) none ≡ ok bytes)
      ↔ ((v ≡ some (string (b64url_encode bytes))) × (length bytes ≡ size) × (bytes ≢ []))
unfolding checked_bytes check_max_length
checked_bytes_iff (some (string t)) size bytes b =
    let (f, g) = reraise_iff (b64url_decode t (some size)) (frame_error invalid) bytes in
    let (p, q) = b64url_decode_sized t size bytes in
    let (r, s) = b64url_decode_iff t bytes b in
    (
      λ h.
          let (d, l) = p (f h) in
          let (same, n) = r d in (ap (λ x. some (string x)) (sym same), l, n),
      λ (e, l, n). g (q (s (ground (arith, e), n), l)),
    )
checked_bytes_iff v size bytes b = (λ h. cc, λ h. cc)

-- A field of bytes with an expected length is read as given bytes exactly when the field is their
-- base64url text and they have that length, which is not zero: no other text is read as them.
pub require_frame_bytes_iff :
    (frame : Frame) (name : Text) (size : ℕ) (bytes : Bytes)
    → IsBytes bytes
    → (require_frame_bytes frame name (some size) none ≡ ok bytes) ↔ (
        (lookup name frame ≡ some (string (b64url_encode bytes)))
        × (length bytes ≡ size)
        × (bytes ≢ []))
unfolding require_frame_bytes
require_frame_bytes_iff frame name size bytes b = checked_bytes_iff (lookup name frame) size bytes b
