-- ===== src/Prelude/Result.antt =====
-- Exceptions as values: every exception class of the program that a handler tells apart.
use mathlib.Core.Path.{◌≡◌, refl, subst}
use mathlib.Core.Logic.{◌⊎◌, inl, inr}
use mathlib.Core.Bool.{Bool, true, false}

-- access.py:AccessErrorCode
pub data AccessErrorCode : Type 0 where
  invalid_context invalid_state invalid_display already_initialised file_error : AccessErrorCode

-- hub.py:BoardCryptoErrorCode
pub data BoardCryptoErrorCode : Type 0 where
  invalid_message too_long invalid_record integrity token_mismatch : BoardCryptoErrorCode

-- hub.py:BoardStoreErrorCode
pub data BoardStoreErrorCode : Type 0 where
  invalid_record duplicate_message database : BoardStoreErrorCode

-- protocol.py:FrameErrorCode
pub data FrameErrorCode : Type 0 where
  invalid too_large eof : FrameErrorCode

-- sessions.py:SessionErrorCode
pub data SessionErrorCode : Type 0 where
  invalid_handshake proof_failed key_exchange_failed invalid_frame wrong_session wrong_direction :
      SessionErrorCode
  counter invalid_tag invalid_payload invalid_state too_long discarded : SessionErrorCode

-- phrases.py:PhraseErrorCode
pub data PhraseErrorCode : Type 0 where
  malformed generator : PhraseErrorCode

-- phrases.py:WordListErrorCode
pub data WordListErrorCode : Type 0 where
  missing checksum encoding content : WordListErrorCode

pub data Error : Type 0 where
  type_error value_error encoding_error unicode_error connection_error relay_error overflow_error
        terminal_text_error :
      Error
  access_error : AccessErrorCode → Error
  board_crypto_error : BoardCryptoErrorCode → Error
  board_store_error : BoardStoreErrorCode → Error
  frame_error : FrameErrorCode → Error
  session_error : SessionErrorCode → Error
  session_integrity_error : SessionErrorCode → Error
  phrase_error : PhraseErrorCode → Error
  word_list_error : WordListErrorCode → Error

-- What `except (TypeError, ValueError)` catches: the subclasses of ValueError too. The others
-- are RuntimeError (BoardStoreError, RelayError, WordListError), OSError (ConnectionError) and
-- ArithmeticError (OverflowError).
unfoldable pub is_type_or_value_error : Error → Bool
is_type_or_value_error connection_error = false
is_type_or_value_error relay_error = false
is_type_or_value_error overflow_error = false
is_type_or_value_error (board_store_error c) = false
is_type_or_value_error (word_list_error c) = false
is_type_or_value_error e = true

pub data Result {ℓ} (A : Type ℓ) : Type ℓ where
  ok : A → Result A
  err : Error → Result A

infixl 5 ◌>>=◌ ◌>>◌
abbrev pub ◌>>=◌ {ℓ κ} : {A : Type ℓ} {B : Type κ} → Result A → (A → Result B) → Result B
err e >>= next = err e
ok value >>= next = next value

abbrev pub ◌>>◌ {ℓ} : {B : Type ℓ} → Result (Unit {0}) → Result B → Result B
first >> second = first >>= λ _. second

-- `if test: raise e`
abbrev pub raise_if : Bool → Error → Result (Unit {0})
raise_if true e = err e
raise_if false e = ok tt

-- `try: m except (TypeError, ValueError) as exc: raise e from exc`
unfoldable pub reraise {ℓ} : {A : Type ℓ} → Result A → Error → Result A
reraise (ok a) e = ok a
reraise (err x) e = elim (is_type_or_value_error x) [ true ↦ err e | false ↦ err x ]

-- Inversion of a successful block.
pub >>=-eq-ok {ℓ κ} :
    {A : Type ℓ} {B : Type κ} (r : Result A) (next : A → Result B) {result : B}
    → (r >>= next) ≡ ok result
    → (value : A) × (r ≡ ok value) × (next value ≡ ok result)
>>=-eq-ok (err e) next h = cc
>>=-eq-ok (ok value) next h = (value, refl, h)

pub raise_if-eq-ok {ℓ} :
    {B : Type ℓ} (test : Bool) (e : Error) (k : Result B) {b : B}
    → (raise_if test e >> k) ≡ ok b
    → (test ≡ false) × (k ≡ ok b)
raise_if-eq-ok true e k h = cc
raise_if-eq-ok false e k h = (refl, h)

pub Result-cases {ℓ} :
    {A : Type ℓ} (r : Result A) → ((a : A) × (r ≡ ok a)) ⊎ ((e : Error) × (r ≡ err e))
Result-cases (ok a) = inl (a, refl)
Result-cases (err e) = inr (e, refl)

-- What `except (TypeError, ValueError)` catches is all that the result may raise.
abbrev pub IsCaught {ℓ} : {A : Type ℓ} → Result A → Type 0
IsCaught (ok a) = Unit {0}
IsCaught (err e) = is_type_or_value_error e ≡ true

pub >>=-IsCaught {ℓ κ} :
    {A : Type ℓ} {B : Type κ} (m : Result A) (f : A → Result B)
    → IsCaught m
    → ((a : A) → IsCaught (f a))
    → IsCaught (m >>= f)
>>=-IsCaught (ok a) f h k = k a
>>=-IsCaught (err e) f h k = h

pub raise_if-IsCaught {ℓ} :
    {B : Type ℓ} (test : Bool) (e : Error) (k : Result B)
    → is_type_or_value_error e ≡ true
    → IsCaught k
    → IsCaught (raise_if test e >> k)
raise_if-IsCaught true e k h i = h
raise_if-IsCaught false e k h i = i

pub reraise-IsCaught {ℓ} :
    {A : Type ℓ} (m : Result A) (e : Error)
    → IsCaught m
    → is_type_or_value_error e ≡ true
    → IsCaught (reraise m e)
unfolding reraise
reraise-IsCaught (ok a) e h i = tt
reraise-IsCaught (err x) e h i = rw (IsCaught, h) i

pub err-IsCaught {ℓ} :
    {A : Type ℓ} (m : Result A) (e : Error)
    → IsCaught m
    → m ≡ err e
    → is_type_or_value_error e ≡ true
err-IsCaught m e h p = subst IsCaught p h
